-- ===== src/Metadata/Lifecycle/Failed.antt =====
-- A FAILED replica stays as it is under every request: none moves it out of FAILED, and none
-- removes its row.
use ps.Prelude.{ℕ, ℤ, ◌≡◌, sym, subst, some, List, [], ◌∷◌, inl, inr, arith, text_eq, nat_eq}
use ps.Table.{add, find_self}
use ps.Common.Text.{Text}
use ps.Common.Constants.{ReplicaState}
use ps.Common.Errors.{Result, ok, >>=-eq-ok}
use ps.Metadata.Models.{Replica, Database, replica_key, replica_at}
use ps.Metadata.Checks.{transaction, transaction_rule, flush_new}
use ps.Metadata.Objects
use ps.Metadata.Objects.Outcomes.{
  create_object-eq-ok, create_version-eq-ok, commit_version-eq-ok, transition_object_state-eq-ok,
  fail_version-eq-ok,
}
use ps.Metadata.Nodes
use ps.Metadata.Nodes.Outcomes.{
  transition_node_state-eq-ok, register_node-eq-ok, process_node_heartbeat-eq-ok,
}
use ps.Metadata.Replicas
use ps.Metadata.Replicas.{
  new_replica, new_replicas, flush_all, verified, with_status, replica_transition,
}
use ps.Metadata.Replicas.Outcomes.{
  create_replica-eq-ok, create_replicas-eq-ok, set_replica_state-eq-ok, set_replica_states-eq-ok,
  record_replica_verification-eq-ok, mark_replica_healthy-eq-ok, remove_replica-eq-ok,
}
use ps.Metadata.Commands.{Command, execute, run}
use ps.Metadata.Lifecycle.{
  KeepsFailed, KeepsFailed-refl, KeepsFailed-trans, KeepsFailed-add, KeepsFailed-save,
  KeepsFailed-remove, KeepsFailed-update,
}

module _ {A : Type 0} (operation : Database → Result (A × Database)) (db : Database) where
  transaction-KeepsFailed :
      ((r : A × Database) → operation db ≡ ok r → KeepsFailed db.replicas r.1.replicas)
      → KeepsFailed db.replicas (transaction operation db).1.replicas
  transaction-KeepsFailed =
      transaction_rule (λ d. KeepsFailed db.replicas d.replicas) operation db
        (KeepsFailed-refl db.replicas)

  transaction-same :
      ((r : A × Database) → operation db ≡ ok r → r.1.replicas ≡ db.replicas)
      → KeepsFailed db.replicas (transaction operation db).1.replicas
  transaction-same f =
      transaction-KeepsFailed
        (λ r h. subst (KeepsFailed db.replicas) (sym (f r h)) (KeepsFailed-refl db.replicas))

create_replica-KeepsFailed :
    (version_id : ℕ) (node_id : Text) (db : Database) (r : Replica × Database)
    → Replicas.create_replica version_id node_id db ≡ ok r
    → KeepsFailed db.replicas r.1.replicas
create_replica-KeepsFailed version_id node_id db r h =
    let (_, _, _, _, _, _, _, e) = create_replica-eq-ok version_id node_id db h in
    rw e (KeepsFailed-add r.0 db.replicas)

flush_all-KeepsFailed :
    (rs rows : List Replica) {more : List Replica}
    → flush_all rs rows ≡ ok more
    → KeepsFailed rows more
unfolding flush_all
flush_all-KeepsFailed [] rows {more} h =
    let e : rows ≡ more = cc h in subst (KeepsFailed rows) e (KeepsFailed-refl rows)
flush_all-KeepsFailed (x ∷ rs) rows {more} h =
    let (next, flushed, rest) = >>=-eq-ok (flush_new replica_key x rows) (flush_all rs) h in
    let e : next ≡ add x rows = ground arith in
    KeepsFailed-trans rows next more (rw e (KeepsFailed-add x rows))
      (flush_all-KeepsFailed rs next rest)

create_replicas-KeepsFailed :
    (version_id : ℕ) (node_ids : List Text) (db : Database) (r : List Replica × Database)
    → Replicas.create_replicas version_id node_ids db ≡ ok r
    → KeepsFailed db.replicas r.1.replicas
create_replicas-KeepsFailed version_id node_ids db r h =
    let (_, _, _, _, _, _, flushed, _) = create_replicas-eq-ok version_id node_ids db h in
    flush_all-KeepsFailed r.0 db.replicas flushed

set_replica_state-KeepsFailed :
    (replica_id : ℕ) (wanted : ReplicaState) (db : Database) (r : Replica × Database)
    → Replicas.set_replica_state replica_id wanted db ≡ ok r
    → KeepsFailed db.replicas r.1.replicas
set_replica_state-KeepsFailed replica_id wanted db r h =
    let (x, found, outcome) = set_replica_state-eq-ok replica_id wanted db h in
    elim outcome [
      | inl (_, e) ↦ rw e (KeepsFailed-refl db.replicas)
      | inr (allowed, _, e) ↦ rw e (
          KeepsFailed-save (with_status wanted x) db.replicas {x = x}
            (find_self replica_key replica_id db.replicas found) (λ f. ground arith))
    ]

set_replica_states-KeepsFailed :
    (ids : List ℕ) (wanted : ReplicaState) (db : Database) (r : List Replica × Database)
    → Replicas.set_replica_states ids wanted db ≡ ok r
    → KeepsFailed db.replicas r.1.replicas
set_replica_states-KeepsFailed ids wanted db r h = elim (set_replica_states-eq-ok ids wanted db h) [
  | inl e ↦ rw e (KeepsFailed-refl db.replicas)
  | inr (_, fine, e) ↦ rw e (record { at = KeepsFailed-update ids wanted db.replicas fine })
]

record_replica_verification-KeepsFailed :
    (replica_id : ℕ) (checksum : Text) (size : ℤ) (db : Database) (r : Replica × Database)
    → Replicas.record_replica_verification replica_id checksum size db ≡ ok r
    → KeepsFailed db.replicas r.1.replicas
record_replica_verification-KeepsFailed replica_id checksum size db r h =
    let (x, v, found, _, healthy, row, e) =
      record_replica_verification-eq-ok replica_id checksum size db h in
    rw e (
      KeepsFailed-save r.0 db.replicas {x = x}
        (rw row (find_self replica_key replica_id db.replicas found)) (λ f. ground arith))

mark_replica_healthy-KeepsFailed :
    (replica_id : ℕ) (checksum : Text) (size : ℤ) (db : Database) (r : Replica × Database)
    → Replicas.mark_replica_healthy replica_id checksum size db ≡ ok r
    → KeepsFailed db.replicas r.1.replicas
mark_replica_healthy-KeepsFailed replica_id checksum size db r h =
    let (x, v, found, _, repaired, row, e) =
      mark_replica_healthy-eq-ok replica_id checksum size db h in
    rw e (
      KeepsFailed-save r.0 db.replicas {x = x}
        (rw row (find_self replica_key replica_id db.replicas found)) (λ f. ground arith))

remove_replica-KeepsFailed :
    (replica_id : ℕ) (db : Database) (r : Replica × Database)
    → Replicas.remove_replica replica_id db ≡ ok r
    → KeepsFailed db.replicas r.1.replicas
remove_replica-KeepsFailed replica_id db r h =
    let (found, removable, e) = remove_replica-eq-ok replica_id db h in
    rw e (KeepsFailed-remove replica_id db.replicas {x = r.0} found removable)

pub execute-KeepsFailed :
    (request : Command) (db : Database) → KeepsFailed db.replicas (execute request db).replicas
unfolding execute
execute-KeepsFailed (Command.create_object name) db =
    transaction-same (Objects.create_object name) db
      (λ r h. ground (arith, create_object-eq-ok name db h))
execute-KeepsFailed (Command.create_version object_id size checksum expected) db =
    transaction-same (Objects.create_version object_id size checksum expected) db
      (λ r h. ground (arith, create_version-eq-ok object_id size checksum expected db h))
execute-KeepsFailed (Command.commit_version version_id expected) db =
    transaction-same (Objects.commit_version version_id expected) db
      (λ r h. ground (arith, commit_version-eq-ok version_id expected db h))
execute-KeepsFailed (Command.transition_object_state object_id wanted) db =
    transaction-same (Objects.transition_object_state object_id wanted) db
      (λ r h. ground (arith, transition_object_state-eq-ok object_id wanted db h))
execute-KeepsFailed (Command.fail_version version_id) db =
    transaction-same (Objects.fail_version version_id) db
      (λ r h. ground (arith, fail_version-eq-ok version_id db h))
execute-KeepsFailed (Command.transition_node_state node_id wanted) db =
    transaction-same (Nodes.transition_node_state node_id wanted) db
      (λ r h. ground (arith, transition_node_state-eq-ok node_id wanted db h))
execute-KeepsFailed (Command.register_node node_id address capacity status) db =
    transaction-same (Nodes.register_node node_id address capacity status) db
      (λ r h. ground (arith, register_node-eq-ok node_id address capacity status db h))
execute-KeepsFailed (Command.process_node_heartbeat node_id capacity used timestamp) db =
    transaction-same (Nodes.process_node_heartbeat node_id capacity used timestamp) db
      (λ r h. ground (arith, process_node_heartbeat-eq-ok node_id capacity used timestamp db h))
execute-KeepsFailed (Command.create_replica version_id node_id) db =
    transaction-KeepsFailed (Replicas.create_replica version_id node_id) db
      (create_replica-KeepsFailed version_id node_id db)
execute-KeepsFailed (Command.create_replicas version_id node_ids) db =
    transaction-KeepsFailed (Replicas.create_replicas version_id node_ids) db
      (create_replicas-KeepsFailed version_id node_ids db)
execute-KeepsFailed (Command.set_replica_states ids wanted) db =
    transaction-KeepsFailed (Replicas.set_replica_states ids wanted) db
      (set_replica_states-KeepsFailed ids wanted db)
execute-KeepsFailed (Command.set_replica_state replica_id wanted) db =
    transaction-KeepsFailed (Replicas.set_replica_state replica_id wanted) db
      (set_replica_state-KeepsFailed replica_id wanted db)
execute-KeepsFailed (Command.record_replica_verification replica_id checksum size) db =
    transaction-KeepsFailed (Replicas.record_replica_verification replica_id checksum size) db
      (record_replica_verification-KeepsFailed replica_id checksum size db)
execute-KeepsFailed (Command.mark_replica_healthy replica_id checksum size) db =
    transaction-KeepsFailed (Replicas.mark_replica_healthy replica_id checksum size) db
      (mark_replica_healthy-KeepsFailed replica_id checksum size db)
execute-KeepsFailed (Command.remove_replica replica_id) db =
    transaction-KeepsFailed (Replicas.remove_replica replica_id) db
      (remove_replica-KeepsFailed replica_id db)

run-KeepsFailed :
    (requests : List Command) (db : Database) → KeepsFailed db.replicas (run requests db).replicas
unfolding run
run-KeepsFailed [] db = KeepsFailed-refl db.replicas
run-KeepsFailed (request ∷ requests) db =
    KeepsFailed-trans db.replicas (execute request db).replicas
      (run requests (execute request db)).replicas (execute-KeepsFailed request db)
      (run-KeepsFailed requests (execute request db))

-- A replica that is FAILED is found after any later requests, unchanged in every column: no
-- request repairs it, and none removes its row.
pub run_keeps_failed :
    (requests : List Command) (db : Database) (replica_id : ℕ) {r : Replica}
    → replica_at replica_id db ≡ some r
    → r.status ≡ ReplicaState.failed
    → replica_at replica_id (run requests db) ≡ some r
run_keeps_failed requests db replica_id {r} found failed =
    (run-KeepsFailed requests db).at replica_id r found failed
