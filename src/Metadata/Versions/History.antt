-- ===== src/Metadata/Versions/History.antt =====
-- Every request extends the table of versions, and so does every run of requests.
use ps.Prelude.{ℕ, ℤ, ◌≡◌, refl, sym, ◌∙◌, subst, Option, some, List, [], ◌∷◌, arith, nat_eq}
use ps.Common.Text.{Text}
use ps.Common.Constants.{VersionState}
use ps.Table.{find_self}
use ps.Common.Errors.{Result, ok}
use ps.Metadata.Models.{Version, Database, version_key, version_at}
use ps.Metadata.Checks.{transaction, transaction_rule}
use ps.Metadata.Objects
use ps.Metadata.Objects.Outcomes.{
  create_object-eq-ok, create_version-eq-ok, commit_version-eq-ok, transition_object_state-eq-ok,
  fail_version-eq-ok,
}
use ps.Metadata.Nodes
use ps.Metadata.Nodes.Outcomes.{
  transition_node_state-eq-ok, register_node-eq-ok, process_node_heartbeat-eq-ok,
}
use ps.Metadata.Replicas
use ps.Metadata.Replicas.Outcomes.{
  create_replica-eq-ok, create_replicas-eq-ok, set_replica_state-eq-ok, set_replica_states-eq-ok,
  record_replica_verification-eq-ok, mark_replica_healthy-eq-ok, remove_replica-eq-ok,
}
use ps.Metadata.Commands.{Command, execute, run}
use ps.Metadata.Versions.{Extends, Extends-refl, Extends-add, Extends-save}

-- An operation that leaves the versions alone.
Extends-same : (vs ws : List Version) → ws ≡ vs → Extends vs ws
Extends-same vs ws e = subst (Extends vs) (sym e) (Extends-refl vs)

module _ {A : Type 0} (operation : Database → Result (A × Database)) (db : Database) where
  transaction-Extends :
      ((r : A × Database) → operation db ≡ ok r → Extends db.versions r.1.versions)
      → Extends db.versions (transaction operation db).1.versions
  transaction-Extends =
      transaction_rule (λ d. Extends db.versions d.versions) operation db (Extends-refl db.versions)

  transaction-same :
      ((r : A × Database) → operation db ≡ ok r → r.1.versions ≡ db.versions)
      → Extends db.versions (transaction operation db).1.versions
  transaction-same f = transaction-Extends (λ r h. Extends-same db.versions r.1.versions (f r h))

pub create_version-Extends :
    (object_id : ℕ) (size : ℤ) (checksum : Text) (expected : Option ℤ) (db : Database)
    (r : Version × Database)
    → Objects.create_version object_id size checksum expected db ≡ ok r
    → Extends db.versions r.1.versions
create_version-Extends object_id size checksum expected db r h =
    let (_, _, _, _, _, _, _, e) = create_version-eq-ok object_id size checksum expected db h in
    rw e (Extends-add r.0 db.versions)

pub commit_version-Extends :
    (version_id : ℕ) (expected : Option ℤ) (db : Database) (r : Version × Database)
    → Objects.commit_version version_id expected db ≡ ok r
    → Extends db.versions r.1.versions
commit_version-Extends version_id expected db r h =
    let (_, v, o, _, _, found, _, _, _, preparing, _, _, e) =
      commit_version-eq-ok version_id expected db h in
    rw e (
      Extends-save (Objects.committed v db) db.versions {v = v}
        (find_self version_key version_id db.versions found)
        (record { object_id = refl; version_number = refl; size_bytes = refl; checksum = refl })
        (λ c. cc (sym preparing ∙ c)))

pub fail_version-Extends :
    (version_id : ℕ) (db : Database) (r : Version × Database)
    → Objects.fail_version version_id db ≡ ok r
    → Extends db.versions r.1.versions
fail_version-Extends version_id db r h =
    let (v, found, open_, e) = fail_version-eq-ok version_id db h in
    rw e (
      Extends-save (record v { state = VersionState.failed }) db.versions {v = v}
        (find_self version_key version_id db.versions found)
        (record { object_id = refl; version_number = refl; size_bytes = refl; checksum = refl })
        open_)

pub execute-Extends : (c : Command) (db : Database) → Extends db.versions (execute c db).versions
unfolding execute
execute-Extends (Command.create_object name) db =
    transaction-same (Objects.create_object name) db
      (λ r h. ground (arith, create_object-eq-ok name db h))
execute-Extends (Command.create_version object_id size checksum expected) db =
    transaction-Extends (Objects.create_version object_id size checksum expected) db
      (create_version-Extends object_id size checksum expected db)
execute-Extends (Command.commit_version version_id expected) db =
    transaction-Extends (Objects.commit_version version_id expected) db
      (commit_version-Extends version_id expected db)
execute-Extends (Command.transition_object_state object_id wanted) db =
    transaction-same (Objects.transition_object_state object_id wanted) db
      (λ r h. ground (arith, transition_object_state-eq-ok object_id wanted db h))
execute-Extends (Command.fail_version version_id) db =
    transaction-Extends (Objects.fail_version version_id) db (fail_version-Extends version_id db)
execute-Extends (Command.transition_node_state node_id wanted) db =
    transaction-same (Nodes.transition_node_state node_id wanted) db
      (λ r h. ground (arith, transition_node_state-eq-ok node_id wanted db h))
execute-Extends (Command.register_node node_id address capacity status) db =
    transaction-same (Nodes.register_node node_id address capacity status) db
      (λ r h. ground (arith, register_node-eq-ok node_id address capacity status db h))
execute-Extends (Command.process_node_heartbeat node_id capacity used timestamp) db =
    transaction-same (Nodes.process_node_heartbeat node_id capacity used timestamp) db
      (λ r h. ground (arith, process_node_heartbeat-eq-ok node_id capacity used timestamp db h))
execute-Extends (Command.create_replica version_id node_id) db =
    transaction-same (Replicas.create_replica version_id node_id) db
      (λ r h. ground (arith, create_replica-eq-ok version_id node_id db h))
execute-Extends (Command.create_replicas version_id node_ids) db =
    transaction-same (Replicas.create_replicas version_id node_ids) db
      (λ r h. ground (arith, create_replicas-eq-ok version_id node_ids db h))
execute-Extends (Command.set_replica_states ids wanted) db =
    transaction-same (Replicas.set_replica_states ids wanted) db
      (λ r h. ground (arith, set_replica_states-eq-ok ids wanted db h))
execute-Extends (Command.set_replica_state replica_id wanted) db =
    transaction-same (Replicas.set_replica_state replica_id wanted) db
      (λ r h. ground (arith, set_replica_state-eq-ok replica_id wanted db h))
execute-Extends (Command.record_replica_verification replica_id checksum size) db =
    transaction-same (Replicas.record_replica_verification replica_id checksum size) db
      (λ r h. ground (arith, record_replica_verification-eq-ok replica_id checksum size db h))
execute-Extends (Command.mark_replica_healthy replica_id checksum size) db =
    transaction-same (Replicas.mark_replica_healthy replica_id checksum size) db
      (λ r h. ground (arith, mark_replica_healthy-eq-ok replica_id checksum size db h))
execute-Extends (Command.remove_replica replica_id) db =
    transaction-same (Replicas.remove_replica replica_id) db
      (λ r h. ground (arith, remove_replica-eq-ok replica_id db h))

-- A version that a run has found COMMITTED is found again after any later requests, unchanged in
-- every column.
pub run_keeps_committed :
    (cs : List Command) (db : Database) (version_id : ℕ) {v : Version}
    → version_at version_id db ≡ some v
    → v.state ≡ VersionState.committed
    → version_at version_id (run cs db) ≡ some v
unfolding run
run_keeps_committed [] db version_id found done = found
run_keeps_committed (c ∷ cs) db version_id {v} found done =
    let (w, found', _, same) = (execute-Extends c db).at version_id v found in
    run_keeps_committed cs (execute c db) version_id (rw (← same done) found') done
