-- ===== src/Metadata/Membership/Runs.antt =====
-- Every request lets the nodes follow the rules, and so does every run.
use ps.Prelude.{
  ℕ, ℤ, ◌≡◌, refl, sym, subst, ap, Bool, false, Option, none, some, List, [], ◌∷◌, inl, inr, arith,
  text_eq,
}
use ps.Table.{find, find_self}
use ps.Common.Text.{Text, strip}
use ps.Common.Constants.{NodeState}
use ps.Common.Errors.{Result, ok}
use ps.Metadata.Models.{StorageNode, Database, node_key, node_at}
use ps.Metadata.Checks.{transaction, transaction_rule}
use ps.Metadata.Objects
use ps.Metadata.Objects.Outcomes.{
  create_object-eq-ok, create_version-eq-ok, commit_version-eq-ok, transition_object_state-eq-ok,
  fail_version-eq-ok,
}
use ps.Metadata.Nodes
use ps.Metadata.Nodes.{is_stale}
use ps.Metadata.Nodes.Outcomes.{
  transition_node_state-eq-ok, register_node-eq-ok, process_node_heartbeat-eq-ok,
}
use ps.Metadata.Replicas
use ps.Metadata.Replicas.Outcomes.{
  create_replica-eq-ok, create_replicas-eq-ok, set_replica_state-eq-ok, set_replica_states-eq-ok,
  record_replica_verification-eq-ok, mark_replica_healthy-eq-ok, remove_replica-eq-ok,
}
use ps.Metadata.Commands.{Command, execute, run}
use ps.Metadata.Membership.{
  StatusPath, Follows, NotBefore, NodesFollow, NodesFollow-refl, NodesFollow-trans, NodesFollow-add,
  NodesFollow-save, removed_is_final, NotBefore-refl,
}

module _ {A : Type 0} (operation : Database → Result (A × Database)) (db : Database) where
  transaction-NodesFollow :
      ((r : A × Database) → operation db ≡ ok r → NodesFollow db.nodes r.1.nodes)
      → NodesFollow db.nodes (transaction operation db).1.nodes
  transaction-NodesFollow =
      transaction_rule (λ d. NodesFollow db.nodes d.nodes) operation db (NodesFollow-refl db.nodes)

  transaction-same :
      ((r : A × Database) → operation db ≡ ok r → r.1.nodes ≡ db.nodes)
      → NodesFollow db.nodes (transaction operation db).1.nodes
  transaction-same f =
      transaction-NodesFollow
        (λ r h. subst (NodesFollow db.nodes) (sym (f r h)) (NodesFollow-refl db.nodes))

transition_node_state-NodesFollow :
    (node_id : Text) (wanted : NodeState) (db : Database) (r : StorageNode × Database)
    → Nodes.transition_node_state node_id wanted db ≡ ok r
    → NodesFollow db.nodes r.1.nodes
transition_node_state-NodesFollow node_id wanted db r h =
    let (n, found, outcome) = transition_node_state-eq-ok node_id wanted db h in
    let w : StorageNode = record n { status = wanted } in
    elim outcome [
      | inl e ↦ rw e (NodesFollow-refl db.nodes)
      | inr (allowed, e) ↦ rw e (
          NodesFollow-save w db.nodes {n = n} (find_self node_key (strip node_id) db.nodes found)
            (record {
              address = refl;
              status = StatusPath.next StatusPath.here allowed;
              heartbeat = NotBefore-refl n.last_heartbeat_at;
            }))
    ]

NotBefore-of_fresh : (t : ℕ) (last : Option ℕ) → is_stale t last ≡ false → NotBefore last (some t)
NotBefore-of_fresh t none h = tt
NotBefore-of_fresh t (some s) h = ground arith

process_node_heartbeat-NodesFollow :
    (node_id : Text) (capacity used : Option ℤ) (timestamp : ℕ) (db : Database)
    (r : (StorageNode × Bool) × Database)
    → Nodes.process_node_heartbeat node_id capacity used timestamp db ≡ ok r
    → NodesFollow db.nodes r.1.nodes
process_node_heartbeat-NodesFollow node_id capacity used timestamp db r h =
    let (n, found, _, outcome) =
      process_node_heartbeat-eq-ok node_id capacity used timestamp db h in
    let here = find_self node_key (strip node_id) db.nodes found in
    elim outcome [
      | inl (_, e) ↦ rw e (NodesFollow-refl db.nodes)
      | inr (e, _, fresh, row, _) ↦ rw e (
          NodesFollow-save r.0.0 db.nodes {n = n}
            (subst (λ k. find node_key k db.nodes ≡ some n) (sym (ap node_key row)) here)
            (subst (Follows n) (sym row) (record {
              address = refl;
              status = StatusPath.here;
              heartbeat = NotBefore-of_fresh timestamp n.last_heartbeat_at fresh;
            })))
    ]

register_node-NodesFollow :
    (node_id : Option Text) (address : Text) (capacity : ℤ) (status : NodeState) (db : Database)
    (r : StorageNode × Database)
    → Nodes.register_node node_id address capacity status db ≡ ok r
    → NodesFollow db.nodes r.1.nodes
register_node-NodesFollow node_id address capacity status db r h =
    elim (register_node-eq-ok node_id address capacity status db h) [
      | inl (_, e) ↦ rw e (NodesFollow-refl db.nodes)
      | inr (_, _, _, _, _, e) ↦ rw e (NodesFollow-add r.0 db.nodes)
    ]

pub execute-NodesFollow :
    (request : Command) (db : Database) → NodesFollow db.nodes (execute request db).nodes
unfolding execute
execute-NodesFollow (Command.create_object name) db =
    transaction-same (Objects.create_object name) db
      (λ r h. ground (arith, create_object-eq-ok name db h))
execute-NodesFollow (Command.create_version object_id size checksum expected) db =
    transaction-same (Objects.create_version object_id size checksum expected) db
      (λ r h. ground (arith, create_version-eq-ok object_id size checksum expected db h))
execute-NodesFollow (Command.commit_version version_id expected) db =
    transaction-same (Objects.commit_version version_id expected) db
      (λ r h. ground (arith, commit_version-eq-ok version_id expected db h))
execute-NodesFollow (Command.transition_object_state object_id wanted) db =
    transaction-same (Objects.transition_object_state object_id wanted) db
      (λ r h. ground (arith, transition_object_state-eq-ok object_id wanted db h))
execute-NodesFollow (Command.fail_version version_id) db =
    transaction-same (Objects.fail_version version_id) db
      (λ r h. ground (arith, fail_version-eq-ok version_id db h))
execute-NodesFollow (Command.transition_node_state node_id wanted) db =
    transaction-NodesFollow (Nodes.transition_node_state node_id wanted) db
      (transition_node_state-NodesFollow node_id wanted db)
execute-NodesFollow (Command.register_node node_id address capacity status) db =
    transaction-NodesFollow (Nodes.register_node node_id address capacity status) db
      (register_node-NodesFollow node_id address capacity status db)
execute-NodesFollow (Command.process_node_heartbeat node_id capacity used timestamp) db =
    transaction-NodesFollow (Nodes.process_node_heartbeat node_id capacity used timestamp) db
      (process_node_heartbeat-NodesFollow node_id capacity used timestamp db)
execute-NodesFollow (Command.create_replica version_id node_id) db =
    transaction-same (Replicas.create_replica version_id node_id) db
      (λ r h. ground (arith, create_replica-eq-ok version_id node_id db h))
execute-NodesFollow (Command.create_replicas version_id node_ids) db =
    transaction-same (Replicas.create_replicas version_id node_ids) db
      (λ r h. ground (arith, create_replicas-eq-ok version_id node_ids db h))
execute-NodesFollow (Command.set_replica_states ids wanted) db =
    transaction-same (Replicas.set_replica_states ids wanted) db
      (λ r h. ground (arith, set_replica_states-eq-ok ids wanted db h))
execute-NodesFollow (Command.set_replica_state replica_id wanted) db =
    transaction-same (Replicas.set_replica_state replica_id wanted) db
      (λ r h. ground (arith, set_replica_state-eq-ok replica_id wanted db h))
execute-NodesFollow (Command.record_replica_verification replica_id checksum size) db =
    transaction-same (Replicas.record_replica_verification replica_id checksum size) db
      (λ r h. ground (arith, record_replica_verification-eq-ok replica_id checksum size db h))
execute-NodesFollow (Command.mark_replica_healthy replica_id checksum size) db =
    transaction-same (Replicas.mark_replica_healthy replica_id checksum size) db
      (λ r h. ground (arith, mark_replica_healthy-eq-ok replica_id checksum size db h))
execute-NodesFollow (Command.remove_replica replica_id) db =
    transaction-same (Replicas.remove_replica replica_id) db
      (λ r h. ground (arith, remove_replica-eq-ok replica_id db h))

-- Over any run of requests a storage node keeps its address, its status moves only along the
-- canonical transitions, and its last heartbeat is not forgotten and does not go back.
pub run-NodesFollow :
    (requests : List Command) (db : Database) → NodesFollow db.nodes (run requests db).nodes
unfolding run
run-NodesFollow [] db = NodesFollow-refl db.nodes
run-NodesFollow (request ∷ requests) db =
    NodesFollow-trans db.nodes (execute request db).nodes (run requests (execute request db)).nodes
      (execute-NodesFollow request db) (run-NodesFollow requests (execute request db))

-- A node that is REMOVED is found REMOVED after any later requests: nothing revives it.
pub run_keeps_removed :
    (requests : List Command) (db : Database) (node_id : Text) {n : StorageNode}
    → node_at node_id db ≡ some n
    → n.status ≡ NodeState.removed
    → (m : StorageNode) × (node_at node_id (run requests db) ≡ some m)
      × (m.status ≡ NodeState.removed)
run_keeps_removed requests db node_id {n} found gone =
    let (m, there, follows) = (run-NodesFollow requests db).at node_id n found in
    (m, there, removed_is_final gone follows.status)
