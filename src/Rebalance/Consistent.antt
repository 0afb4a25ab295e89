-- ===== src/Rebalance/Consistent.antt =====
-- Draining a node, with all its migrations, keeps the database consistent.
use ps.Prelude.{ℕ, ◌≡◌, refl, none, some, Option, List, [], ◌∷◌, ◌++◌, arith, ◌+◌, nat_eq, text_eq}
use ps.Table.{add}
use ps.Common.Text.{Text}
use ps.Common.Constants.{ReplicaState, NodeState}
use ps.Common.Errors.{ok}
use ps.Metadata.Models.{StorageNode, Replica, RebalanceJob, Database, replica_at}
use ps.Metadata.Nodes.{transition_node_state}
use ps.Metadata.Replicas.{create_replica, set_replica_state, mark_replica_healthy, remove_replica}
use ps.Metadata.Session.{calling, pure, reading}
use ps.Metadata.Triples.{Stays, Stays-calling, Stays->>=, stays}
use ps.Metadata.Consistency.{IsConsistent}
use ps.Metadata.Consistency.Preserved.Nodes.{transition_node_state-IsConsistent}
use ps.Metadata.Consistency.Preserved.Replicas.{
  create_replica-IsConsistent, set_replica_state-IsConsistent, mark_replica_healthy-IsConsistent,
  remove_replica-IsConsistent,
}
use ps.Maintenance.Clients.{ClientFactory}
use ps.Repair.Safety.{IsConsistent-jobs}
use ps.Rebalance.Queries.{RebalanceManager, add_migration}
use ps.Rebalance.Drain.{start_draining, drain_one, drain_all, remove_if_empty, drain_node}
use ps.Rebalance.Migration.{RebalanceResult}
use ps.Rebalance.Kept.{MigrationKeeps, migrate_replica-Stays}

add_migration-eq-ok :
    (v : ℕ) (s t : Text) (db : Database) {r : RebalanceJob × Database}
    → add_migration v s t db ≡ ok r
    → r.1 ≡ record db { rebalance_jobs = add r.0 db.rebalance_jobs; drawn = db.drawn + 1 }
unfolding add_migration
add_migration-eq-ok v s t db h = ground arith

pub consistent_migrations : MigrationKeeps IsConsistent
consistent_migrations = record {
  copies = record {
    create = λ v n. Stays-calling (create_replica v n) (create_replica-IsConsistent v n);
    set = λ i s closed. Stays-calling (set_replica_state i s) (set_replica_state-IsConsistent i s);
    mark = λ i checksum size.
        Stays-calling (mark_replica_healthy i checksum size)
          (mark_replica_healthy-IsConsistent i checksum size);
  };
  corrupt = λ i.
      Stays-calling (set_replica_state i ReplicaState.corrupted)
        (set_replica_state-IsConsistent i ReplicaState.corrupted);
  removed = λ i. Stays-calling (remove_replica i) (remove_replica-IsConsistent i);
  jobs = λ job. record { at = λ db c. IsConsistent-jobs db _ refl refl refl refl c };
  add = λ v s t. Stays-calling (add_migration v s t) (λ db r h c.
      rw (add_migration-eq-ok v s t db h) (IsConsistent-jobs db _ refl refl refl refl c));
}

module _ (m : RebalanceManager) (clients : ClientFactory) (node_id : Text) where
  transition : (n : Text) (s : NodeState) → Stays IsConsistent (calling (transition_node_state n s))
  transition n s =
      Stays-calling (transition_node_state n s) (transition_node_state-IsConsistent n s)

  start_draining-Stays : (node : StorageNode) → Stays IsConsistent (start_draining node)
  unfolding start_draining
  start_draining-Stays node = search (stays, transition)

  drain_one-Stays :
      (now : ℕ) (o : Option Replica) → Stays IsConsistent (drain_one m clients node_id now o)
  unfolding drain_one
  drain_one-Stays now none = search (stays)
  drain_one-Stays now (some r) =
      search (stays, migrate_replica-Stays consistent_migrations) depth 12

  drain_all-Stays :
      (now : ℕ) (ids : List ℕ) → Stays IsConsistent (drain_all m clients node_id now ids)
  unfolding drain_all
  drain_all-Stays now [] = search (stays)
  drain_all-Stays now (i ∷ ids) =
      Stays->>= (reading (λ db. ok (replica_at i db))) _ (search (stays)) (λ o.
        Stays->>= (drain_one m clients node_id now o) _ (drain_one-Stays now o) (λ result.
          Stays->>= (drain_all m clients node_id (now + 2) ids)
            (λ results. pure (result ++ results)) (drain_all-Stays (now + 2) ids)
            (λ results. search (stays))))

  remove_if_empty-Stays :
      (results : List RebalanceResult)
      → Stays IsConsistent (remove_if_empty m clients node_id results)
  unfolding remove_if_empty
  remove_if_empty-Stays results = search (stays, transition)

  pub drain_node-Stays : (now : ℕ) → Stays IsConsistent (drain_node m clients node_id now)
  unfolding drain_node
  drain_node-Stays now =
      search (stays, start_draining-Stays, drain_all-Stays, remove_if_empty-Stays) depth 12

-- Draining a node, with the migrations of its replicas, keeps the database consistent, whatever the
-- storage nodes answer and whatever is raised on the way.
pub drain_node-IsConsistent :
    (m : RebalanceManager) (clients : ClientFactory) (node_id : Text) (now : ℕ) (db : Database)
    → IsConsistent db
    → IsConsistent (drain_node m clients node_id now db).1
drain_node-IsConsistent m clients node_id now db c =
    (drain_node-Stays m clients node_id now).at db c
