-- ===== src/Rebalance/Drain.antt =====
-- rebalance/manager.py: `drain_node`.
use ps.Prelude.{
  ℕ, ◌+◌, ◌++◌, not, Option, none, some, List, [], ◌∷◌, ◌==◌, if◌then◌else◌, select, length, nat_eq,
  text_eq,
}
use ps.Common.Text.{Text}
use ps.Common.Constants.{NodeState, ReplicaState, node_state_eq, replica_state_eq}
use ps.Common.Errors.{VaultError, ok, vault}
use ps.Metadata.Models.{StorageNode, Replica, replica_at}
use ps.Metadata.Nodes.{transition_node_state}
use ps.Metadata.Session.{Session, pure, raise_when, reading, calling, ◌>>=◌, ◌>>◌}
use ps.Maintenance.Clients.{ClientFactory}
use ps.Maintenance.Rows.{find_node}
use ps.Rebalance.Queries.{
  RebalanceManager, committed_version, eligible_target, is_on, replicas_to_drain,
}
use ps.Rebalance.Migration.{RebalanceResult, migrate_replica}

-- A HEALTHY node is set DRAINING; the row is read again.
unfoldable pub start_draining : StorageNode → Session StorageNode
start_draining node =
    if node.status == NodeState.healthy
    then (calling (transition_node_state node.node_id NodeState.draining)
        >> reading (find_node node.node_id))
    else pure node

module _ (manager : RebalanceManager) (clients : ClientFactory) (node_id : Text) where
  -- What one replica's migration adds to the results; one that is gone is passed over.
  unfoldable pub drain_one : ℕ → Option Replica → Session (List RebalanceResult)
  drain_one now none = pure []
  drain_one now (some replica) = do
    raise_when (not (replica.status == ReplicaState.healthy)) (vault VaultError.invalid_state)
    version ← reading (committed_version replica.version_id)
    target ← reading (eligible_target version (node_id ∷ []))
    result ← migrate_replica manager clients now version.version_id node_id target.node_id
    pure (result ∷ [])

  -- The loop; a migration uses the answers of two times.
  unfoldable pub drain_all : ℕ → List ℕ → Session (List RebalanceResult)
  unfolding drain_one
  drain_all now [] = pure []
  drain_all now (replica_id ∷ ids) = do
    replica ← reading (λ db. ok (replica_at replica_id db))
    result ← drain_one now replica
    results ← drain_all (now + 2) ids
    pure (result ++ results)

  -- The node is REMOVED when none of its replicas remains.
  unfoldable pub remove_if_empty : List RebalanceResult → Session (List RebalanceResult)
  remove_if_empty results = do
    remaining ← reading (λ db. ok (length (select (is_on node_id) db.replicas)))
    if remaining == 0
        then calling (transition_node_state node_id NodeState.removed) >> pure results
        else pure results

  unfoldable pub drain_node : ℕ → Session (List RebalanceResult)
  unfolding start_draining drain_all remove_if_empty
  drain_node now = do
    found ← reading (find_node node_id)
    node ← start_draining found
    raise_when (not (node.status == NodeState.draining)) (vault VaultError.invalid_state)
    ids ← reading (λ db. ok (replicas_to_drain node_id db))
    results ← drain_all now ids
    remove_if_empty results
