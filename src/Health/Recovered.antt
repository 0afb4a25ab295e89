-- ===== src/Health/Recovered.antt =====
-- health/heartbeat.py: `ingest_and_recover`, a heartbeat after which a node that comes back is
-- reconciled before it is HEALTHY.
use ps.Prelude.{ℕ, pos, true, ◌&&◌, some, ◌==◌, if◌then◌else◌}
use ps.Common.Text.{Text}
use ps.Common.Constants.{NodeState, node_state_eq}
use ps.Common.Errors.{VaultError, vault, or_raise}
use ps.Metadata.Models.{StorageNode, Database, node_at}
use ps.Metadata.Nodes.{process_node_heartbeat, transition_node_state}
use ps.Metadata.Session.{Session, pure, reading, calling, ◌>>=◌, ◌>>◌}
use ps.Metadata.Triples.{Stays, Stays-calling, stays}
use ps.Metadata.Consistency.{IsConsistent}
use ps.Metadata.Consistency.Preserved.Nodes.{
  transition_node_state-IsConsistent, process_node_heartbeat-IsConsistent,
}
use ps.Maintenance.Clients.{ClientFactory}
use ps.Health.Payload.{HeartbeatPayload}
use ps.Health.Heartbeats.{HeartbeatResult, heartbeat_result, drive, follow_up, ingest}
use ps.Recovery.Reconcile.{PartitionRecoveryManager, reconcile_and_mark_healthy}
use ps.Recovery.Consistent.{reconcile_and_mark_healthy-Stays, consistent_recovery}

-- `recovery` is what `recovery_manager_factory` makes.
module _ (recovery : PartitionRecoveryManager) (clients : ClientFactory) (now : ℕ) where
  unfoldable pub recover : Text → Session HeartbeatResult
  recover node_id = do
    reconcile_and_mark_healthy recovery clients now node_id
    node ← reading (λ db. or_raise (node_at node_id db) (vault VaultError.invalid_state))
    pure (heartbeat_result node true)

  unfoldable pub ingest_and_recover : HeartbeatPayload → Session HeartbeatResult
  unfolding recover
  ingest_and_recover payload = do
    result ← ingest payload
    if result.accepted && (result.status == NodeState.recovering)
        then recover result.node_id
        else pure result

transition : (n : Text) (s : NodeState) → Stays IsConsistent (calling (transition_node_state n s))
transition n s = Stays-calling (transition_node_state n s) (transition_node_state-IsConsistent n s)

drive-Stays : (s : NodeState) (node : StorageNode) → Stays IsConsistent (drive s node)
unfolding drive
drive-Stays NodeState.joining node = transition node.node_id NodeState.healthy
drive-Stays NodeState.suspect node = transition node.node_id NodeState.healthy
drive-Stays NodeState.unavailable node = transition node.node_id NodeState.recovering
drive-Stays NodeState.removed node = search (stays)
drive-Stays NodeState.healthy node = search (stays)
drive-Stays NodeState.recovering node = search (stays)
drive-Stays NodeState.draining node = search (stays)

beating :
    (payload : HeartbeatPayload)
    → Stays IsConsistent (
        calling (
          process_node_heartbeat payload.node_id
            (some (pos payload.capacity_bytes))
            (some (pos payload.used_bytes))
            payload.timestamp))
beating payload = Stays-calling _ (process_node_heartbeat-IsConsistent _ _ _ _)

pub ingest-Stays : (payload : HeartbeatPayload) → Stays IsConsistent (ingest payload)
unfolding ingest follow_up
ingest-Stays payload = search (stays, beating, drive-Stays)

module _ (recovery : PartitionRecoveryManager) (clients : ClientFactory) (now : ℕ) where
  reconciling : (n : Text) → Stays IsConsistent (reconcile_and_mark_healthy recovery clients now n)
  reconciling n =
      reconcile_and_mark_healthy-Stays consistent_recovery recovery clients now n (transition n)

  recover-Stays : (n : Text) → Stays IsConsistent (recover recovery clients now n)
  unfolding recover
  recover-Stays n = search (stays, reconciling)

  pub ingest_and_recover-Stays :
      (payload : HeartbeatPayload)
      → Stays IsConsistent (ingest_and_recover recovery clients now payload)
  unfolding ingest_and_recover
  ingest_and_recover-Stays payload = search (stays, ingest-Stays, recover-Stays)

-- A heartbeat, with the reconciliation that follows it when its node comes back, keeps the database
-- consistent, whatever the storage nodes answer and whatever is raised on the way.
pub ingest_and_recover-IsConsistent :
    (recovery : PartitionRecoveryManager) (clients : ClientFactory) (now : ℕ)
    (payload : HeartbeatPayload) (db : Database)
    → IsConsistent db
    → IsConsistent (ingest_and_recover recovery clients now payload db).1
ingest_and_recover-IsConsistent recovery clients now payload db c =
    (ingest_and_recover-Stays recovery clients now payload).at db c
