-- ===== src/Health/Heartbeats.antt =====
-- health/heartbeat.py: `HeartbeatService.ingest`.
use ps.Prelude.{ℕ, pos, Bool, Option, some, if◌then◌else◌}
use ps.Common.Text.{Text}
use ps.Common.Constants.{NodeState}
use ps.Common.Errors.{VaultError, vault}
use ps.Metadata.Models.{StorageNode, free_bytes}
use ps.Health.Payload.{HeartbeatPayload}
use ps.Metadata.Nodes.{process_node_heartbeat, transition_node_state}
use ps.Metadata.Session.{Session, ◌>>=◌, pure, raise, calling}

pub record HeartbeatResult : Type 0 where
  pub node_id : Text
  pub accepted : Bool
  pub status : NodeState
  pub capacity_bytes : ℕ
  pub used_bytes : ℕ
  pub free_bytes : ℕ
  pub last_heartbeat_at : Option ℕ

abbrev pub heartbeat_result : StorageNode → Bool → HeartbeatResult
heartbeat_result node accepted = record {
  node_id = node.node_id;
  accepted = accepted;
  status = node.status;
  capacity_bytes = node.capacity_bytes;
  used_bytes = node.used_bytes;
  free_bytes = free_bytes node;
  last_heartbeat_at = node.last_heartbeat_at;
}

-- The next state of a node whose heartbeat was accepted.
unfoldable pub drive : NodeState → StorageNode → Session StorageNode
drive NodeState.joining node = calling (transition_node_state node.node_id NodeState.healthy)
drive NodeState.suspect node = calling (transition_node_state node.node_id NodeState.healthy)
drive NodeState.unavailable node = calling (transition_node_state node.node_id NodeState.recovering)
drive NodeState.removed node = raise (vault VaultError.invalid_state)
drive _ node = pure node

unfoldable pub follow_up : StorageNode → Bool → Session StorageNode
unfolding drive
follow_up node accepted = if accepted then drive node.status node else pure node

unfoldable pub ingest : HeartbeatPayload → Session HeartbeatResult
unfolding follow_up
ingest payload = do
  processed ← calling (
      process_node_heartbeat payload.node_id (some (pos payload.capacity_bytes))
        (some (pos payload.used_bytes)) payload.timestamp)
  node ← follow_up processed.0 processed.1
  pure (heartbeat_result node processed.1)
