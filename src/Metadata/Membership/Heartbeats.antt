-- ===== src/Metadata/Membership/Heartbeats.antt =====
-- Which heartbeats are accepted.
use ps.Prelude.{ℕ, pos, ◌≤◌, ◌≡◌, ◌≢◌, false, some, arith, text_eq}
use ps.Common.Text.{Text, strip}
use ps.Common.Constants.{NodeState, node_state_eq}
use ps.Common.Errors.{ok}
use ps.Metadata.Models.{StorageNode, Database, node_at}
use ps.Metadata.Checks.{is_blank}
use ps.Metadata.Nodes.{process_node_heartbeat}

module _ (node_id : Text) (capacity used timestamp : ℕ) (db : Database) (n : StorageNode)
    (named : is_blank node_id ≡ false) (found : node_at (strip node_id) db ≡ some n)
    (present : n.status ≢ NodeState.removed) where
  -- A heartbeat that is not newer than the last one of its node is answered as not accepted, and
  -- changes nothing.
  pub stale_heartbeat_ignored :
      (last : ℕ)
      → n.last_heartbeat_at ≡ some last
      → timestamp ≤ last
      → process_node_heartbeat node_id (some (pos capacity)) (some (pos used)) timestamp db
        ≡ ok ((n, false), db)
  unfolding process_node_heartbeat
  stale_heartbeat_ignored last seen old = ground arith
