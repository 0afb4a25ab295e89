-- ===== src/Metadata/Nodes/Outcomes.antt =====
-- What an operation on storage nodes has found and written when it returns.
use ps.Prelude.{
  ℕ, ℤ, ◌+◌, ◌≤◌, ◌≡◌, ◌≢◌, ◌⊎◌, Bool, true, false, Option, none, some, arith, if◌then◌else◌,
  is_some, text_eq,
}
use ps.Table.{find, add, save}
use ps.Common.Text.{Text, strip}
use ps.Common.Constants.{NodeState, node_transition}
use ps.Common.Errors.{ok}
use ps.Metadata.Models.{StorageNode, Database, node_key, node_address, node_at}
use ps.Metadata.Nodes.{
  transition_node_state, register_node, process_node_heartbeat, normalize_address, is_stale,
}

pub transition_node_state-eq-ok :
    (node_id : Text) (state : NodeState) (db : Database) {r : StorageNode × Database}
    → transition_node_state node_id state db ≡ ok r
    → (node : StorageNode) × (node_at (strip node_id) db ≡ some node)
      × ((r ≡ (node, db))
          ⊎ ((node_transition node.status state ≡ true)
              × (r ≡ (
                record node { status = state },
                record db { nodes = save node_key (record node { status = state }) db.nodes },
              ))))
unfolding transition_node_state
transition_node_state-eq-ok node_id state db h = ground arith

-- The row with the values of a heartbeat.
abbrev pub beaten : StorageNode → ℕ → ℕ → ℕ → StorageNode
beaten node capacity used timestamp = record node {
  capacity_bytes = capacity;
  used_bytes = used;
  last_heartbeat_at = some timestamp;
}

pub process_node_heartbeat-eq-ok :
    (node_id : Text) (capacity used : Option ℤ) (timestamp : ℕ) (db : Database)
    {r : (StorageNode × Bool) × Database}
    → process_node_heartbeat node_id capacity used timestamp db ≡ ok r
    → (node : StorageNode) × (node_at (strip node_id) db ≡ some node)
      × (node.status ≢ NodeState.removed)
      × (((is_stale timestamp node.last_heartbeat_at ≡ true) × (r ≡ ((node, false), db)))
          ⊎ ((r.1 ≡ record db { nodes = save node_key r.0.0 db.nodes })
              × (r.0.1 ≡ true)
              × (is_stale timestamp node.last_heartbeat_at ≡ false)
              × (r.0.0 ≡ beaten node r.0.0.capacity_bytes r.0.0.used_bytes timestamp)
              × (r.0.0.used_bytes ≤ r.0.0.capacity_bytes)))
unfolding process_node_heartbeat
process_node_heartbeat-eq-ok node_id capacity used timestamp db h = ground arith

pub register_node-eq-ok :
    (node_id : Option Text) (address : Text) (capacity : ℤ) (status : NodeState) (db : Database)
    {r : StorageNode × Database}
    → register_node node_id address capacity status db ≡ ok r
    → ((find node_address (normalize_address address) db.nodes ≡ some r.0) × (r.1 ≡ db))
      ⊎ ((find node_key r.0.node_id db.nodes ≡ none)
          × (find node_address r.0.address db.nodes ≡ none)
          × (r.0.status ≡ status)
          × (r.0.used_bytes ≡ 0)
          × (r.0.last_heartbeat_at ≡ none)
          × (r.1 ≡ record db {
            nodes = add r.0 db.nodes;
            drawn = db.drawn + (if is_some node_id then 0 else 1);
          }))
unfolding register_node
register_node-eq-ok node_id address capacity status db h = ground arith
