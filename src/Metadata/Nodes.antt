-- ===== src/Metadata/Nodes.antt =====
-- metadata/manager.py: storage nodes, their registration, heartbeats and lifecycle.
pub mod Outcomes
use ps.Prelude.{
  ℕ, ℤ, zero, suc, ◌+◌, ◌/◌, ◌%◌, Bool, true, false, not, ◌&&◌, Option, none, some, [], ◌∷◌, ◌++◌,
  ◌==◌, if◌then◌else◌, is_some, ltb, leb, nat_eq, text_eq,
}
use ps.Table.{find, save}
use ps.Common.Ids.{hex}
use ps.Common.Text.{Text, strip, rstrip_by}
use ps.Common.Constants.{NodeState, node_transition, node_state_eq}
use ps.Common.Errors.{
  VaultError, Result, ok, err, vault, value_error, raise_if, or_raise, ◌>>◌, ◌>>=◌,
}
use ps.Common.Validation.{is_empty}
use ps.Metadata.Models.{StorageNode, Database, node_key, node_address, node_at}
use ps.Metadata.Checks.{transaction, non_negative, is_blank, flush_new}

unfoldable pub transition_node_state : Text → NodeState → Database → Result (StorageNode × Database)
transition_node_state node_id state db = do
  raise_if (is_blank node_id) value_error
  node ← or_raise (node_at (strip node_id) db) (vault VaultError.not_found)
  if state == node.status then ok (node, db) else do
    raise_if (not (node_transition node.status state)) (vault VaultError.invalid_state)
    let moved = record node { status = state }
    ok (moved, record db { nodes = save node_key moved db.nodes })

abbrev pub optional_non_negative : Option ℤ → Result (Option ℕ)
optional_non_negative none = ok none
optional_non_negative (some z) = do n ← non_negative z; ok (some n)

-- `node_id is not None and existing.node_id != node_id.strip()`
abbrev pub names_another : Option Text → StorageNode → Bool
names_another none existing = false
names_another (some node_id) existing = not (existing.node_id == strip node_id)

-- `node_id.strip() if node_id is not None else new_uuid().hex`
abbrev pub chosen_node_id : Option Text → Database → Text
chosen_node_id none db = hex 32 (db.uuids db.drawn)
chosen_node_id (some node_id) db = strip node_id

-- `address.strip().rstrip("/")`
unfoldable pub normalize_address : Text → Text
unfolding strip rstrip_by
normalize_address address = rstrip_by (λ c. c == b'/') (strip address)

unfoldable pub add_node :
    Option Text → Text → ℕ → NodeState → Database → Result (StorageNode × Database)
add_node node_id address capacity status db = do
  let normalized_node_id = chosen_node_id node_id db
  raise_if (is_empty normalized_node_id) value_error
  raise_if (is_some (node_at normalized_node_id db)) (vault VaultError.already_exists)
  let node : StorageNode = record {
    node_id = normalized_node_id;
    address = address;
    status = status;
    capacity_bytes = capacity;
    used_bytes = 0;
    last_heartbeat_at = none;
  }
  nodes ← flush_new node_key node db.nodes
  ok (node, record db { nodes = nodes; drawn = db.drawn + (if is_some node_id then 0 else 1) })

unfoldable pub register_node :
    Option Text → Text → ℤ → NodeState → Database → Result (StorageNode × Database)
unfolding add_node
register_node node_id address capacity_bytes status db = do
  raise_if (is_blank address) value_error
  capacity ← non_negative capacity_bytes
  let normalized_address = normalize_address address
  elim (find node_address normalized_address db.nodes) [
    | none ↦ add_node node_id normalized_address capacity status db
    | some existing ↦ do
      raise_if (names_another node_id existing) (vault VaultError.already_exists)
      ok (existing, db)
  ]

-- `x if value is None else value`
abbrev pub given_or : Option ℕ → ℕ → ℕ
given_or none old = old
given_or (some new) old = new

-- `current is not None and timestamp <= current`
abbrev pub is_stale : ℕ → Option ℕ → Bool
is_stale timestamp none = false
is_stale timestamp (some current) = leb timestamp current

unfoldable pub process_node_heartbeat :
    Text → Option ℤ → Option ℤ → ℕ → Database → Result ((StorageNode × Bool) × Database)
process_node_heartbeat node_id capacity_bytes used_bytes timestamp db = do
  raise_if (is_blank node_id) value_error
  capacity ← optional_non_negative capacity_bytes
  used ← optional_non_negative used_bytes
  node ← or_raise (node_at (strip node_id) db) (vault VaultError.not_found)
  raise_if (node.status == NodeState.removed) (vault VaultError.invalid_state)
  if is_stale timestamp node.last_heartbeat_at then ok ((node, false), db) else do
    let next_capacity = given_or capacity node.capacity_bytes
    let next_used = given_or used node.used_bytes
    raise_if (ltb next_capacity next_used) value_error
    let beaten = record node {
      capacity_bytes = next_capacity;
      used_bytes = next_used;
      last_heartbeat_at = some timestamp;
    }
    ok ((beaten, true), record db { nodes = save node_key beaten db.nodes })

-- What follows an accepted heartbeat, in a transaction of its own.
unfoldable pub after_heartbeat :
    Option NodeState → Result (StorageNode × Bool) → Database → Result StorageNode × Database
after_heartbeat status (err e) db = (err e, db)
after_heartbeat none (ok (node, accepted)) db = (ok node, db)
after_heartbeat (some state) (ok (node, accepted)) db =
    if accepted && not (node.status == state)
    then transaction (transition_node_state node.node_id state) db
    else (ok node, db)

unfoldable pub update_node_heartbeat :
    Text
    → Option ℤ
    → Option ℤ
    → Option NodeState
    → Option ℕ
    → Database
    → Result StorageNode × Database
unfolding after_heartbeat
update_node_heartbeat node_id capacity_bytes used_bytes status heartbeat_at db =
    let timestamp = given_or heartbeat_at (db.times db.times_read) in
    let read = record db { times_read = db.times_read + (if is_some heartbeat_at then 0 else 1) } in
    let (r, beaten) =
      transaction (process_node_heartbeat node_id capacity_bytes used_bytes timestamp) read in
    after_heartbeat status r beaten
