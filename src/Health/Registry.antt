-- ===== src/Health/Registry.antt =====
-- health/node_registry.py: `NodeRegistry`.
use ps.Prelude.{
  ℕ, ℤ, ◌+◌, Bool, true, not, ◌&&◌, Option, none, some, List, sort_by, map, select, leb, ◌==◌,
  text_eq,
}
use ps.Common.Text.{Text, strip, text_ltb}
use ps.Common.Constants.{NodeState, node_state_eq}
use ps.Common.Errors.{VaultError, Result, ok, vault, value_error, raise_if, or_raise, ◌>>◌, ◌>>=◌}
use ps.Metadata.Models.{StorageNode, Database, node_at}
use ps.Metadata.Checks.{non_negative, is_blank, mem}
use ps.Metadata.Nodes.{register_node, transition_node_state}
use ps.Placement.{order_nodes}

unfoldable pub register : Option Text → Text → ℤ → Database → Result (StorageNode × Database)
register node_id address capacity_bytes db =
    register_node node_id address capacity_bytes NodeState.joining db

unfoldable pub get : Text → Database → Result StorageNode
get node_id db = do
  raise_if (is_blank node_id) value_error
  or_raise (node_at (strip node_id) db) (vault VaultError.not_found)

abbrev pub has_status : Option NodeState → StorageNode → Bool
has_status none node = true
has_status (some state) node = node.status == state

unfoldable pub list_nodes : Option NodeState → Database → List StorageNode
list_nodes status db =
    sort_by (λ (a b : StorageNode). text_ltb a.node_id b.node_id)
      (select (has_status status) db.nodes)

-- The `where` of the query: `capacity - used >= min_free_bytes` on integers.
abbrev pub is_candidate : ℕ → List Text → StorageNode → Bool
is_candidate min_free excluded node =
    (node.status == NodeState.healthy)
    && leb (node.used_bytes + min_free) node.capacity_bytes
    && not (mem node.node_id excluded)

-- The identifiers to leave out, without the blank ones.
abbrev pub excluded_ids : List Text → List Text
excluded_ids ids = map strip (select (λ id. not (is_blank id)) ids)

-- The order is the one of the placement.
unfoldable pub healthy_nodes : ℤ → List Text → Database → Result (List StorageNode)
healthy_nodes min_free_bytes exclude_node_ids db = do
  min_free ← non_negative min_free_bytes
  ok (order_nodes (select (is_candidate min_free (excluded_ids exclude_node_ids)) db.nodes))

module _ (node_id : Text) where
  abbrev pub mark_joined : Database → Result (StorageNode × Database)
  mark_joined = transition_node_state node_id NodeState.healthy

  abbrev pub mark_healthy : Database → Result (StorageNode × Database)
  mark_healthy = transition_node_state node_id NodeState.healthy

  abbrev pub mark_suspect : Database → Result (StorageNode × Database)
  mark_suspect = transition_node_state node_id NodeState.suspect

  abbrev pub mark_unavailable : Database → Result (StorageNode × Database)
  mark_unavailable = transition_node_state node_id NodeState.unavailable

  abbrev pub mark_recovering : Database → Result (StorageNode × Database)
  mark_recovering = transition_node_state node_id NodeState.recovering

  abbrev pub drain : Database → Result (StorageNode × Database)
  drain = transition_node_state node_id NodeState.draining

  abbrev pub remove : Database → Result (StorageNode × Database)
  remove = transition_node_state node_id NodeState.removed
