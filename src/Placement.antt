-- ===== src/Placement.antt =====
-- placement/manager.py: which nodes a version is placed on.
pub mod Order
pub mod Selection
pub mod Enough
mod Tests
use ps.Prelude.{
  ℕ, ℤ, ◌+◌, Bool, not, ◌&&◌, ◌||◌, Option, none, some, List, [], ◌∷◌, map, ◌==◌, if◌then◌else◌,
  select, take, length, is_some, ltb, leb, nat_beq, nat_eq, text_eq, pair_eq,
}
use ps.Common.Text.{Text, text_ltb}
use ps.Common.Constants.{NodeState, ErrorCode, node_state_eq}
use ps.Common.Errors.{VaultError, Result, ok, vault, value_error, raise_if, ◌>>◌, ◌>>=◌}
use ps.Metadata.Models.{StorageNode, Database, replica_on}
use ps.Metadata.Checks.{non_negative}

-- `not isinstance(n, int) or n < 1`, as the policy and the call both test it.
unfoldable pub validate_factor : ℤ → Result ℕ
validate_factor factor = do n ← non_negative factor; raise_if (ltb n 1) value_error; ok n

-- The `where` of the query. `capacity - used >= size` on integers.
unfoldable pub is_eligible : ℕ → ℕ → Database → StorageNode → Bool
is_eligible version_id size db node =
    (node.status == NodeState.healthy)
    && leb (node.used_bytes + size) node.capacity_bytes
    && not (is_some (replica_on version_id node.node_id db))

-- The `order by`: the difference `capacity - used` from large to small, then the identifier.
-- `a - b < c - d` on integers is `a + d < c + b`.
unfoldable pub has_more_free : StorageNode → StorageNode → Bool
has_more_free a b = ltb (b.capacity_bytes + a.used_bytes) (a.capacity_bytes + b.used_bytes)

unfoldable pub is_before : StorageNode → StorageNode → Bool
unfolding has_more_free
is_before a b = has_more_free a b || (not (has_more_free b a) && text_ltb a.node_id b.node_id)

unfoldable pub insert_ordered : StorageNode → List StorageNode → List StorageNode
insert_ordered n [] = n ∷ []
insert_ordered n (m ∷ ms) =
    let rest = insert_ordered n ms in if is_before m n then m ∷ rest else n ∷ m ∷ ms

unfoldable pub order_nodes : List StorageNode → List StorageNode
unfolding insert_ordered
order_nodes [] = []
order_nodes (n ∷ ns) = insert_ordered n (order_nodes ns)

-- `replication_factor` of the call, or that of the policy.
abbrev pub chosen_factor : Option ℤ → ℤ → ℤ
chosen_factor none policy = policy
chosen_factor (some factor) policy = factor

unfoldable pub select_nodes : ℤ → ℕ → ℤ → Option ℤ → Database → Result (List StorageNode)
unfolding order_nodes
select_nodes policy version_id size_bytes replication_factor db = do
  size ← non_negative size_bytes
  factor ← validate_factor (chosen_factor replication_factor policy)
  let candidates = take factor (order_nodes (select (is_eligible version_id size db) db.nodes))
  raise_if (ltb (length candidates) factor)
      (vault (VaultError.plain ErrorCode.insufficient_replicas 503))
  ok (take factor candidates)

unfoldable pub plan_for_version : ℤ → ℕ → ℤ → Option ℤ → Database → Result (List Text)
plan_for_version policy version_id size_bytes replication_factor db = do
  nodes ← select_nodes policy version_id size_bytes replication_factor db
  ok (map (λ (n : StorageNode). n.node_id) nodes)
