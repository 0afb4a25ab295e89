-- ===== src/Placement/Tests.antt =====
-- Placement on three nodes, of which two are eligible and one is chosen.
use ps.Prelude.{
  ℕ, List, pos, ◌≡◌, ◌⊎◌, refl, false, none, some, [], ◌∷◌, All, length, arith, text_eq, text_beq,
  nat_eq, pair_eq,
}
use ps.Table.{find, IsUnique}
use ps.Common.Text.{text_ltb}
use ps.Common.Constants.{NodeState, ErrorCode}
use ps.Common.Errors.{VaultError, ok, err, vault}
use ps.Metadata.Models.{StorageNode, Database, node_key}
use ps.Metadata.Consistency.{IsConsistent}
use ps.Metadata.Consistency.Preserved.Runs.{empty_database}
use ps.Placement.{
  is_before, is_eligible, insert_ordered, order_nodes, has_more_free, select_nodes, validate_factor,
}
use ps.Placement.Order.{Sorted}
use ps.Placement.Selection.{select_nodes_chosen, select_nodes_best, Fits}
use ps.Placement.Enough.{Enough, select_nodes_decided}

abbrev node : ℕ → ℕ → NodeState → StorageNode
node c used status = record {
  node_id = c ∷ [];
  address = c ∷ c ∷ [];
  status = status;
  capacity_bytes = 100;
  used_bytes = used;
  last_heartbeat_at = none;
}

abbrev roomy : StorageNode
roomy = node b'b' 10 NodeState.healthy

abbrev filled : StorageNode
filled = node b'a' 40 NodeState.healthy

abbrev three : Database
three = record (empty_database (λ n. n) (λ n. n)) {
  nodes = filled ∷ roomy ∷ node b'c' 0 NodeState.suspect ∷ [];
}

three-IsConsistent : IsConsistent three
unfolding find text_beq
three-IsConsistent = record {
  objects = record { key = tt; name = tt; latest = tt };
  versions = record { key = tt; slot = tt; numbered = tt; owned = tt };
  nodes = record {
    key = (refl, (refl, (refl, tt)));
    address = (refl, (refl, (refl, tt)));
    within = (omega arith, (omega arith, (omega arith, tt)));
  };
  replicas = record { key = tt; slot = tt; certified = tt; placed = tt };
}

one_of_three : select_nodes (pos 3) 7 (pos 20) (some (pos 1)) three ≡ ok (roomy ∷ [])
unfolding select_nodes validate_factor order_nodes insert_ordered is_eligible is_before
    has_more_free find text_ltb
one_of_three = refl

select_nodes_chosen_example :
    (length (roomy ∷ []) ≡ 1)
    × IsUnique node_key (roomy ∷ [])
    × All (Fits 7 20 three) (roomy ∷ [])
    × Sorted (roomy ∷ [])
select_nodes_chosen_example =
    select_nodes_chosen (pos 3) 7 20 1 (some (pos 1)) three refl (omega arith) (roomy ∷ [])
      three-IsConsistent one_of_three

select_nodes_best_example : All (λ n. is_before filled n ≡ false) (roomy ∷ [])
unfolding find text_beq is_eligible
select_nodes_best_example =
    select_nodes_best (pos 3) 7 20 1 (some (pos 1)) three refl (omega arith) (roomy ∷ [])
      (b'a' ∷ []) filled one_of_three refl refl refl

select_nodes_decided_example :
    ((¬ Enough 7 20 3 three)
      × (select_nodes (pos 3) 7 (pos 20) none three
          ≡ err (vault (VaultError.plain ErrorCode.insufficient_replicas 503))))
    ⊎ (Enough 7 20 3 three
        × ((r : List StorageNode) × (select_nodes (pos 3) 7 (pos 20) none three ≡ ok r)))
select_nodes_decided_example =
    select_nodes_decided (pos 3) 7 20 3 none three refl (omega arith) three-IsConsistent
