-- ===== src/Health/Candidates.antt =====
-- health/registry.py: what `healthy_nodes` returns.
use ps.Prelude.{
  ℕ, pos, ◌+◌, ◌≤◌, ◌≡◌, ◌≢◌, ◌⊎◌, ◌↔◌, inl, inr, true, false, some, List, [], ◌∷◌, ◌==◌, select,
  arith, refl, All, All-select, All-weaken, Bool-cases, text_eq, text_beq_iff,
}
use ps.Table.{find, All-find}
use ps.Common.Text.{Text, strip}
use ps.Common.Constants.{NodeState, node_state_eq}
use ps.Common.Errors.{ok}
use ps.Metadata.Models.{StorageNode, Database, node_key, node_at}
use ps.Metadata.Checks.{mem, is_blank}
use ps.Metadata.Consistency.{IsConsistent}
use ps.Placement.{order_nodes}
use ps.Placement.Order.{Sorted, Sorted-order, All-order, All-order_inv, IsUnique-order}
use ps.Placement.Selection.{All-select_inv, IsUnique-select}
use ps.Placement.Enough.{FoundIn, All-FoundIn}
use ps.Health.Registry.{is_candidate, excluded_ids, healthy_nodes}

-- The entry, without the white space around it, is the identifier, and not blank.
abbrev pub IsExcludedBy : Text → Text → Type 0
IsExcludedBy node_id entry = (strip entry ≢ []) × (strip entry ≡ node_id)

abbrev pub IsCandidate : ℕ → List Text → StorageNode → Type 0
IsCandidate min_free exclude n =
    (n.status ≡ NodeState.healthy)
    × (n.used_bytes + min_free ≤ n.capacity_bytes)
    × All (λ entry. ¬ IsExcludedBy n.node_id entry) exclude

blank-cases :
    (s : Text) → ((is_blank s ≡ true) × (strip s ≡ [])) ⊎ ((is_blank s ≡ false) × (strip s ≢ []))
blank-cases s = go (strip s) refl
  where
    go :
        (t : Text)
        → strip s ≡ t
        → ((is_blank s ≡ true) × (strip s ≡ [])) ⊎ ((is_blank s ≡ false) × (strip s ≢ []))
    go [] e = inl (rw e refl, e)
    go (c ∷ t) e = inr (rw e refl, λ h. cc (e, h))

not_excluded :
    (id : Text) (exclude : List Text)
    → mem id (excluded_ids exclude) ≡ false
    → All (λ entry. ¬ IsExcludedBy id entry) exclude
not_excluded id [] h = tt
not_excluded id (x ∷ exclude) h = elim (blank-cases x) [
  | inl (blank, empty) ↦ (λ (full, same). full empty, not_excluded id exclude (rw blank at h))
  | inr (named, full) ↦
      let there = rw named at h in
      elim (Bool-cases (strip x == id)) [
        | inl hit ↦ let missed = rw hit at there in cc
        | inr other ↦ (
          λ (_, same). let hit = (text_beq_iff (strip x) id).1 same in cc,
          not_excluded id exclude (rw other at there),
        )
      ]
]

mem-excluded :
    (id : Text) (exclude : List Text)
    → All (λ entry. ¬ IsExcludedBy id entry) exclude
    → mem id (excluded_ids exclude) ≡ false
mem-excluded id [] all = refl
mem-excluded id (x ∷ exclude) (here, all) =
    let rest = mem-excluded id exclude all in
    elim (blank-cases x) [
      | inl (blank, _) ↦ rw blank rest
      | inr (named, full) ↦ elim (Bool-cases (strip x == id)) [
        | inl hit ↦ absurd (here (full, (text_beq_iff (strip x) id).0 hit))
        | inr other ↦ rw (named, other) rest
      ]
    ]

IsCandidate-is_candidate :
    (min_free : ℕ) (exclude : List Text) (n : StorageNode)
    → is_candidate min_free (excluded_ids exclude) n ≡ true
    → IsCandidate min_free exclude n
IsCandidate-is_candidate min_free exclude n h =
    (ground arith, ground arith, not_excluded n.node_id exclude (ground arith))

is_candidate-IsCandidate :
    (min_free : ℕ) (exclude : List Text) (n : StorageNode)
    → IsCandidate min_free exclude n
    → is_candidate min_free (excluded_ids exclude) n ≡ true
is_candidate-IsCandidate min_free exclude n (healthy, room, free) =
    let out = mem-excluded n.node_id exclude free in ground arith

-- From a consistent database `healthy_nodes` returns just the nodes that are HEALTHY, have the free
-- bytes asked for, and are not excluded: no entry of the list of exclusions that is not
-- blank is, but for white space around it, their identifier. Each node that it returns is one, a node of the database is found
-- in the result just if it is one, and they stand in the order of the placement.
pub healthy_nodes_candidates :
    (min_free : ℕ) (exclude : List Text) (db : Database) (r : List StorageNode) (id : Text)
    (n : StorageNode)
    → IsConsistent db
    → healthy_nodes (pos min_free) exclude db ≡ ok r
    → node_at id db ≡ some n
    → All (IsCandidate min_free exclude) r
      × ((find node_key n.node_id r ≡ some n) ↔ IsCandidate min_free exclude n)
      × Sorted r
unfolding healthy_nodes
healthy_nodes_candidates min_free exclude db r id n c h there =
    let p = is_candidate min_free (excluded_ids exclude) in
    let found = select p db.nodes in
    let e : order_nodes found ≡ r = ground arith in
    let all : All (IsCandidate min_free exclude) r = rw (← e) (
      All-order (IsCandidate min_free exclude) found (
        All-weaken (λ n. p n ≡ true) (IsCandidate min_free exclude) found (All-select p db.nodes)
          (IsCandidate-is_candidate min_free exclude))) in
    let unique = IsUnique-order found (IsUnique-select p db.nodes c.nodes.key) in
    let each = All-select_inv (FoundIn (order_nodes found)) p db.nodes (
      All-order_inv (FoundIn (order_nodes found)) found (All-FoundIn (order_nodes found) unique)) in
    let here =
      All-find node_key (λ m. p m ≡ true → FoundIn (order_nodes found) m) id db.nodes each there in
    (
      all,
      (
        λ within. All-find node_key (IsCandidate min_free exclude) n.node_id r all within,
        λ fit. rw (← e) (here (is_candidate-IsCandidate min_free exclude n fit)),
      ),
      rw (← e) (Sorted-order found),
    )
