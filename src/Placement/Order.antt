-- ===== src/Placement/Order.antt =====
-- The order in which nodes are preferred, and that the sort of the query follows it.
use ps.Prelude.{
  ℕ, zero, suc, ◌≡◌, refl, true, false, inl, inr, List, [], ◌∷◌, arith, All, All-take, All-weaken,
  All-if, Bool-cases, take, none, ◌==◌, text_eq, text_beq_iff,
}
use ps.Table.{find, IsUnique}
use ps.Common.Text.{Text, text_ltb}
use ps.Metadata.Models.{StorageNode, node_key}
use ps.Placement.{has_more_free, is_before, insert_ordered, order_nodes}

text_ltb_asym : (s t : Text) → text_ltb s t ≡ true → text_ltb t s ≡ false
unfolding text_ltb
text_ltb_asym [] [] h = ground arith
text_ltb_asym [] (d ∷ t) h = ground arith
text_ltb_asym (c ∷ s) [] h = ground arith
text_ltb_asym (c ∷ s) (d ∷ t) h = ground (arith, text_ltb_asym s t)

-- What is not before and not before is not before.
text_ltb_negtrans :
    (s t u : Text) → text_ltb s t ≡ false → text_ltb t u ≡ false → text_ltb s u ≡ false
unfolding text_ltb
text_ltb_negtrans [] t [] p q = ground arith
text_ltb_negtrans (c ∷ s) t [] p q = ground arith
text_ltb_negtrans s [] (e ∷ u) p q = ground arith
text_ltb_negtrans [] (d ∷ t) (e ∷ u) p q = ground arith
text_ltb_negtrans (c ∷ s) (d ∷ t) (e ∷ u) p q = ground (arith, text_ltb_negtrans s t u)

is_before_asym : (a b : StorageNode) → is_before a b ≡ true → is_before b a ≡ false
unfolding is_before has_more_free
is_before_asym a b h = ground (arith, text_ltb_asym a.node_id b.node_id)

is_before_negtrans :
    (a b c : StorageNode) → is_before a b ≡ false → is_before b c ≡ false → is_before a c ≡ false
unfolding is_before has_more_free
is_before_negtrans a b c p q = ground (arith, text_ltb_negtrans a.node_id b.node_id c.node_id)

-- No node of the list comes before one that stands further on.
abbrev pub Sorted : List StorageNode → Type 0
Sorted [] = Unit
Sorted (n ∷ ns) = All (λ m. is_before m n ≡ false) ns × Sorted ns

module _ {κ} (P : StorageNode → Type κ) where
  pub All-insert :
      (n : StorageNode) (ns : List StorageNode) → P n → All P ns → All P (insert_ordered n ns)
  unfolding insert_ordered
  All-insert n [] p all = (p, tt)
  All-insert n (m ∷ ms) p all =
      All-if P (is_before m n) (m ∷ insert_ordered n ms) (n ∷ m ∷ ms)
        (all.0, All-insert n ms p all.1) (p, (all.0, all.1))

  pub All-order : (ns : List StorageNode) → All P ns → All P (order_nodes ns)
  unfolding order_nodes
  All-order [] all = tt
  All-order (n ∷ ns) all = All-insert n (order_nodes ns) all.0 (All-order ns all.1)

  All-insert_inv :
      (n : StorageNode) (ns : List StorageNode) → All P (insert_ordered n ns) → P n × All P ns
  unfolding insert_ordered
  All-insert_inv n [] all = all
  All-insert_inv n (m ∷ ms) all = elim (Bool-cases (is_before m n)) [
    | inl e ↦
        let there : All P (m ∷ insert_ordered n ms) = rw e at all in
        let (p, rest) = All-insert_inv n ms there.1 in (p, (there.0, rest))
    | inr e ↦ rw e at all
  ]

  pub All-order_inv : (ns : List StorageNode) → All P (order_nodes ns) → All P ns
  unfolding order_nodes
  All-order_inv [] all = tt
  All-order_inv (n ∷ ns) all =
      let (p, rest) = All-insert_inv n (order_nodes ns) all in (p, All-order_inv ns rest)

Sorted-insert : (n : StorageNode) (ns : List StorageNode) → Sorted ns → Sorted (insert_ordered n ns)
unfolding insert_ordered
Sorted-insert n [] sorted = (tt, tt)
Sorted-insert n (m ∷ ms) sorted = elim (Bool-cases (is_before m n)) [
  | inl e ↦ rw e (
    All-insert (λ x. is_before x m ≡ false) n ms (is_before_asym m n e) sorted.0,
    Sorted-insert n ms sorted.1,
  )
  | inr e ↦ rw e (
    (
      e,
      All-weaken (λ x. is_before x m ≡ false) (λ x. is_before x n ≡ false) ms sorted.0
          (λ x p. is_before_negtrans x m n p e),
    ),
    sorted,
  )
]

pub Sorted-order : (ns : List StorageNode) → Sorted (order_nodes ns)
unfolding order_nodes
Sorted-order [] = tt
Sorted-order (n ∷ ns) = Sorted-insert n (order_nodes ns) (Sorted-order ns)

pub Sorted-take : (k : ℕ) (ns : List StorageNode) → Sorted ns → Sorted (take k ns)
Sorted-take zero ns sorted = tt
Sorted-take (suc k) [] sorted = tt
Sorted-take (suc k) (n ∷ ns) sorted =
    (All-take (λ m. is_before m n ≡ false) k ns sorted.0, Sorted-take k ns sorted.1)

find-insert-none :
    (id : Text) (n : StorageNode) (ns : List StorageNode)
    → (n.node_id == id) ≡ false
    → find node_key id ns ≡ none
    → find node_key id (insert_ordered n ns) ≡ none
unfolding insert_ordered find
find-insert-none id n [] miss h = ground arith
find-insert-none id n (m ∷ ms) miss h = ground (arith, find-insert-none id n ms)

IsUnique-insert :
    (n : StorageNode) (ns : List StorageNode)
    → find node_key n.node_id ns ≡ none
    → IsUnique node_key ns
    → IsUnique node_key (insert_ordered n ns)
unfolding insert_ordered find
IsUnique-insert n [] new u = (refl, tt)
IsUnique-insert n (m ∷ ms) new u = ground (
  arith,
  IsUnique-insert n ms,
  find-insert-none m.node_id n ms,
  text_beq_iff n.node_id m.node_id,
  text_beq_iff m.node_id n.node_id,
)

find-order-none :
    (id : Text) (ns : List StorageNode)
    → find node_key id ns ≡ none
    → find node_key id (order_nodes ns) ≡ none
unfolding order_nodes find
find-order-none id [] h = refl
find-order-none id (n ∷ ns) h =
    find-insert-none id n (order_nodes ns) (ground arith) (find-order-none id ns (ground arith))

pub IsUnique-order :
    (ns : List StorageNode) → IsUnique node_key ns → IsUnique node_key (order_nodes ns)
unfolding order_nodes
IsUnique-order [] u = tt
IsUnique-order (n ∷ ns) u =
    IsUnique-insert n (order_nodes ns) (find-order-none n.node_id ns u.0) (IsUnique-order ns u.1)

find-take-none :
    (id : Text) (k : ℕ) (ns : List StorageNode)
    → find node_key id ns ≡ none
    → find node_key id (take k ns) ≡ none
unfolding find
find-take-none id zero ns h = refl
find-take-none id (suc k) [] h = refl
find-take-none id (suc k) (n ∷ ns) h = ground (arith, find-take-none id k ns)

pub IsUnique-take :
    (k : ℕ) (ns : List StorageNode) → IsUnique node_key ns → IsUnique node_key (take k ns)
IsUnique-take zero ns u = tt
IsUnique-take (suc k) [] u = tt
IsUnique-take (suc k) (n ∷ ns) u = (find-take-none n.node_id k ns u.0, IsUnique-take k ns u.1)
