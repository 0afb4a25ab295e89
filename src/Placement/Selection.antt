-- ===== src/Placement/Selection.antt =====
-- What `select_nodes` returns, and when it refuses.
use ps.Prelude.{
  ℕ, ℤ, pos, zero, suc, ◌+◌, ◌≤◌, ◌<◌, ◌≡◌, refl, ◌⊎◌, inl, inr, Bool, true, false, Option, none,
  some, List, [], ◌∷◌, arith, All, All-select, All-take, All-weaken, Bool-cases, take, length,
  length-take, select, text_eq, pair_eq, nat_eq, text_beq_iff,
}
use ps.Table.{find, IsUnique, All-find}
use ps.Common.Text.{Text}
use ps.Common.Constants.{NodeState, ErrorCode, node_state_eq}
use ps.Common.Errors.{VaultError, ok, err, vault}
use ps.Metadata.Models.{StorageNode, Database, node_key, node_at, replica_on}
use ps.Metadata.Consistency.{IsConsistent}
use ps.Placement.{
  is_before, is_eligible, insert_ordered, order_nodes, chosen_factor, validate_factor, select_nodes,
}
use ps.Placement.Order.{
  Sorted, Sorted-order, Sorted-take, All-order, All-order_inv, IsUnique-order, IsUnique-take,
}

All-pair {κ μ ν} :
    (P : StorageNode → Type κ) (Q : StorageNode → Type μ) (R : StorageNode → Type ν)
    (ns : List StorageNode)
    → All P ns
    → All Q ns
    → ((n : StorageNode) → P n → Q n → R n)
    → All R ns
All-pair P Q R [] p q f = tt
All-pair P Q R (n ∷ ns) p q f = (f n p.0 q.0, All-pair P Q R ns p.1 q.1 f)

length-insert :
    (n : StorageNode) (ns : List StorageNode) → length (insert_ordered n ns) ≡ suc (length ns)
unfolding insert_ordered
length-insert n [] = refl
length-insert n (m ∷ ms) = ground (arith, length-insert n ms)

length-order : (ns : List StorageNode) → length (order_nodes ns) ≡ length ns
unfolding order_nodes
length-order [] = refl
length-order (n ∷ ns) = omega (arith, length-insert n (order_nodes ns), length-order ns)

take-take {ℓ} : {A : Type ℓ} (k : ℕ) (xs : List A) → take k (take k xs) ≡ take k xs
take-take zero xs = refl
take-take (suc k) [] = refl
take-take (suc k) (x ∷ xs) = ground (arith, take-take k xs)

find-select-none :
    (p : StorageNode → Bool) (id : Text) (ns : List StorageNode)
    → find node_key id ns ≡ none
    → find node_key id (select p ns) ≡ none
unfolding find
find-select-none p id [] h = refl
find-select-none p id (n ∷ ns) h = ground (arith, find-select-none p id ns)

pub IsUnique-select :
    (p : StorageNode → Bool) (ns : List StorageNode)
    → IsUnique node_key ns
    → IsUnique node_key (select p ns)
IsUnique-select p [] u = tt
IsUnique-select p (n ∷ ns) u = ground (arith, IsUnique-select p ns, find-select-none p n.node_id ns)

-- What `select` leaves out does not count.
pub All-select_inv {κ} :
    (P : StorageNode → Type κ) (p : StorageNode → Bool) (ns : List StorageNode)
    → All P (select p ns)
    → All (λ n. p n ≡ true → P n) ns
All-select_inv P p [] all = tt
All-select_inv P p (n ∷ ns) all = elim (Bool-cases (p n)) [
  | inl kept ↦
      let there : All P (n ∷ select p ns) = rw kept at all in
      (λ e. there.0, All-select_inv P p ns there.1)
  | inr dropped ↦
      let there : All P (select p ns) = rw dropped at all in (λ e. cc, All-select_inv P p ns there)
]

-- In a sorted list nothing outside the first nodes comes before one of them.
Sorted-rest :
    (k : ℕ) (ns : List StorageNode)
    → Sorted ns
    → All
        (λ m.
          find node_key m.node_id (take k ns) ≡ none → All (λ n. is_before m n ≡ false) (take k ns))
        ns
unfolding find
Sorted-rest k [] sorted = tt
Sorted-rest zero (n ∷ ns) sorted = (λ h. tt, Sorted-rest zero ns sorted.1)
Sorted-rest (suc k) (n ∷ ns) sorted = (
  λ h. ground (arith, text_beq_iff n.node_id n.node_id),
  All-pair (λ m. is_before m n ≡ false) _ _ ns sorted.0 (Sorted-rest k ns sorted.1)
      (λ m after rest h. (after, rest (ground arith))),
)

-- The candidates in the order of preference.
abbrev candidates : ℕ → ℕ → Database → List StorageNode
candidates version_id size db = order_nodes (select (is_eligible version_id size db) db.nodes)

length-candidates :
    (version_id size : ℕ) (db : Database)
    → length (candidates version_id size db)
      ≡ length (select (is_eligible version_id size db) db.nodes)
length-candidates version_id size db =
    length-order (select (is_eligible version_id size db) db.nodes)

-- What makes a node fit for a replica of the version, as the contract of the placement says it.
abbrev pub Fits : ℕ → ℕ → Database → StorageNode → Type 0
Fits version_id size db n =
    (n.status ≡ NodeState.healthy)
    × (n.used_bytes + size ≤ n.capacity_bytes)
    × (replica_on version_id n.node_id db ≡ none)

Fits-of_eligible :
    (version_id size : ℕ) (db : Database) (n : StorageNode)
    → is_eligible version_id size db n ≡ true
    → Fits version_id size db n
unfolding is_eligible
Fits-of_eligible version_id size db n h = ground arith

module _ (policy : ℤ) (version_id size factor : ℕ) (replication_factor : Option ℤ) (db : Database)
    (asked : chosen_factor replication_factor policy ≡ pos factor) (positive : 0 < factor) where
  -- The two ways a call goes, by the number of eligible nodes.
  pub selection_cases :
      ((length (select (is_eligible version_id size db) db.nodes) < factor)
        × (select_nodes policy version_id (pos size) replication_factor db
            ≡ err (vault (VaultError.plain ErrorCode.insufficient_replicas 503))))
      ⊎ ((factor ≤ length (select (is_eligible version_id size db) db.nodes))
          × (select_nodes policy version_id (pos size) replication_factor db
              ≡ ok (take factor (candidates version_id size db))))
  unfolding select_nodes validate_factor
  selection_cases = ground (
    arith,
    length-take factor (candidates version_id size db),
    length-candidates version_id size db,
    take-take factor (candidates version_id size db),
  )

  pub returned :
      (r : List StorageNode)
      → select_nodes policy version_id (pos size) replication_factor db ≡ ok r
      → (length r ≡ factor) × (r ≡ take factor (candidates version_id size db))
  returned r h = ground (
    arith,
    selection_cases,
    length-take factor (candidates version_id size db),
    length-candidates version_id size db,
  )

  -- What is returned for a factor of at least 1 from a consistent database: exactly as many nodes
  -- as asked for, no two with one identifier, each HEALTHY, with room for the version, and without a
  -- replica of it, from the most preferred to the least.
  pub select_nodes_chosen :
      (r : List StorageNode)
      → IsConsistent db
      → select_nodes policy version_id (pos size) replication_factor db ≡ ok r
      → (length r ≡ factor) × IsUnique node_key r × All (Fits version_id size db) r × Sorted r
  select_nodes_chosen r c h =
      let (count, e) = returned r h in
      let eligible = select (is_eligible version_id size db) db.nodes in
      (
        count,
        rw e (
            IsUnique-take factor (order_nodes eligible) (
              IsUnique-order eligible
                (IsUnique-select (is_eligible version_id size db) db.nodes c.nodes.key))),
        rw e (
            All-take (Fits version_id size db) factor (order_nodes eligible) (
              All-order (Fits version_id size db) eligible (
                All-weaken (λ n. is_eligible version_id size db n ≡ true) (Fits version_id size db)
                  eligible (All-select (is_eligible version_id size db) db.nodes)
                  (Fits-of_eligible version_id size db)))),
        rw e (Sorted-take factor (order_nodes eligible) (Sorted-order eligible)),
      )

  -- The choice is the best one: an eligible node that is not chosen comes before none of the chosen.
  pub select_nodes_best :
      (r : List StorageNode) (id : Text) (m : StorageNode)
      → select_nodes policy version_id (pos size) replication_factor db ≡ ok r
      → node_at id db ≡ some m
      → is_eligible version_id size db m ≡ true
      → find node_key m.node_id r ≡ none
      → All (λ n. is_before m n ≡ false) r
  select_nodes_best r id m h found eligible out =
      let (_, e) = returned r h in
      let ns = select (is_eligible version_id size db) db.nodes in
      let chosen = take factor (order_nodes ns) in
      let Left : StorageNode → Type 0 =
        λ x. find node_key x.node_id chosen ≡ none → All (λ n. is_before x n ≡ false) chosen in
      let all = All-order_inv Left ns (Sorted-rest factor (order_nodes ns) (Sorted-order ns)) in
      let everywhere = All-select_inv Left (is_eligible version_id size db) db.nodes all in
      let best =
        All-find node_key (λ x. is_eligible version_id size db x ≡ true → Left x) id db.nodes
          everywhere found in
      rw e (best eligible (rw e at out))
