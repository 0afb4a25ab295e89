-- ===== src/Placement/Enough.antt =====
-- placement/manager.py: when `select_nodes` finds enough nodes.
use ps.Prelude.{
  ℕ, ℤ, pos, ◌≤◌, ◌<◌, ◌≡◌, ◌≢◌, refl, ◌⊎◌, inl, inr, Bool, true, Option, some, List, [], ◌∷◌,
  arith, All, All-take, Bool-cases, length, select, take, text_eq, pair_eq, nat_eq, text_beq_iff,
}
use ps.Table.{find, remove, find-remove, IsUnique, All-absent, All-weaken_absent}
use ps.Common.Text.{Text}
use ps.Common.Constants.{ErrorCode, node_state_eq}
use ps.Common.Errors.{VaultError, ok, err, vault}
use ps.Metadata.Models.{StorageNode, Database, node_key}
use ps.Metadata.Consistency.{IsConsistent}
use ps.Placement.{is_eligible, order_nodes, chosen_factor, select_nodes}
use ps.Placement.Order.{All-order}
use ps.Placement.Selection.{Fits, selection_cases, select_nodes_chosen}

is_eligible-Fits :
    (version_id size : ℕ) (db : Database) (n : StorageNode)
    → Fits version_id size db n
    → is_eligible version_id size db n ≡ true
unfolding is_eligible
is_eligible-Fits version_id size db n (healthy, room, free) = ground arith

-- The row that a list finds by the identifier of a node is the node.
abbrev pub FoundIn : List StorageNode → StorageNode → Type 0
FoundIn rows n = find node_key n.node_id rows ≡ some n

find-select :
    (p : StorageNode → Bool) (id : Text) (rows : List StorageNode) {n : StorageNode}
    → find node_key id rows ≡ some n
    → p n ≡ true
    → find node_key id (select p rows) ≡ some n
unfolding find
find-select p id [] h fits = cc
find-select p id (x ∷ rows) {n} h fits = ground (arith, find-select p id rows {n = n})

length-remove_le :
    (id : Text) (rows : List StorageNode) → length (remove node_key id rows) ≤ length rows
unfolding remove
length-remove_le id [] = omega arith
length-remove_le id (x ∷ rows) = ground (arith, length-remove_le id rows)

length-remove :
    (id : Text) (rows : List StorageNode) {n : StorageNode}
    → find node_key id rows ≡ some n
    → length (remove node_key id rows) < length rows
unfolding remove find
length-remove id [] h = cc
length-remove id (x ∷ rows) {n} h =
    ground (arith, length-remove id rows {n = n}, length-remove_le id rows)

FoundIn-remove :
    (id : Text) (rows : List StorageNode) (m : StorageNode)
    → FoundIn rows m
    → m.node_id ≢ id
    → FoundIn (remove node_key id rows) m
FoundIn-remove id rows m h other =
    ground (arith, find-remove node_key m.node_id id rows, text_beq_iff id m.node_id)

-- Different nodes that a list finds are not more than its rows.
length-FoundIn :
    (ns rows : List StorageNode)
    → IsUnique node_key ns
    → All (FoundIn rows) ns
    → length ns ≤ length rows
length-FoundIn [] rows u all = omega arith
length-FoundIn (n ∷ ns) rows (new, u) (here, all) =
    let rest =
      All-weaken_absent node_key (FoundIn rows) (FoundIn (remove node_key n.node_id rows)) n.node_id
        ns all (All-absent node_key n.node_id ns new) (FoundIn-remove n.node_id rows) in
    omega (
      arith,
      length-FoundIn ns (remove node_key n.node_id rows) u rest,
      length-remove n.node_id rows here,
    )

FoundIn-more :
    (x : StorageNode) (rows : List StorageNode) (m : StorageNode)
    → FoundIn rows m
    → m.node_id ≢ x.node_id
    → FoundIn (x ∷ rows) m
unfolding find
FoundIn-more x rows m h other = ground (arith, text_beq_iff x.node_id m.node_id)

-- A table without double keys finds each of its rows.
pub All-FoundIn : (rows : List StorageNode) → IsUnique node_key rows → All (FoundIn rows) rows
unfolding find
All-FoundIn [] u = tt
All-FoundIn (x ∷ rows) (new, u) = (
  rw ((text_beq_iff x.node_id x.node_id).1 refl) refl,
  All-weaken_absent node_key (FoundIn rows) (FoundIn (x ∷ rows)) x.node_id rows (All-FoundIn rows u)
      (All-absent node_key x.node_id rows new) (FoundIn-more x rows),
)

pub All-selected {κ} :
    (P : StorageNode → Type κ) (p : StorageNode → Bool) (rows : List StorageNode)
    → All P rows
    → All P (select p rows)
All-selected P p [] all = tt
All-selected P p (x ∷ rows) (here, all) = elim (Bool-cases (p x)) [
  | inl kept ↦ rw kept (here, All-selected P p rows all)
  | inr dropped ↦ rw dropped (All-selected P p rows all)
]

-- As many different nodes of the database as the factor asks for, each of them fit.
abbrev pub Enough : ℕ → ℕ → ℕ → Database → Type 0
Enough version_id size factor db =
    (ns : List StorageNode) × IsUnique node_key ns
    × All (FoundIn db.nodes) ns
    × All (Fits version_id size db) ns
    × (factor ≤ length ns)

All-eligible :
    (version_id size : ℕ) (db : Database) (ns : List StorageNode)
    → All (FoundIn db.nodes) ns
    → All (Fits version_id size db) ns
    → All (FoundIn (select (is_eligible version_id size db) db.nodes)) ns
All-eligible version_id size db [] found fit = tt
All-eligible version_id size db (n ∷ ns) (here, found) (f, fit) = (
  find-select (is_eligible version_id size db) n.node_id db.nodes here
      (is_eligible-Fits version_id size db n f),
  All-eligible version_id size db ns found fit,
)

not-Enough :
    (version_id size factor : ℕ) (db : Database)
    → length (select (is_eligible version_id size db) db.nodes) < factor
    → ¬ Enough version_id size factor db
not-Enough version_id size factor db few (ns, u, found, fit, many) =
    let bound =
      length-FoundIn ns (select (is_eligible version_id size db) db.nodes) u
        (All-eligible version_id size db ns found fit) in
    absurd (omega arith)

module _ (policy : ℤ) (version_id size factor : ℕ) (replication_factor : Option ℤ) (db : Database)
    (asked : chosen_factor replication_factor policy ≡ pos factor) (positive : 0 < factor) where
  -- A selection for a factor of at least 1 from a consistent database succeeds just if there are as
  -- many different nodes as the factor that are each HEALTHY, have room for the version, and hold no
  -- replica of it; if there are not, the call raises INSUFFICIENT_REPLICAS.
  pub select_nodes_decided :
      IsConsistent db
      → ((¬ Enough version_id size factor db)
          × (select_nodes policy version_id (pos size) replication_factor db
              ≡ err (vault (VaultError.plain ErrorCode.insufficient_replicas 503))))
        ⊎ (Enough version_id size factor db
            × ((r : List StorageNode) × (select_nodes policy version_id
                    (pos size)
                    replication_factor
                    db
                  ≡ ok r)))
  select_nodes_decided c =
      let eligible = select (is_eligible version_id size db) db.nodes in
      elim (selection_cases policy version_id size factor replication_factor db asked positive) [
        | inl (few, refused) ↦ inl (not-Enough version_id size factor db few, refused)
        | inr (_, made) ↦
            let r = take factor (order_nodes eligible) in
            let (count, unique, fit, _) =
              select_nodes_chosen policy version_id size factor replication_factor db asked positive
                r c made in
            inr (
              (
                r,
                unique,
                All-take (FoundIn db.nodes) factor (order_nodes eligible) (
                    All-order (FoundIn db.nodes) eligible (
                      All-selected (FoundIn db.nodes) (is_eligible version_id size db) db.nodes
                        (All-FoundIn db.nodes c.nodes.key))),
                fit,
                omega arith,
              ),
              (r, made),
            )
      ]
