-- ===== src/Metadata/Consistency/Preserved/Batch.antt =====
-- `create_replicas` keeps the invariant: its loop over the targets adds one row for each.
use ps.Prelude.{
  ℕ, ◌+◌, ◌≡◌, sym, ap, subst, false, not, none, some, List, [], ◌∷◌, map, All, All-weaken,
  any-eq-false, is_some, arith, ◌==◌, nat_eq, text_eq, pair_eq, text_beq_iff,
}
use ps.Table.{find, add, find-add-none}
use ps.Common.Text.{Text, strip}
use ps.Common.Errors.{ok, >>=-eq-ok}
use ps.Metadata.Models.{
  Version, StorageNode, Replica, Database, version_key, node_key, replica_key, replica_slot,
}
use ps.Metadata.Checks.{mem, flush_new}
use ps.Metadata.Replicas
use ps.Metadata.Replicas.{new_replica, new_replicas, flush_all, has_duplicates}
use ps.Metadata.Replicas.Outcomes.{create_replicas-eq-ok}
use ps.Metadata.Consistency.{IsConsistent, ReplicasAreValid}
use ps.Metadata.Consistency.Replicas.{ReplicasAreValid-add}
use ps.Metadata.Consistency.Preserved.Replicas.{IsConsistent-replicas}

flush_new-eq-ok :
    (r : Replica) (rows : List Replica) {more : List Replica}
    → flush_new replica_key r rows ≡ ok more
    → (find replica_key r.replica_id rows ≡ none) × (more ≡ add r rows)
flush_new-eq-ok r rows h = ground arith

-- A target on which the version has no replica yet.
abbrev IsFree : ℕ → List Replica → Text → Type 0
IsFree version_id rows n = find replica_slot (version_id, n) rows ≡ none

abbrev IsKnown : List StorageNode → Text → Type 0
IsKnown nodes n = (m : StorageNode) × (find node_key n nodes ≡ some m)

differ_of_mem : (n : Text) (ns : List Text) → mem n ns ≡ false → All (λ m. (m == n) ≡ false) ns
differ_of_mem n ns h = any-eq-false (λ m. m == n) ns h

IsFree-add :
    (version_id i : ℕ) (n m : Text) (rows : List Replica)
    → (m == n) ≡ false
    → IsFree version_id rows m
    → IsFree version_id (add (new_replica i version_id n) rows) m
IsFree-add version_id i n m rows differ free =
    find-add-none replica_slot (version_id, m) (new_replica i version_id n) rows
      (λ e. cc ((text_beq_iff m n).1 (sym (ap (λ (p : ℕ × Text). p.1) e)))) free

All-IsFree-add :
    (version_id i : ℕ) (n : Text) (ns : List Text) (rows : List Replica)
    → All (λ m. (m == n) ≡ false) ns
    → All (IsFree version_id rows) ns
    → All (IsFree version_id (add (new_replica i version_id n) rows)) ns
All-IsFree-add version_id i n [] rows differ free = tt
All-IsFree-add version_id i n (m ∷ ms) rows differ free = (
  IsFree-add version_id i n m rows differ.0 free.0,
  All-IsFree-add version_id i n ms rows differ.1 free.1,
)

module _ (versions : List Version) (nodes : List StorageNode) (uuids : ℕ → ℕ) (version_id : ℕ)
    (v : Version) (found : find version_key version_id versions ≡ some v) where
  flush_all-AreValid :
      (drawn : ℕ) (ns : List Text) (rows : List Replica) {more : List Replica}
      → ReplicasAreValid versions nodes rows
      → All (IsFree version_id rows) ns
      → All (IsKnown nodes) ns
      → has_duplicates ns ≡ false
      → flush_all (new_replicas uuids drawn version_id ns) rows ≡ ok more
      → ReplicasAreValid versions nodes more
  unfolding flush_all new_replicas has_duplicates
  flush_all-AreValid drawn [] rows {more} valid free known distinct h =
      let e : rows ≡ more = cc h in subst (ReplicasAreValid versions nodes) e valid
  flush_all-AreValid drawn (n ∷ ns) rows valid free known distinct h =
      let row = new_replica (uuids drawn) version_id n in
      let (next, flushed, rest) =
        >>=-eq-ok (flush_new replica_key row rows)
          (flush_all (new_replicas uuids (drawn + 1) version_id ns)) h in
      let (new_id, e) = flush_new-eq-ok row rows flushed in
      let apart : mem n ns ≡ false = ground arith in
      flush_all-AreValid (drawn + 1) ns next
        (rw e (
          ReplicasAreValid-add versions nodes row rows valid new_id free.0
            (v, found, λ healthy. cc healthy) known.0))
        (rw e (All-IsFree-add version_id (uuids drawn) n ns rows (differ_of_mem n ns apart) free.1))
        known.1 (ground arith) rest

IsKnown-of_check :
    (nodes : List StorageNode) (n : Text)
    → not (is_some (find node_key n nodes)) ≡ false
    → IsKnown nodes n
IsKnown-of_check nodes n h = ground arith

IsFree-of_check :
    (version_id : ℕ) (rows : List Replica) (n : Text)
    → is_some (find replica_slot (version_id, n) rows) ≡ false
    → IsFree version_id rows n
IsFree-of_check version_id rows n h = ground arith

pub create_replicas-IsConsistent :
    (version_id : ℕ) (node_ids : List Text) (db : Database) (r : List Replica × Database)
    → Replicas.create_replicas version_id node_ids db ≡ ok r
    → IsConsistent db
    → IsConsistent r.1
create_replicas-IsConsistent version_id node_ids db r h c =
    let (v, version, distinct, known, free, rows, flushed, e) =
      create_replicas-eq-ok version_id node_ids db h in
    let targets = map strip node_ids in
    IsConsistent-replicas db r.1 c (ap (λ (d : Database). d.objects) e)
      (ap (λ (d : Database). d.versions) e) (ap (λ (d : Database). d.nodes) e)
      (flush_all-AreValid db.versions db.nodes db.uuids version_id v version db.drawn targets
        db.replicas c.replicas
        (All-weaken _ (IsFree version_id db.replicas) targets (any-eq-false _ targets free)
          (IsFree-of_check version_id db.replicas))
        (All-weaken _ (IsKnown db.nodes) targets (any-eq-false _ targets known)
          (IsKnown-of_check db.nodes))
        distinct (rw rows at flushed))
