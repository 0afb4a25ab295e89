-- ===== src/Gateway/Served.antt =====
-- What the nodes that a read is sent to hold.
use ps.Prelude.{
  ℕ, ◌<◌, ◌≡◌, sym, ap, ◌∙◌, subst, true, Option, some, List, [], ◌∷◌, length, arith, All,
  All-select, All-sort_by, All-weaken, Option-cases, inl, inr, select, nat_eq, text_eq, pair_eq,
  some_unique,
}
use ps.Table.{key-find, find_self, All-find}
use ps.Common.Text.{Text, text_ltb}
use ps.Common.Constants.{
  NodeState, ObjectState, ReplicaState, VersionState, node_state_eq, object_state_eq,
  replica_state_eq, version_state_eq,
}
use ps.Common.Errors.{VaultError, vault, ok, or_raise, >>=-eq-ok}
use ps.Metadata.Models.{
  Object, Version, StorageNode, Replica, Database, version_key, replica_slot, version_at,
  replica_on,
}
use ps.Metadata.Consistency.{IsConsistent, IsCertified}
use ps.Gateway.Reads.{get_live_object, head, targets_of, is_target, some_targets, read_targets}

-- The node is HEALTHY and holds a HEALTHY replica, with the checksum and the size of the version.
abbrev pub HasCopy : Database → Version → StorageNode → Type 0
HasCopy db v n =
    (r : Replica) × (n.status ≡ NodeState.healthy)
    × (replica_on v.version_id n.node_id db ≡ some r)
    × (r.status ≡ ReplicaState.healthy)
    × (r.checksum ≡ some v.checksum)
    × (r.size_bytes ≡ some v.size_bytes)

pub record IsReadable (db : Database) (o : Object) (v : Version) (targets : List StorageNode)
    : Type 0 where
  pub active : o.state ≡ ObjectState.active
  pub current : o.current_version_id ≡ some v.version_id
  pub committed : v.state ≡ VersionState.committed
  pub available : 0 < length targets
  pub copies : All (HasCopy db v) targets

head-eq-ok :
    (name : Text) (db : Database) {o : Object} {v : Version}
    → head name db ≡ ok (o, some v)
    → (i : ℕ) × (o.state ≡ ObjectState.active)
      × (o.current_version_id ≡ some i)
      × (version_at i db ≡ some v)
      × (v.state ≡ VersionState.committed)
unfolding head get_live_object
head-eq-ok name db {o} {v} h = elim (Option-cases o.current_version_id) [
  | inl e ↦ ground arith
  | inr (i, e) ↦ (i, ground arith, e, ground arith, ground arith)
]

some_targets-eq-ok :
    (nodes : List StorageNode) {targets : List StorageNode}
    → some_targets nodes ≡ ok targets
    → (targets ≡ nodes) × (0 < length targets)
some_targets-eq-ok [] h = cc
some_targets-eq-ok (n ∷ ns) h = ground arith

read_targets-eq-ok :
    (name : Text) (db : Database) {o : Object} {v : Version} {targets : List StorageNode}
    → read_targets name db ≡ ok (o, (v, targets))
    → (head name db ≡ ok (o, some v))
      × (targets ≡ targets_of v.version_id db)
      × (0 < length targets)
unfolding read_targets
read_targets-eq-ok name db {o} {v} {targets} h =
    let (found, met, rest) = >>=-eq-ok (head name db) _ h in
    let (w, present, last) = >>=-eq-ok (or_raise found.1 (vault VaultError.not_found)) _ rest in
    let (ts, e, done) = >>=-eq-ok (some_targets (targets_of w.version_id db)) _ last in
    let (same, available) = some_targets-eq-ok (targets_of w.version_id db) e in
    let row : found ≡ (o, some v) = ground arith in
    let version : w ≡ v = ground arith in
    let all : ts ≡ targets = ground arith in
    (
      met ∙ ap (λ (x : Object × Option Version). ok x) row,
      rw (← version, ← all) same,
      rw (← all) available,
    )

module _ (db : Database) (v : Version) (c : IsConsistent db)
    (there : version_at v.version_id db ≡ some v) where
  target-HasCopy : (n : StorageNode) → is_target v.version_id db n ≡ true → HasCopy db v n
  target-HasCopy n h = elim (Option-cases (replica_on v.version_id n.node_id db)) [
    | inl e ↦ ground arith
    | inr (r, e) ↦
        let (w, found, same) =
          All-find replica_slot (IsCertified db.versions) (v.version_id, n.node_id) db.replicas
            c.replicas.certified e in
        let healthy : r.status ≡ ReplicaState.healthy = ground arith in
        let (i, z) = same healthy in
        let slot : r.version_id ≡ v.version_id =
          ap (λ (k : ℕ × Text). k.0)
            (key-find replica_slot (v.version_id, n.node_id) db.replicas e) in
        let version : w ≡ v =
          some_unique (subst (λ k. version_at k db ≡ some w) slot found) there in
        (r, ground arith, e, healthy, rw (← version) i, rw (← version) z)
  ]

  targets_of-HasCopy : All (HasCopy db v) (targets_of v.version_id db)
  unfolding targets_of
  targets_of-HasCopy =
      All-sort_by (HasCopy db v) (λ (a b : StorageNode). text_ltb a.node_id b.node_id)
        (select (is_target v.version_id db) db.nodes)
        (All-weaken (λ n. is_target v.version_id db n ≡ true) (HasCopy db v)
          (select (is_target v.version_id db) db.nodes)
          (All-select (is_target v.version_id db) db.nodes) target-HasCopy)

-- In a consistent database a read is sent to at least one node, of the committed current version of
-- an ACTIVE object: each is HEALTHY, with a HEALTHY replica whose checksum and size are the version's.
pub read_targets_hold :
    (name : Text) (db : Database) (o : Object) (v : Version) (targets : List StorageNode)
    → IsConsistent db
    → read_targets name db ≡ ok (o, (v, targets))
    → IsReadable db o v targets
read_targets_hold name db o v targets c h =
    let (met, all, available) = read_targets-eq-ok name db h in
    let (i, active, current, found, committed) = head-eq-ok name db met in
    let key : v.version_id ≡ i = key-find version_key i db.versions found in
    record {
      active = active;
      current = current ∙ ap (λ k. some k) (sym key);
      committed = committed;
      available = available;
      copies = rw all (targets_of-HasCopy db v c (find_self version_key i db.versions found));
    }
