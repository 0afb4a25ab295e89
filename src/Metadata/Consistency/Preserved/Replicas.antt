-- ===== src/Metadata/Consistency/Preserved/Replicas.antt =====
-- The operations on replicas keep the invariant.
use ps.Prelude.{ℕ, ℤ, ◌≡◌, refl, ap, some, List, inl, inr, nat_eq, text_eq, pair_eq}
use ps.Table.{find, find_self, All-find, save}
use ps.Common.Text.{Text}
use ps.Common.Constants.{ReplicaState}
use ps.Common.Errors.{ok}
use ps.Metadata.Models.{Version, Replica, Database, replica_key, version_at}
use ps.Metadata.Replicas
use ps.Metadata.Replicas.{new_replica, with_status, verified}
use ps.Metadata.Replicas.Outcomes.{
  create_replica-eq-ok, set_replica_state-eq-ok, set_replica_states-eq-ok,
  record_replica_verification-eq-ok, mark_replica_healthy-eq-ok, remove_replica-eq-ok,
}
use ps.Metadata.Consistency.{IsConsistent, ReplicasAreValid, IsCertified, IsPlaced}
use ps.Metadata.Consistency.Replicas.{
  ReplicasAreValid-add, ReplicasAreValid-save, ReplicasAreValid-remove,
  ReplicasAreValid-update_where, IsCertified-with_status,
}

-- Only the replicas have changed.
module _ (db db' : Database) (c : IsConsistent db) where
  pub IsConsistent-replicas :
      db'.objects ≡ db.objects
      → db'.versions ≡ db.versions
      → db'.nodes ≡ db.nodes
      → ReplicasAreValid db.versions db.nodes db'.replicas
      → IsConsistent db'
  IsConsistent-replicas same_objects same_versions same_nodes valid = record {
    objects = rw (same_versions, same_objects) c.objects;
    versions = rw (same_versions, same_objects) c.versions;
    nodes = rw same_nodes c.nodes;
    replicas = rw (same_versions, same_nodes) valid;
  }

pub create_replica-IsConsistent :
    (version_id : ℕ) (node_id : Text) (db : Database) (r : Replica × Database)
    → Replicas.create_replica version_id node_id db ≡ ok r
    → IsConsistent db
    → IsConsistent r.1
create_replica-IsConsistent version_id node_id db r h c =
    let (v, n, version, node, free, new_id, row, e) =
      create_replica-eq-ok version_id node_id db h in
    rw e (
      IsConsistent-replicas db _ c refl refl refl (
        ReplicasAreValid-add db.versions db.nodes r.0 db.replicas c.replicas new_id (rw row free)
          (v, rw row version, λ healthy. cc (ap (λ (x : Replica). x.status) row, healthy))
          (n, rw row node)))

pub set_replica_state-IsConsistent :
    (replica_id : ℕ) (wanted : ReplicaState) (db : Database) (r : Replica × Database)
    → Replicas.set_replica_state replica_id wanted db ≡ ok r
    → IsConsistent db
    → IsConsistent r.1
set_replica_state-IsConsistent replica_id wanted db r h c =
    let (x, found, outcome) = set_replica_state-eq-ok replica_id wanted db h in
    let here = find_self replica_key replica_id db.replicas found in
    elim outcome [
      | inl (_, e) ↦ rw e c
      | inr (_, other, e) ↦ rw e (
          IsConsistent-replicas db _ c refl refl refl (
            ReplicasAreValid-save db.versions db.nodes (with_status wanted x) db.replicas c.replicas
              here refl refl
              (IsCertified-with_status db.versions db.nodes x wanted other (
                All-find replica_key (IsCertified db.versions) x.replica_id db.replicas
                  c.replicas.certified here))
              (All-find replica_key (IsPlaced db.nodes) x.replica_id db.replicas c.replicas.placed
                here)))
    ]

pub set_replica_states-IsConsistent :
    (ids : List ℕ) (wanted : ReplicaState) (db : Database) (r : List Replica × Database)
    → Replicas.set_replica_states ids wanted db ≡ ok r
    → IsConsistent db
    → IsConsistent r.1
set_replica_states-IsConsistent ids wanted db r h c =
    elim (set_replica_states-eq-ok ids wanted db h) [
      | inl e ↦ rw e c
      | inr (other, _, e) ↦ rw e (
          IsConsistent-replicas db _ c refl refl refl (
            ReplicasAreValid-update_where db.versions db.nodes _ wanted db.replicas other
              c.replicas))
    ]

-- A verified row is saved in place of the one that was read.
module _ (x : Replica) (v : Version) (now : ℕ) (db db' : Database) (c : IsConsistent db)
    (found : find replica_key x.replica_id db.replicas ≡ some x)
    (version : version_at x.version_id db ≡ some v) where
  verified-IsConsistent :
      db'.objects ≡ db.objects
      → db'.versions ≡ db.versions
      → db'.nodes ≡ db.nodes
      → db'.replicas ≡ save replica_key (verified v.checksum v.size_bytes now x) db.replicas
      → IsConsistent db'
  verified-IsConsistent same_objects same_versions same_nodes e =
      IsConsistent-replicas db db' c same_objects same_versions same_nodes (
        rw e (
          ReplicasAreValid-save db.versions db.nodes (verified v.checksum v.size_bytes now x)
            db.replicas c.replicas found refl refl (v, version, λ _. (refl, refl))
            (All-find replica_key (IsPlaced db.nodes) x.replica_id db.replicas c.replicas.placed
              found)))

pub record_replica_verification-IsConsistent :
    (replica_id : ℕ) (checksum : Text) (size : ℤ) (db : Database) (r : Replica × Database)
    → Replicas.record_replica_verification replica_id checksum size db ≡ ok r
    → IsConsistent db
    → IsConsistent r.1
record_replica_verification-IsConsistent replica_id checksum size db r h c =
    let (x, v, found, version, _, row, e) =
      record_replica_verification-eq-ok replica_id checksum size db h in
    let here = find_self replica_key replica_id db.replicas found in
    rw (e, row)
      (verified-IsConsistent x v (db.times db.times_read) db _ c here version refl refl refl refl)

pub mark_replica_healthy-IsConsistent :
    (replica_id : ℕ) (checksum : Text) (size : ℤ) (db : Database) (r : Replica × Database)
    → Replicas.mark_replica_healthy replica_id checksum size db ≡ ok r
    → IsConsistent db
    → IsConsistent r.1
mark_replica_healthy-IsConsistent replica_id checksum size db r h c =
    let (x, v, found, version, _, row, e) =
      mark_replica_healthy-eq-ok replica_id checksum size db h in
    let here = find_self replica_key replica_id db.replicas found in
    rw (e, row)
      (verified-IsConsistent x v (db.times db.times_read) db _ c here version refl refl refl refl)

pub remove_replica-IsConsistent :
    (replica_id : ℕ) (db : Database) (r : Replica × Database)
    → Replicas.remove_replica replica_id db ≡ ok r
    → IsConsistent db
    → IsConsistent r.1
remove_replica-IsConsistent replica_id db r h c =
    let (_, _, e) = remove_replica-eq-ok replica_id db h in
    rw e (
      IsConsistent-replicas db _ c refl refl refl
        (ReplicasAreValid-remove db.versions db.nodes replica_id db.replicas c.replicas))
