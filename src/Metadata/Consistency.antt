-- ===== src/Metadata/Consistency.antt =====
-- The invariant of the database: what the constraints of metadata/models.py declare and what the
-- operations of `MetadataManager` add to them.
pub mod Nodes
pub mod Versions
pub mod Objects
pub mod Commit
pub mod Preserved
pub mod Replicas
use ps.Prelude.{ℕ, ◌≤◌, ◌<◌, ◌≡◌, Option, none, some, List, All, nat_eq, text_eq, pair_eq}
use ps.Table.{find, IsUnique}
use ps.Common.Constants.{VersionState, ReplicaState}
use ps.Metadata.Models.{
  Object, Version, StorageNode, Replica, Database, object_key, object_name, version_key, node_key,
  node_address, replica_key, replica_slot,
}
use ps.Metadata.Checks.{number_or_zero}

-- `UniqueConstraint("object_id", "version_number")`
abbrev pub version_slot : Version → ℕ × ℕ
version_slot v = (v.object_id, v.version_number)

abbrev pub HasObject : List Object → Version → Type 0
HasObject objects v = (o : Object) × (find object_key v.object_id objects ≡ some o)

pub record VersionsAreValid (objects : List Object) (versions : List Version) : Type 0 where
  pub key : IsUnique version_key versions
  pub slot : IsUnique version_slot versions
  pub numbered : All (λ v. 0 < v.version_number) versions
  pub owned : All (HasObject objects) versions

-- The number of the version that an object points to, if that is a committed version of it.
abbrev pub PointsTo : List Version → Object → Option ℕ → Option ℕ → Type 0
PointsTo versions o none number = number ≡ none
PointsTo versions o (some version_id) number =
    (v : Version) × (find version_key version_id versions ≡ some v)
    × (v.object_id ≡ o.object_id)
    × (v.state ≡ VersionState.committed)
    × (number ≡ some v.version_number)

-- The current version of an object is committed, and no committed version of it has a higher number.
abbrev pub IsLatest : List Version → Object → Type 0
IsLatest versions o =
    (number : Option ℕ) × PointsTo versions o o.current_version_id number
    × All
        (λ (w : Version).
          w.object_id ≡ o.object_id
          → w.state ≡ VersionState.committed
          → w.version_number ≤ number_or_zero number)
        versions

pub record ObjectsAreValid (versions : List Version) (objects : List Object) : Type 0 where
  pub key : IsUnique object_key objects
  pub name : IsUnique object_name objects
  pub latest : All (IsLatest versions) objects

pub record NodesAreValid (nodes : List StorageNode) : Type 0 where
  pub key : IsUnique node_key nodes
  pub address : IsUnique node_address nodes
  pub within : All (λ n. n.used_bytes ≤ n.capacity_bytes) nodes

-- The version and the node of a replica exist, and one that is HEALTHY has the version's checksum
-- and size.
abbrev pub IsCertified : List Version → Replica → Type 0
IsCertified versions r =
    (v : Version) × (find version_key r.version_id versions ≡ some v)
    × (r.status ≡ ReplicaState.healthy
        → (r.checksum ≡ some v.checksum) × (r.size_bytes ≡ some v.size_bytes))

abbrev pub IsPlaced : List StorageNode → Replica → Type 0
IsPlaced nodes r = (n : StorageNode) × (find node_key r.node_id nodes ≡ some n)

pub record ReplicasAreValid (versions : List Version) (nodes : List StorageNode)
    (replicas : List Replica) : Type 0 where
  pub key : IsUnique replica_key replicas
  pub slot : IsUnique replica_slot replicas
  pub certified : All (IsCertified versions) replicas
  pub placed : All (IsPlaced nodes) replicas

pub record IsConsistent (db : Database) : Type 0 where
  pub objects : ObjectsAreValid db.versions db.objects
  pub versions : VersionsAreValid db.objects db.versions
  pub nodes : NodesAreValid db.nodes
  pub replicas : ReplicasAreValid db.versions db.nodes db.replicas
