-- ===== src/Metadata/Models.antt =====
-- metadata/models.py: a record for each mapped class. The columns `created_at` and `updated_at`,
-- which no operation reads, and the relationships are left out. A UUID is its number, a timestamp
-- the number of microseconds from a fixed instant in UTC.
use ps.Prelude.{ℕ, ◌-◌, Option, List, nat_eq, text_eq, pair_eq}
use ps.Table.{find}
use ps.Common.Text.{Text}
use ps.Common.Constants.{ObjectState, VersionState, NodeState, ReplicaState, JobStatus}

pub record Object : Type 0 where
  pub object_id : ℕ
  pub name : Text
  pub current_version_id : Option ℕ
  pub state : ObjectState

pub record Version : Type 0 where
  pub version_id : ℕ
  pub object_id : ℕ
  pub version_number : ℕ
  pub size_bytes : ℕ
  pub checksum : Text
  pub state : VersionState
  pub committed_at : Option ℕ

pub record StorageNode : Type 0 where
  pub node_id : Text
  pub address : Text
  pub status : NodeState
  pub capacity_bytes : ℕ
  pub used_bytes : ℕ
  pub last_heartbeat_at : Option ℕ

-- `max(0, capacity_bytes - used_bytes)`: the subtraction of naturals stops at 0 too.
abbrev pub free_bytes : StorageNode → ℕ
free_bytes n = n.capacity_bytes - n.used_bytes

pub record Replica : Type 0 where
  pub replica_id : ℕ
  pub version_id : ℕ
  pub node_id : Text
  pub status : ReplicaState
  pub checksum : Option Text
  pub size_bytes : Option ℕ
  pub last_verified_at : Option ℕ

pub record RepairJob : Type 0 where
  pub repair_id : ℕ
  pub version_id : ℕ
  pub source_node_id : Text
  pub target_node_id : Text
  pub status : JobStatus
  pub attempts : ℕ

pub record IntegrityJob : Type 0 where
  pub integrity_id : ℕ
  pub node_id : Option Text
  pub version_id : Option ℕ
  pub status : JobStatus
  pub attempts : ℕ
  pub checked_count : ℕ
  pub corrupted_count : ℕ

pub record RebalanceJob : Type 0 where
  pub rebalance_id : ℕ
  pub version_id : ℕ
  pub source_node_id : Text
  pub target_node_id : Text
  pub status : JobStatus
  pub attempts : ℕ

-- The database as a session sees it, with what the operations take from outside: the values that
-- `uuid4` returns one after another, those of the clock, and how many of each have been used.
pub record Database : Type 0 where
  pub objects : List Object
  pub versions : List Version
  pub nodes : List StorageNode
  pub replicas : List Replica
  pub repair_jobs : List RepairJob
  pub integrity_jobs : List IntegrityJob
  pub rebalance_jobs : List RebalanceJob
  pub uuids : ℕ → ℕ
  pub drawn : ℕ
  pub times : ℕ → ℕ
  pub times_read : ℕ

-- The columns that rows are found by.
abbrev pub object_key : Object → ℕ
object_key o = o.object_id

abbrev pub object_name : Object → Text
object_name o = o.name

abbrev pub version_key : Version → ℕ
version_key v = v.version_id

abbrev pub node_key : StorageNode → Text
node_key n = n.node_id

abbrev pub node_address : StorageNode → Text
node_address n = n.address

abbrev pub replica_key : Replica → ℕ
replica_key r = r.replica_id

abbrev pub replica_slot : Replica → ℕ × Text
replica_slot r = (r.version_id, r.node_id)

-- Rows by their primary keys.
abbrev pub object_at : ℕ → Database → Option Object
object_at object_id db = find object_key object_id db.objects

abbrev pub version_at : ℕ → Database → Option Version
version_at version_id db = find version_key version_id db.versions

abbrev pub node_at : Text → Database → Option StorageNode
node_at node_id db = find node_key node_id db.nodes

abbrev pub replica_at : ℕ → Database → Option Replica
replica_at replica_id db = find replica_key replica_id db.replicas

abbrev pub replica_on : ℕ → Text → Database → Option Replica
replica_on version_id node_id db = find replica_slot (version_id, node_id) db.replicas
