-- ===== src/Integrity/Verify.antt =====
-- integrity/manager.py: `verify_replica`.
use ps.Prelude.{
  ℕ, pos, Bool, true, false, ◌&&◌, Option, none, some, ◌==◌, if◌then◌else◌, nat_eq, text_eq,
}
use ps.Common.Text.{Text, lower}
use ps.Common.Constants.{
  NodeState, ReplicaState, VersionState, node_state_eq, replica_state_eq, version_state_eq,
}
use ps.Common.Errors.{VaultError, Result, vault, or_raise}
use ps.Common.Validation.{is_empty}
use ps.Metadata.Models.{Version, StorageNode, Replica, RepairJob, Database, replica_at}
use ps.Metadata.Replicas.{set_replica_state, record_replica_verification}
use ps.Metadata.Session.{Session, pure, reading, calling, ◌>>=◌, ◌>>◌}
use ps.Replication.Writes.{Verification}
use ps.Maintenance.Clients.{NodeClient, ClientFactory}
use ps.Maintenance.Rows.{find_version, find_node}
use ps.Repair.Queries.{RepairManager}
use ps.Repair.Scheduling.{schedule_for_version}

pub record IntegrityResult : Type 0 where
  pub replica_id : ℕ
  pub version_id : ℕ
  pub node_id : Text
  pub checked : Bool
  pub corrupted : Bool
  pub repair_id : Option ℕ
  pub checksum : Option Text
  pub size_bytes : Option ℕ

-- `repairs` is what `repair_manager_factory` makes.
pub record IntegrityManager : Type 0 where
  pub replication_factor : ℕ
  pub max_attempts : ℕ
  pub repairs : RepairManager

abbrev pub find_replica : ℕ → Database → Result Replica
find_replica replica_id db = or_raise (replica_at replica_id db) (vault VaultError.not_found)

abbrev pub unchecked : Replica → IntegrityResult
unchecked replica = record {
  replica_id = replica.replica_id;
  version_id = replica.version_id;
  node_id = replica.node_id;
  checked = false;
  corrupted = false;
  repair_id = none;
  checksum = none;
  size_bytes = none;
}

-- `replica.checksum or version.checksum`
abbrev pub expected_checksum : Option Text → Text → Text
expected_checksum none version_checksum = version_checksum
expected_checksum (some checksum) version_checksum =
    if is_empty checksum then version_checksum else checksum

abbrev pub expected_size : Option ℕ → ℕ → ℕ
expected_size none version_size = version_size
expected_size (some size) version_size = size

unfoldable pub is_match : Replica → Version → Verification → Bool
is_match replica version measured =
    (measured.verified && measured.valid)
    && (lower measured.checksum == lower (expected_checksum replica.checksum version.checksum))
    && (lower measured.checksum == lower version.checksum)
    && (measured.size_bytes == expected_size replica.size_bytes version.size_bytes)
    && (measured.size_bytes == version.size_bytes)

abbrev pub repair_id_of : Option RepairJob → Option ℕ
repair_id_of none = none
repair_id_of (some job) = some job.repair_id

abbrev pub checked_result : Replica → Verification → Bool → Option ℕ → IntegrityResult
checked_result replica measured corrupted repair_id = record {
  replica_id = replica.replica_id;
  version_id = replica.version_id;
  node_id = replica.node_id;
  checked = true;
  corrupted = corrupted;
  repair_id = repair_id;
  checksum = some (lower measured.checksum);
  size_bytes = some measured.size_bytes;
}

-- A mismatch: the replica is CORRUPTED, and a repair of the version is scheduled, in place if the
-- node can take it.
unfoldable pub report_corruption :
    IntegrityManager → Version → Replica → Verification → Session IntegrityResult
report_corruption manager version replica measured = do
  marked ← calling (set_replica_state replica.replica_id ReplicaState.corrupted)
  job ←
      schedule_for_version manager.repairs version.version_id
        (some (pos manager.replication_factor)) (some marked)
  pure (checked_result replica measured true (repair_id_of job))

unfoldable pub report_match : Replica → Verification → Session IntegrityResult
report_match replica measured = do
  calling (
      record_replica_verification replica.replica_id (lower measured.checksum)
        (pos measured.size_bytes))
  pure (checked_result replica measured false none)

-- The call with `raise_on_invalid=False`, and what follows it.
unfoldable pub inspect : IntegrityManager → NodeClient → Version → Replica → Session IntegrityResult
unfolding report_corruption report_match is_match
inspect manager client version replica = do
  measured ← reading (λ db. client.verify_object version.object_id version.version_id)
  if is_match replica version measured
      then report_match replica measured
      else report_corruption manager version replica measured

abbrev pub is_inspected : Version → StorageNode → Replica → Bool
is_inspected version node replica =
    (version.state == VersionState.committed)
    && (node.status == NodeState.healthy)
    && (replica.status == ReplicaState.healthy)

unfoldable pub verify_replica : IntegrityManager → ClientFactory → ℕ → ℕ → Session IntegrityResult
unfolding inspect
verify_replica manager clients now replica_id = do
  replica ← reading (find_replica replica_id)
  version ← reading (find_version replica.version_id)
  node ← reading (find_node replica.node_id)
  if is_inspected version node replica
      then inspect manager (clients now node.address) version replica
      else pure (unchecked replica)
