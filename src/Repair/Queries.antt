-- ===== src/Repair/Queries.antt =====
-- repair/manager.py: what the scheduling of repairs reads, and the row of a new job.
use ps.Prelude.{
  ℕ, ℤ, ◌+◌, Bool, true, false, not, ◌&&◌, ◌||◌, Option, none, some, List, ◌==◌, select, find_first,
  first, sort_by, ltb, leb, nat_eq, text_eq, pair_eq,
}
use ps.Common.Text.{Text, text_ltb}
use ps.Common.Constants.{
  JobStatus, NodeState, ReplicaState, ErrorCode, node_state_eq, replica_state_eq,
}
use ps.Common.Errors.{VaultError, Result, ok, vault, value_error, raise_if, or_raise, ◌>>=◌, ◌>>◌}
use ps.Metadata.Models.{
  Version, StorageNode, Replica, RepairJob, Database, free_bytes, node_at, replica_on,
}
use ps.Metadata.Checks.{flush_new}
use ps.Placement.{validate_factor, is_eligible, order_nodes}
use ps.Maintenance.Rows.{has_checksum, is_active, version_must_exist}

pub record RepairManager : Type 0 where
  pub max_attempts : ℕ
  pub replication_factor : ℕ

-- `__init__`, which tests both numbers like the factor of a placement; the settings that stand for
-- a missing number are the caller's.
unfoldable pub new_manager : ℤ → ℤ → Result RepairManager
unfolding validate_factor
new_manager max_attempts replication_factor = do
  attempts ← validate_factor max_attempts
  factor ← validate_factor replication_factor
  ok (record { max_attempts = attempts; replication_factor = factor })

abbrev pub repair_key : RepairJob → ℕ
repair_key job = job.repair_id

-- `last_verified_at.desc()`, where PostgreSQL puts a missing time first.
abbrev pub is_later : Option ℕ → Option ℕ → Bool
is_later none none = false
is_later none (some b) = true
is_later (some a) none = false
is_later (some a) (some b) = ltb b a

unfoldable pub is_fresher : Replica → Replica → Bool
is_fresher a b =
    is_later a.last_verified_at b.last_verified_at
    || (not (is_later b.last_verified_at a.last_verified_at) && text_ltb a.node_id b.node_id)

unfoldable pub healthy_sources : ℕ → Database → List Replica
unfolding is_fresher
healthy_sources version_id db =
    select (λ (r : Replica). has_checksum r.checksum)
      (sort_by is_fresher (
        select (λ (r : Replica). (r.version_id == version_id) && (r.status == ReplicaState.healthy))
          db.replicas))

-- The node of the replica that is to be repaired in place, if it can take the version.
unfoldable pub preferred_node : Version → Option Replica → Database → Option StorageNode
preferred_node version none db = none
preferred_node version (some replica) db =
    find_first
      (λ (n : StorageNode).
        (n.node_id == replica.node_id)
        && (n.status == NodeState.healthy)
        && leb version.size_bytes (free_bytes n))
      db.nodes

-- The query for another node: its `where` and `order by` are those of the placement.
unfoldable pub new_target : Version → Database → Option StorageNode
new_target version db =
    first (order_nodes (select (is_eligible version.version_id version.size_bytes db) db.nodes))

abbrev pub or_new_target : Option StorageNode → Version → Database → Result StorageNode
or_new_target (some node) version db = ok node
or_new_target none version db =
    or_raise (new_target version db) (vault (VaultError.plain ErrorCode.insufficient_replicas 503))

unfoldable pub target_for_version : Version → Option Replica → Database → Result StorageNode
unfolding preferred_node
target_for_version version preferred_replica db =
    or_new_target (preferred_node version preferred_replica db) version db

abbrev pub is_active_for : ℕ → Text → RepairJob → Bool
is_active_for version_id target_node_id job =
    (job.version_id == version_id) && (job.target_node_id == target_node_id) && is_active job.status

unfoldable pub active_job : ℕ → Text → Database → Option RepairJob
active_job version_id target_node_id db =
    find_first (is_active_for version_id target_node_id) db.repair_jobs

abbrev pub is_corrupted : Option Replica → Bool
is_corrupted none = false
is_corrupted (some replica) = replica.status == ReplicaState.corrupted

-- Only a corrupted replica may be its own node's target.
unfoldable pub check_nodes : ℕ → Text → Text → Database → Result (Unit {0})
check_nodes version_id source_node_id target_node_id db =
    raise_if
      ((source_node_id == target_node_id)
        && not (is_corrupted (replica_on version_id target_node_id db)))
      value_error

abbrev pub new_job : ℕ → ℕ → Text → Text → RepairJob
new_job repair_id version_id source_node_id target_node_id = record {
  repair_id = repair_id;
  version_id = version_id;
  source_node_id = source_node_id;
  target_node_id = target_node_id;
  status = JobStatus.pending;
  attempts = 0;
}

unfoldable pub add_job : ℕ → Text → Text → Database → Result (RepairJob × Database)
add_job version_id source_node_id target_node_id db = do
  source ← or_raise (node_at source_node_id db) (vault VaultError.not_found)
  target ← or_raise (node_at target_node_id db) (vault VaultError.not_found)
  version_must_exist version_id db
  let job = new_job (db.uuids db.drawn) version_id source_node_id target_node_id
  jobs ← flush_new repair_key job db.repair_jobs
  ok (job, record db { repair_jobs = jobs; drawn = db.drawn + 1 })
