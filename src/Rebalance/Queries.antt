-- ===== src/Rebalance/Queries.antt =====
-- rebalance/manager.py: what a migration reads and checks, and the row of a new job.
use ps.Prelude.{
  ℕ, ℤ, ◌+◌, Bool, false, not, ◌&&◌, Option, none, some, List, map, ◌==◌, select, is_some,
  find_first, first, sort_by, ltb, nat_eq, text_eq, pair_eq,
}
use ps.Common.Text.{Text}
use ps.Common.Constants.{
  JobStatus, NodeState, ReplicaState, VersionState, ErrorCode, node_state_eq, replica_state_eq,
  version_state_eq,
}
use ps.Common.Errors.{VaultError, Result, ok, vault, value_error, raise_if, or_raise, ◌>>=◌, ◌>>◌}
use ps.Metadata.Models.{
  Version, StorageNode, Replica, RebalanceJob, Database, free_bytes, version_at, node_at,
  replica_on,
}
use ps.Metadata.Checks.{flush_new, mem}
use ps.Placement.{validate_factor, is_eligible, order_nodes}
use ps.Replication.Writes.{Verification}
use ps.Maintenance.Clients.{is_version}
use ps.Maintenance.Rows.{find_node, is_active}
use ps.Repair.Queries.{is_fresher}

pub record RebalanceManager : Type 0 where
  pub replication_factor : ℕ
  pub max_attempts : ℕ

-- `__init__`; the settings that stand for a missing number are the caller's.
unfoldable pub new_rebalancer : ℤ → ℤ → Result RebalanceManager
unfolding validate_factor
new_rebalancer replication_factor max_attempts = do
  factor ← validate_factor replication_factor
  attempts ← validate_factor max_attempts
  ok (record { replication_factor = factor; max_attempts = attempts })

abbrev pub rebalance_key : RebalanceJob → ℕ
rebalance_key job = job.rebalance_id

-- `_version`
unfoldable pub committed_version : ℕ → Database → Result Version
committed_version version_id db = do
  version ← or_raise (version_at version_id db) (vault VaultError.not_found)
  raise_if (not (version.state == VersionState.committed)) (vault VaultError.invalid_state)
  ok version

-- The first by `created_at`: rows stand in the order in which they were added.
unfoldable pub active_migration : ℕ → Text → Database → Option RebalanceJob
active_migration version_id target_node_id db =
    find_first
      (λ (job : RebalanceJob).
        (job.version_id == version_id)
        && (job.target_node_id == target_node_id)
        && is_active job.status)
      db.rebalance_jobs

-- `_eligible_target`, whose `where` and `order by` are those of the placement.
unfoldable pub eligible_target : Version → List Text → Database → Result StorageNode
eligible_target version excluded_node_ids db =
    or_raise
      (first (
        order_nodes (
          select
            (λ (n : StorageNode).
              is_eligible version.version_id version.size_bytes db n
              && not (mem n.node_id excluded_node_ids))
            db.nodes)))
      (vault (VaultError.plain ErrorCode.insufficient_replicas 503))

-- The checks of `create_job`.
unfoldable pub check_migration : ℕ → Text → Text → Database → Result (Unit {0})
unfolding committed_version
check_migration version_id source_node_id target_node_id db = do
  version ← committed_version version_id db
  raise_if (source_node_id == target_node_id) value_error
  source ← find_node source_node_id db
  target ← find_node target_node_id db
  replica ← or_raise (replica_on version_id source_node_id db) (vault VaultError.not_found)
  raise_if (not (replica.status == ReplicaState.healthy)) (vault VaultError.invalid_state)
  raise_if (not (target.status == NodeState.healthy))
      (vault (VaultError.plain ErrorCode.node_unavailable 503))
  raise_if (ltb (free_bytes target) version.size_bytes)
      (vault (VaultError.plain ErrorCode.storage_full 507))
  raise_if (is_some (replica_on version_id target_node_id db)) (vault VaultError.invalid_state)

abbrev pub new_migration : ℕ → ℕ → Text → Text → RebalanceJob
new_migration rebalance_id version_id source_node_id target_node_id = record {
  rebalance_id = rebalance_id;
  version_id = version_id;
  source_node_id = source_node_id;
  target_node_id = target_node_id;
  status = JobStatus.pending;
  attempts = 0;
}

unfoldable pub add_migration : ℕ → Text → Text → Database → Result (RebalanceJob × Database)
add_migration version_id source_node_id target_node_id db = do
  let job = new_migration (db.uuids db.drawn) version_id source_node_id target_node_id
  jobs ← flush_new rebalance_key job db.rebalance_jobs
  ok (job, record db { rebalance_jobs = jobs; drawn = db.drawn + 1 })

-- `_matches_metadata`
abbrev pub matches_metadata : Version → Verification → Bool
matches_metadata version measured =
    measured.verified && measured.valid && is_version version measured

abbrev pub is_on : Text → Replica → Bool
is_on node_id r = r.node_id == node_id

abbrev pub is_committed : Option Version → Bool
is_committed none = false
is_committed (some version) = version.state == VersionState.committed

-- The join with the versions.
abbrev pub is_committed_in : Database → Replica → Bool
is_committed_in db r = is_committed (version_at r.version_id db)

-- The committed replicas of a node, by their identifiers.
unfoldable pub replicas_to_drain : Text → Database → List ℕ
replicas_to_drain node_id db = sort_by ltb (
    map (λ (r : Replica). r.replica_id)
      (select (λ (r : Replica). is_on node_id r && is_committed_in db r) db.replicas))

-- `_source_for_version`
abbrev is_healthy_node : Option StorageNode → Bool
is_healthy_node none = false
is_healthy_node (some node) = node.status == NodeState.healthy

unfoldable pub source_for_version : ℕ → Text → Database → Result Replica
unfolding is_fresher
source_for_version version_id excluded_node_id db =
    or_raise
      (first (
        sort_by is_fresher (
          select
            (λ (r : Replica).
              (r.version_id == version_id)
              && not (r.node_id == excluded_node_id)
              && (r.status == ReplicaState.healthy)
              && is_healthy_node (node_at r.node_id db)
              && is_some r.checksum)
            db.replicas)))
      (vault (VaultError.plain ErrorCode.node_unavailable 503))
