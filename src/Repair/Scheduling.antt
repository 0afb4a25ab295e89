-- ===== src/Repair/Scheduling.antt =====
-- repair/manager.py: which job is created for a version that has too few replicas.
use ps.Prelude.{ℕ, ℤ, pos, Bool, not, ◌&&◌, Option, none, some, if◌then◌else◌, is_some, first, leb}
use ps.Common.Text.{Text}
use ps.Common.Constants.{ErrorCode}
use ps.Common.Errors.{VaultError, ok, vault, or_raise}
use ps.Metadata.Models.{Version, Replica, RepairJob}
use ps.Metadata.Session.{Session, pure, reading, calling, ◌>>=◌, ◌>>◌}
use ps.Placement.{validate_factor, chosen_factor}
use ps.Replication.Commit.{healthy_replica_count}
use ps.Maintenance.Rows.{find_version}
use ps.Repair.Queries.{
  RepairManager, healthy_sources, target_for_version, active_job, check_nodes, add_job,
}

abbrev pub or_add_job : Option RepairJob → ℕ → Text → Text → Session RepairJob
or_add_job (some job) version_id source_node_id target_node_id = pure job
or_add_job none version_id source_node_id target_node_id =
    calling (add_job version_id source_node_id target_node_id)

unfoldable pub create_job : ℕ → Text → Text → Session RepairJob
create_job version_id source_node_id target_node_id = do
  reading (check_nodes version_id source_node_id target_node_id)
  active ← reading (λ db. ok (active_job version_id target_node_id db))
  or_add_job active version_id source_node_id target_node_id

abbrev pub or_create_job : Option RepairJob → ℕ → Text → Text → Session RepairJob
or_create_job (some job) version_id source_node_id target_node_id = pure job
or_create_job none version_id source_node_id target_node_id =
    create_job version_id source_node_id target_node_id

-- From the choice of the source on.
unfoldable pub schedule_repair : Version → Option Replica → Session (Option RepairJob)
unfolding create_job
schedule_repair version preferred_replica = do
  source ← reading (λ db.
      or_raise (first (healthy_sources version.version_id db))
        (vault (VaultError.plain ErrorCode.node_unavailable 503)))
  target ← reading (target_for_version version preferred_replica)
  existing ← reading (λ db. ok (active_job version.version_id target.node_id db))
  job ← or_create_job existing version.version_id source.node_id target.node_id
  pure (some job)

-- The version has its replicas, and none is to be repaired in place.
abbrev pub is_served : ℕ → ℕ → Option Replica → Bool
is_served factor healthy_count preferred_replica =
    leb factor healthy_count && not (is_some preferred_replica)

unfoldable pub schedule_for_version :
    RepairManager → ℕ → Option ℤ → Option Replica → Session (Option RepairJob)
unfolding schedule_repair
schedule_for_version manager version_id replication_factor preferred_replica = do
  factor ←
      reading
        (λ db. validate_factor (chosen_factor replication_factor (pos manager.replication_factor)))
  version ← reading (find_version version_id)
  healthy_count ← reading (λ db. ok (healthy_replica_count version_id db.replicas))
  if is_served factor healthy_count preferred_replica
      then pure none
      else schedule_repair version preferred_replica
