-- ===== src/Worker/Tasks.antt =====
-- worker/tasks.py: the tasks that repair, verify and migrate, and the tasks that they queue. What a
-- task returns is only reported and left out.
use ps.Prelude.{
  ℕ, pos, ◌&&◌, Option, none, some, List, [], ◌∷◌, ◌++◌, ◌==◌, select, sort_by, ltb, nat_eq,
}
use ps.Common.Text.{Text}
use ps.Common.Constants.{ErrorCode, VersionState, version_state_eq}
use ps.Common.Errors.{VaultError, Failure, ok, vault, or_raise}
use ps.Metadata.Models.{Version, Replica, RepairJob, Database, replica_at}
use ps.Metadata.Session.{Session, pure, reading, ◌>>=◌, ◌>>◌}
use ps.Metadata.Triples.{attempt}
use ps.Replication.Commit.{healthy_replica_count}
use ps.Maintenance.Clients.{ClientFactory}
use ps.Repair.Queries.{RepairManager}
use ps.Repair.Scheduling.{schedule_for_version}
use ps.Repair.Rounds.{repair_version_until_healthy}
use ps.Rebalance.Queries.{RebalanceManager}
use ps.Integrity.Verify.{IntegrityManager, IntegrityResult}
use ps.Health.Detector.{FailureDetector}
use ps.Recovery.Reconcile.{PartitionRecoveryManager}
use ps.Repair.Execution
use ps.Rebalance.Migration
use ps.Rebalance.Drain
use ps.Integrity.Verify
use ps.Integrity.Jobs

-- The tasks by the names that they are registered with, and their arguments.
pub data Task : Type 0 where
  repair_version : ℕ → Option ℕ → Task
  verify_replica : ℕ → Task
  scan_node : Text → Task
  check_under_replicated_objects : Task
  rebalance_node : Text → Task
  migrate_replica : ℕ → Text → Option ℕ → Task
  process_node_health : Task
  run_integrity_check : ℕ → Task
  scan_all_integrity : Task

-- The managers that the settings give, the clients of the storage nodes, the rounds that a repair
-- may take, and more than a node has replicas.
pub record Worker : Type 0 where
  pub replication_factor : ℕ
  pub repairs : RepairManager
  pub integrity : IntegrityManager
  pub rebalance : RebalanceManager
  pub recovery : PartitionRecoveryManager
  pub detector : FailureDetector
  pub clients : ClientFactory
  pub fuel : ℕ
  pub step : ℕ

-- What a run of a task has queued, and the exception that it ended with.
pub record Performed : Type 0 where
  pub queued : List Task
  pub error : Option Failure

abbrev pub returned : List Task → Performed
returned queued = record { queued = queued; error = none }

abbrev pub ended_with : Failure → Session Performed
ended_with failure = pure (record { queued = []; error = some failure })

-- A task that queues only after the last call that may raise.
abbrev pub performed : Session (List Task) → Session Performed
performed body = attempt (do queued ← body; pure (returned queued)) ended_with

-- `repair_version.apply_async`, for a result with a repair.
abbrev pub repair_for : ℕ → Option ℕ → List Task
repair_for version_id none = []
repair_for version_id (some repair_id) = Task.repair_version version_id (some repair_id) ∷ []

abbrev pub repairs_for : List IntegrityResult → List Task
repairs_for [] = []
repairs_for (r ∷ rs) = repair_for r.version_id r.repair_id ++ repairs_for rs

abbrev pub repair_of : Option RepairJob → List Task
repair_of none = []
repair_of (some job) = Task.repair_version job.version_id (some job.repair_id) ∷ []

-- The query of `check_under_replicated_objects`.
unfoldable pub under_replicated : ℕ → Database → List Version
under_replicated factor db =
    sort_by (λ (a b : Version). ltb a.version_id b.version_id)
      (select
        (λ (v : Version).
          (v.state == VersionState.committed)
          && ltb (healthy_replica_count v.version_id db.replicas) factor)
        db.versions)

module _ (w : Worker) (now : ℕ) where
  unfoldable pub run_repair_version : ℕ → Option ℕ → Session (List Task)
  run_repair_version version_id (some repair_id) = do
    ps.Repair.Execution.run_job w.repairs w.clients now repair_id
    pure []
  run_repair_version version_id none = do
    repair_version_until_healthy w.repairs w.clients w.fuel now version_id
        (some (pos w.replication_factor))
    pure []

  unfoldable pub run_verify_replica : ℕ → Session (List Task)
  run_verify_replica replica_id = do
    result ← ps.Integrity.Verify.verify_replica w.integrity w.clients now replica_id
    pure (repair_for result.version_id result.repair_id)

  unfoldable pub run_scan_node : Text → Session (List Task)
  run_scan_node node_id = do
    results ← ps.Integrity.Jobs.scan_node w.integrity w.clients now node_id
    pure (repairs_for results)

  -- A domain error blocks one version; any other exception ends the task.
  abbrev pub blocked : Failure → Session Performed
  blocked (vault e) = pure (returned [])
  blocked failure = ended_with failure

  unfoldable pub schedule_version : Version → Session Performed
  schedule_version version =
      attempt
        (do
          job ←
              schedule_for_version w.repairs version.version_id (some (pos w.replication_factor))
                none
          pure (returned (repair_of job)))
        blocked

  abbrev pub and_then : Session Performed → Performed → Session Performed
  and_then rest so_far = elim so_far.error [
    | none ↦ do
      more ← rest
      pure (record { queued = so_far.queued ++ more.queued; error = more.error })
    | some failure ↦ pure so_far
  ]

  unfoldable pub schedule_versions : List Version → Session Performed
  unfolding schedule_version
  schedule_versions [] = pure (returned [])
  schedule_versions (version ∷ versions) = do
    so_far ← schedule_version version
    and_then (schedule_versions versions) so_far

  unfoldable pub run_check_under_replicated_objects : Session Performed
  unfolding under_replicated schedule_versions
  run_check_under_replicated_objects = do
    versions ← reading (λ db. ok (under_replicated w.replication_factor db))
    schedule_versions versions

  unfoldable pub run_rebalance_node : Text → Session (List Task)
  run_rebalance_node node_id = do
    ps.Rebalance.Drain.drain_node w.rebalance w.clients node_id now
    pure []

  abbrev pub run_migration : Replica → Text → Option ℕ → Session (List Task)
  run_migration replica target_node_id none = do
    ps.Rebalance.Migration.migrate_replica w.rebalance w.clients now replica.version_id
        replica.node_id target_node_id
    pure []
  run_migration replica target_node_id (some rebalance_id) = do
    ps.Rebalance.Migration.run_job w.rebalance w.clients now rebalance_id
    pure []

  unfoldable pub run_migrate_replica : ℕ → Text → Option ℕ → Session (List Task)
  run_migrate_replica replica_id target_node_id rebalance_id = do
    replica ← reading (λ db.
        or_raise (replica_at replica_id db)
          (vault (VaultError.plain ErrorCode.object_not_found 404)))
    run_migration replica target_node_id rebalance_id

  unfoldable pub run_run_integrity_check : ℕ → Session (List Task)
  run_run_integrity_check integrity_id = do
    result ← ps.Integrity.Jobs.run_job w.integrity w.clients w.step now integrity_id
    pure (repairs_for result.1)

  unfoldable pub run_scan_all_integrity : Session (List Task)
  run_scan_all_integrity = do
    job ← ps.Integrity.Jobs.create_check none none
    pure (Task.run_integrity_check job.integrity_id ∷ [])
