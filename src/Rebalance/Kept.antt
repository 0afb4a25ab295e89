-- ===== src/Rebalance/Kept.antt =====
-- What a migration keeps, whether it returns or raises: whatever each of its writes keeps.
use ps.Prelude.{ℕ, ℤ, ◌≡◌, refl, false, Option, none, some}
use ps.Common.Text.{Text}
use ps.Common.Constants.{ReplicaState, JobStatus}
use ps.Common.Errors.{Failure, vault, node_error, value_error, type_error, integrity_error}
use ps.Metadata.Models.{Version, Replica, RebalanceJob, Database}
use ps.Metadata.Replicas.{
  replica_transition, create_replica, set_replica_state, mark_replica_healthy, remove_replica,
}
use ps.Metadata.Session.{calling}
use ps.Metadata.Triples.{updating, Stays, stays}
use ps.Maintenance.Clients.{NodeClient, ClientFactory}
use ps.Rebalance.Queries.{RebalanceManager, add_migration}
use ps.Rebalance.Migration.{
  or_add_migration, create_migration, save_job, mark_job, or_create, repair_then_copy,
  enter_copying, target_replica, recheck, has_copy, copy_over, remove_found, remove_source,
  move_replica, on_failure, run_started, execute, run_job, migrate_replica,
}

-- The writes of a copy: no state is set that a HEALTHY replica may enter.
pub record CopyKeeps {μ} (P : Database → Type μ) : Type μ where
  pub create : (v : ℕ) (n : Text) → Stays P (calling (create_replica v n))
  pub set :
      (i : ℕ) (s : ReplicaState)
      → replica_transition ReplicaState.healthy s ≡ false
      → Stays P (calling (set_replica_state i s))
  pub mark :
      (i : ℕ) (checksum : Text) (size : ℤ)
      → Stays P (calling (mark_replica_healthy i checksum size))

-- The other writes of a migration.
pub record MigrationKeeps {μ} (P : Database → Type μ) : Type μ where
  pub copies : CopyKeeps P
  pub corrupt : (i : ℕ) → Stays P (calling (set_replica_state i ReplicaState.corrupted))
  pub removed : (i : ℕ) → Stays P (calling (remove_replica i))
  pub jobs : (job : RebalanceJob) → Stays P (updating (save_job job))
  pub add : (v : ℕ) (s t : Text) → Stays P (calling (add_migration v s t))

module _ {μ} {P : Database → Type μ} (k : CopyKeeps P) where
  or_create-Stays : (o : Option Replica) (job : RebalanceJob) → Stays P (or_create o job)
  unfolding or_create
  or_create-Stays (some r) job = search (stays)
  or_create-Stays none job = k.create job.version_id job.target_node_id

  repair_then_copy-Stays : (r : Replica) → Stays P (repair_then_copy r)
  unfolding repair_then_copy
  repair_then_copy-Stays r = search (
    stays,
    k.set r.replica_id ReplicaState.repairing refl,
    k.set r.replica_id ReplicaState.copying refl,
  )

  enter_copying-Stays : (s : ReplicaState) (r : Replica) → Stays P (enter_copying s r)
  unfolding enter_copying
  enter_copying-Stays ReplicaState.healthy r = search (stays)
  enter_copying-Stays ReplicaState.pending r = k.set r.replica_id ReplicaState.copying refl
  enter_copying-Stays ReplicaState.corrupted r = repair_then_copy-Stays r
  enter_copying-Stays ReplicaState.stale r = repair_then_copy-Stays r
  enter_copying-Stays ReplicaState.unavailable r = repair_then_copy-Stays r
  enter_copying-Stays ReplicaState.repairing r = search (stays)
  enter_copying-Stays ReplicaState.copying r = search (stays)
  enter_copying-Stays ReplicaState.failed r = search (stays)

  target_replica-Stays : (job : RebalanceJob) → Stays P (target_replica job)
  unfolding target_replica
  target_replica-Stays job = search (stays, or_create-Stays, enter_copying-Stays)

  pub copy_over-Stays :
      (s t c : NodeClient) (v : Version) (job : RebalanceJob) → Stays P (copy_over s t c v job)
  unfolding copy_over
  copy_over-Stays s t c v job = search (stays, target_replica-Stays, k.mark) depth 20

module _ {μ} {P : Database → Type μ} (k : MigrationKeeps P) where
  or_add_migration-Stays :
      (o : Option RebalanceJob) (v : ℕ) (s t : Text) → Stays P (or_add_migration o v s t)
  or_add_migration-Stays (some job) v s t = search (stays)
  or_add_migration-Stays none v s t = k.add v s t

  create_migration-Stays : (v : ℕ) (s t : Text) → Stays P (create_migration v s t)
  unfolding create_migration
  create_migration-Stays v s t = search (stays, or_add_migration-Stays)

  mark_job-Stays : (job : RebalanceJob) (s : JobStatus) → Stays P (mark_job job s)
  unfolding mark_job
  mark_job-Stays job s = search (stays, k.jobs)

  recheck-Stays : (t : NodeClient) (v : Version) (r : Replica) → Stays P (recheck t v r)
  unfolding recheck
  recheck-Stays t v r = search (stays, k.corrupt)

  has_copy-Stays : (t : NodeClient) (v : Version) (o : Option Replica) → Stays P (has_copy t v o)
  unfolding has_copy
  has_copy-Stays t v none = search (stays)
  has_copy-Stays t v (some r) = search (stays, recheck-Stays)

  remove_found-Stays : (o : Option Replica) → Stays P (remove_found o)
  unfolding remove_found
  remove_found-Stays none = search (stays)
  remove_found-Stays (some r) = search (stays, k.removed)

  remove_source-Stays :
      (m : RebalanceManager) (s : NodeClient) (v : Version) (job : RebalanceJob)
      → Stays P (remove_source m s v job)
  unfolding remove_source
  remove_source-Stays m s v job = search (stays, remove_found-Stays) depth 12

  move_replica-Stays :
      (m : RebalanceManager) (s t c : NodeClient) (v : Version) (o : Option Replica)
      (job : RebalanceJob)
      → Stays P (move_replica m s t c v o job)
  unfolding move_replica
  move_replica-Stays m s t c v o job =
      search (stays, has_copy-Stays, copy_over-Stays k.copies, remove_source-Stays, mark_job-Stays)
        depth 12

  on_failure-Stays :
      (m : RebalanceManager) (job : RebalanceJob) (e : Failure) → Stays P (on_failure m job e)
  unfolding on_failure
  on_failure-Stays m job (vault e) = search (stays, mark_job-Stays)
  on_failure-Stays m job (node_error e) = search (stays, mark_job-Stays)
  on_failure-Stays m job value_error = search (stays)
  on_failure-Stays m job type_error = search (stays)
  on_failure-Stays m job integrity_error = search (stays)

  run_started-Stays :
      (m : RebalanceManager) (s t c : NodeClient) (v : Version) (o : Option Replica)
      (job : RebalanceJob)
      → Stays P (run_started m s t c v o job)
  unfolding run_started
  run_started-Stays m s t c v o job = search (stays, k.jobs, move_replica-Stays, on_failure-Stays)

  execute-Stays :
      (m : RebalanceManager) (clients : ClientFactory) (now : ℕ) (job : RebalanceJob)
      → Stays P (execute m clients now job)
  unfolding execute
  execute-Stays m clients now job = search (stays, run_started-Stays) depth 12

  pub run_job-Stays :
      (m : RebalanceManager) (clients : ClientFactory) (now i : ℕ)
      → Stays P (run_job m clients now i)
  unfolding run_job
  run_job-Stays m clients now i = search (stays, execute-Stays)

  pub migrate_replica-Stays :
      (m : RebalanceManager) (clients : ClientFactory) (now v : ℕ) (s t : Text)
      → Stays P (migrate_replica m clients now v s t)
  unfolding migrate_replica
  migrate_replica-Stays m clients now v s t = search (stays, create_migration-Stays, run_job-Stays)
