-- ===== src/Repair/Kept.antt =====
-- What repairing keeps, whether it returns or raises: whatever each of its writes keeps.
use ps.Prelude.{ℕ, ℤ, zero, suc, ◌+◌, Option, none, some}
use ps.Common.Text.{Text}
use ps.Common.Constants.{ReplicaState, JobStatus}
use ps.Common.Errors.{
  VaultError, Failure, vault, node_error, value_error, type_error, integrity_error,
}
use ps.Metadata.Models.{Version, StorageNode, Replica, RepairJob, Database}
use ps.Metadata.Replicas.{create_replica, set_replica_state, mark_replica_healthy}
use ps.Metadata.Session.{Session, calling, pure}
use ps.Metadata.Triples.{updating, Stays, Stays->>=, stays}
use ps.Maintenance.Clients.{NodeClient, ClientFactory}
use ps.Repair.Queries.{RepairManager, add_job}
use ps.Repair.Scheduling.{
  or_add_job, create_job, or_create_job, schedule_repair, schedule_for_version,
}
use ps.Repair.Execution.{
  save_job, mark_job, or_create, enter_repairing, replica_for_target, fail_job, require_source,
  check_endpoints, rebuild, copy_replica, on_failure, prepare, run_started, execute, run_job,
}
use ps.Repair.Rounds.{Rounds, append_result, run_next, round, rounds, repair_version_until_healthy}

-- The writes of a repair.
pub record RepairKeeps {μ} (P : Database → Type μ) : Type μ where
  pub create : (v : ℕ) (n : Text) → Stays P (calling (create_replica v n))
  pub repairing : (i : ℕ) → Stays P (calling (set_replica_state i ReplicaState.repairing))
  pub mark :
      (i : ℕ) (checksum : Text) (size : ℤ)
      → Stays P (calling (mark_replica_healthy i checksum size))
  pub jobs : (job : RepairJob) → Stays P (updating (save_job job))
  pub add : (v : ℕ) (s t : Text) → Stays P (calling (add_job v s t))

module _ {μ} {P : Database → Type μ} where
  pub rebuild-Stays : (s t : NodeClient) (v : Version) → Stays P (rebuild s t v)
  unfolding rebuild
  rebuild-Stays s t v = search (stays) depth 16

module _ {μ} {P : Database → Type μ}
    (add : (v : ℕ) (s t : Text) → Stays P (calling (add_job v s t))) where
  or_add_job-Stays : (o : Option RepairJob) (v : ℕ) (s t : Text) → Stays P (or_add_job o v s t)
  or_add_job-Stays (some job) v s t = search (stays)
  or_add_job-Stays none v s t = add v s t

  create_job-Stays : (v : ℕ) (s t : Text) → Stays P (create_job v s t)
  unfolding create_job
  create_job-Stays v s t = search (stays, or_add_job-Stays)

  or_create_job-Stays :
      (o : Option RepairJob) (v : ℕ) (s t : Text) → Stays P (or_create_job o v s t)
  or_create_job-Stays (some job) v s t = search (stays)
  or_create_job-Stays none v s t = create_job-Stays v s t

  schedule_repair-Stays :
      (v : Version) (preferred : Option Replica) → Stays P (schedule_repair v preferred)
  unfolding schedule_repair
  schedule_repair-Stays v preferred = search (stays, or_create_job-Stays)

  pub schedule_for_version-Stays :
      (m : RepairManager) (v : ℕ) (factor : Option ℤ) (preferred : Option Replica)
      → Stays P (schedule_for_version m v factor preferred)
  unfolding schedule_for_version
  schedule_for_version-Stays m v factor preferred = search (stays, schedule_repair-Stays)

module _ {μ} {P : Database → Type μ} (k : RepairKeeps P) where
  mark_job-Stays : (job : RepairJob) (s : JobStatus) → Stays P (mark_job job s)
  unfolding mark_job
  mark_job-Stays job s = search (stays, k.jobs)

  or_create-Stays : (o : Option Replica) (job : RepairJob) → Stays P (or_create o job)
  unfolding or_create
  or_create-Stays (some r) job = search (stays)
  or_create-Stays none job = k.create job.version_id job.target_node_id

  enter_repairing-Stays : (s : ReplicaState) (r : Replica) → Stays P (enter_repairing s r)
  unfolding enter_repairing
  enter_repairing-Stays ReplicaState.healthy r = search (stays)
  enter_repairing-Stays ReplicaState.pending r = k.repairing r.replica_id
  enter_repairing-Stays ReplicaState.corrupted r = k.repairing r.replica_id
  enter_repairing-Stays ReplicaState.stale r = k.repairing r.replica_id
  enter_repairing-Stays ReplicaState.unavailable r = k.repairing r.replica_id
  enter_repairing-Stays ReplicaState.repairing r = search (stays)
  enter_repairing-Stays ReplicaState.copying r = search (stays)
  enter_repairing-Stays ReplicaState.failed r = search (stays)

  replica_for_target-Stays : (job : RepairJob) → Stays P (replica_for_target job)
  unfolding replica_for_target
  replica_for_target-Stays job = search (stays, or_create-Stays, enter_repairing-Stays)

  fail_job-Stays :
      {A : Type 0} (job : RepairJob) (e : VaultError) → Stays P (fail_job {A = A} job e)
  unfolding fail_job
  fail_job-Stays job e = search (stays, mark_job-Stays)

  require_source-Stays : (job : RepairJob) → Stays P (require_source job)
  unfolding require_source
  require_source-Stays job = search (stays, fail_job-Stays)

  check_endpoints-Stays :
      (job : RepairJob) (target source : Option StorageNode)
      → Stays P (check_endpoints job target source)
  unfolding check_endpoints
  check_endpoints-Stays job (some t) (some s) = search (stays, fail_job-Stays)
  check_endpoints-Stays job none source = search (fail_job-Stays)
  check_endpoints-Stays job (some t) none = search (fail_job-Stays)

  pub prepare-Stays : (job : RepairJob) → Stays P (prepare job)
  unfolding prepare
  prepare-Stays job =
      search (stays, require_source-Stays, replica_for_target-Stays, check_endpoints-Stays) depth 16

  copy_replica-Stays :
      (s t : NodeClient) (v : Version) (r : Replica) (job : RepairJob)
      → Stays P (copy_replica s t v r job)
  unfolding copy_replica
  copy_replica-Stays s t v r job = search (stays, rebuild-Stays, k.mark, mark_job-Stays)

  on_failure-Stays :
      (m : RepairManager) (job : RepairJob) (e : Failure) → Stays P (on_failure m job e)
  unfolding on_failure
  on_failure-Stays m job (vault e) = search (stays, mark_job-Stays)
  on_failure-Stays m job (node_error e) = search (stays, mark_job-Stays)
  on_failure-Stays m job value_error = search (stays)
  on_failure-Stays m job type_error = search (stays)
  on_failure-Stays m job integrity_error = search (stays)

  run_started-Stays :
      (m : RepairManager) (s t : NodeClient) (v : Version) (r : Replica) (job : RepairJob)
      → Stays P (run_started m s t v r job)
  unfolding run_started
  run_started-Stays m s t v r job = search (stays, k.jobs, copy_replica-Stays, on_failure-Stays)

  pub run_job-Stays :
      (m : RepairManager) (clients : ClientFactory) (now i : ℕ) → Stays P (run_job m clients now i)
  unfolding run_job execute
  run_job-Stays m clients now i = search (stays, prepare-Stays, run_started-Stays)

  run_next-Stays :
      (m : RepairManager) (clients : ClientFactory) (now : ℕ) (rest : Session Rounds)
      → Stays P rest
      → (o : Option RepairJob)
      → Stays P (run_next (λ (j : RepairJob). run_job m clients now j.repair_id) rest o)
  unfolding run_next
  run_next-Stays m clients now rest ks none = search (stays)
  run_next-Stays m clients now rest ks (some job) =
      Stays->>= (run_job m clients now job.repair_id) _ (run_job-Stays m clients now job.repair_id)
        (λ result.
          Stays->>= rest (λ results. pure (append_result result results)) ks
            (λ results. search (stays)))

  round-Stays :
      (m : RepairManager) (clients : ClientFactory) (v : ℕ) (factor : ℤ) (now : ℕ)
      (rest : Session Rounds)
      → Stays P rest
      → Stays P (round m clients v factor now rest)
  unfolding round
  round-Stays m clients v factor now rest ks =
      search (stays, (schedule_for_version-Stays k.add), (run_next-Stays m clients now rest ks))

  rounds-Stays :
      (m : RepairManager) (clients : ClientFactory) (v : ℕ) (factor : ℤ) (fuel now : ℕ)
      → Stays P (rounds m clients v factor fuel now)
  unfolding rounds
  rounds-Stays m clients v factor zero now = search (stays)
  rounds-Stays m clients v factor (suc fuel) now =
      round-Stays m clients v factor now (rounds m clients v factor fuel (now + 1))
        (rounds-Stays m clients v factor fuel (now + 1))

  pub repair_version_until_healthy-Stays :
      (m : RepairManager) (clients : ClientFactory) (fuel now v : ℕ) (factor : Option ℤ)
      → Stays P (repair_version_until_healthy m clients fuel now v factor)
  unfolding repair_version_until_healthy
  repair_version_until_healthy-Stays m clients fuel now v none = search (stays)
  repair_version_until_healthy-Stays m clients fuel now v (some factor) =
      rounds-Stays m clients v factor fuel now
