-- ===== src/Repair/Execution.antt =====
-- repair/manager.py: the execution of a repair job, and of repairs until a version has its replicas.
use ps.Prelude.{
  ℕ, pos, ◌+◌, Bool, false, not, ◌&&◌, ◌||◌, Option, none, some, ◌==◌, if◌then◌else◌, find_first,
  leb, nat_eq, text_eq, pair_eq,
}
use ps.Table.{find, save}
use ps.Common.Constants.{
  JobStatus, NodeState, ReplicaState, ErrorCode, job_status_eq, node_state_eq, replica_state_eq,
}
use ps.Common.Errors.{VaultError, NodeError, Failure, Result, ok, vault, node_error, or_raise}
use ps.Metadata.Models.{Version, StorageNode, Replica, RepairJob, Database, node_at, replica_on}
use ps.Metadata.Replicas.{create_replica, set_replica_state, mark_replica_healthy}
use ps.Metadata.Session.{Session, pure, raise, raise_when, reading, calling, ◌>>=◌, ◌>>◌}
use ps.Metadata.Triples.{attempt, updating}
use ps.Replication.Writes.{Verification}
use ps.Maintenance.Clients.{NodeClient, ClientFactory, is_version}
use ps.Maintenance.Rows.{find_version, has_checksum}
use ps.Repair.Queries.{RepairManager, repair_key}

-- `RepairResult` has the columns of the job that the model has.
abbrev pub RepairResult : Type 0
RepairResult = RepairJob

abbrev pub save_job : RepairJob → Database → Database
save_job job db = record db { repair_jobs = save repair_key job db.repair_jobs }

abbrev pub with_status : JobStatus → RepairJob → RepairJob
with_status status job = record job { status = status }

-- `_mark_job`
unfoldable pub mark_job : RepairJob → JobStatus → Session RepairResult
mark_job job status = do updating (save_job (with_status status job)); pure (with_status status job)

unfoldable pub or_create : Option Replica → RepairJob → Session Replica
or_create (some replica) job = pure replica
or_create none job = calling (create_replica job.version_id job.target_node_id)

-- What the state of the target's replica asks for.
unfoldable pub enter_repairing : ReplicaState → Replica → Session Replica
enter_repairing ReplicaState.healthy replica =
    raise (vault (VaultError.plain ErrorCode.repair_in_progress 409))
enter_repairing ReplicaState.pending replica =
    calling (set_replica_state replica.replica_id ReplicaState.repairing)
enter_repairing ReplicaState.corrupted replica =
    calling (set_replica_state replica.replica_id ReplicaState.repairing)
enter_repairing ReplicaState.stale replica =
    calling (set_replica_state replica.replica_id ReplicaState.repairing)
enter_repairing ReplicaState.unavailable replica =
    calling (set_replica_state replica.replica_id ReplicaState.repairing)
enter_repairing ReplicaState.repairing replica = pure replica
enter_repairing _ replica = raise (vault (VaultError.plain ErrorCode.invalid_request 409))

-- `_replica_for_target`
unfoldable pub replica_for_target : RepairJob → Session Replica
unfolding or_create enter_repairing
replica_for_target job = do
  found ← reading (λ db. ok (replica_on job.version_id job.target_node_id db))
  replica ← or_create found job
  enter_repairing replica.status replica

-- A replica of the version on the source that is HEALTHY and has a checksum.
abbrev pub is_source : RepairJob → Replica → Bool
is_source job r =
    (r.version_id == job.version_id)
    && (r.node_id == job.source_node_id)
    && (r.status == ReplicaState.healthy)

abbrev pub source_is_usable : Option Replica → Bool
source_is_usable none = false
source_is_usable (some replica) = has_checksum replica.checksum

-- The job is FAILED, and the error is raised.
unfoldable pub fail_job : {A : Type 0} → RepairJob → VaultError → Session A
unfolding mark_job
fail_job job error = do mark_job job JobStatus.failed; raise (vault error)

unfoldable pub require_source : RepairJob → Session (Unit {0})
unfolding fail_job
require_source job = do
  found ← reading (λ db. ok (find_first (is_source job) db.replicas))
  if source_is_usable found
      then pure tt
      else fail_job job (VaultError.plain ErrorCode.node_unavailable 503)

-- The target and the source, which must exist; the target must be HEALTHY.
unfoldable pub check_endpoints :
    RepairJob → Option StorageNode → Option StorageNode → Session (StorageNode × StorageNode)
unfolding fail_job
check_endpoints job (some target) (some source) =
    if target.status == NodeState.healthy
    then pure (target, source)
    else fail_job job (VaultError.plain ErrorCode.node_unavailable 503)
check_endpoints job _ _ = fail_job job VaultError.not_found

abbrev pub start : RepairJob → RepairJob
start job = record job { status = JobStatus.running; attempts = job.attempts + 1 }

-- The three tests on a verification.
abbrev pub confirms : Version → Verification → Bool
confirms version measured = measured.valid && is_version version measured

-- The source is verified before the target's bytes are deleted, and the target after the copy.
unfoldable pub rebuild : NodeClient → NodeClient → Version → Session Verification
rebuild source target version = do
  before ← reading (λ db. source.verify_object version.object_id version.version_id)
  raise_when (not (confirms version before)) (node_error NodeError.integrity)
  reading (λ db. target.delete_object version.object_id version.version_id)
  reading (λ db. source.stream_object version.object_id version.version_id)
  reading (λ db. target.put_object version.object_id version.version_id)
  after ← reading (λ db. target.verify_object version.object_id version.version_id)
  raise_when (not (confirms version after)) (node_error NodeError.integrity)
  pure after

-- The body of the `try`.
unfoldable pub copy_replica :
    NodeClient → NodeClient → Version → Replica → RepairJob → Session RepairResult
unfolding rebuild mark_job
copy_replica source target version replica job = do
  measured ← rebuild source target version
  calling (mark_replica_healthy replica.replica_id measured.checksum (pos measured.size_bytes))
  mark_job job JobStatus.succeeded

-- The state of a job whose run has failed.
abbrev pub after_failure : RepairManager → RepairJob → JobStatus
after_failure manager job =
    if leb manager.max_attempts job.attempts then JobStatus.failed else JobStatus.pending

-- The two `except` clauses; any other exception passes.
unfoldable pub on_failure : RepairManager → RepairJob → Failure → Session RepairResult
unfolding mark_job
on_failure manager job (node_error e) = do
  mark_job job (after_failure manager job)
  raise (node_error e)
on_failure manager job (vault e) = do mark_job job (after_failure manager job); raise (vault e)
on_failure manager job failure = raise failure

-- What is checked before the job is started: the version, the target's replica and the two nodes.
unfoldable pub prepare : RepairJob → Session (Version × (Replica × (StorageNode × StorageNode)))
unfolding require_source replica_for_target check_endpoints
prepare job = do
  version ← reading (find_version job.version_id)
  require_source job
  replica ← replica_for_target job
  target ← reading (λ db. ok (node_at job.target_node_id db))
  source ← reading (λ db. ok (node_at job.source_node_id db))
  nodes ← check_endpoints job target source
  pure (version, (replica, nodes))

-- From the start of the attempt on.
unfoldable pub run_started :
    RepairManager → NodeClient → NodeClient → Version → Replica → RepairJob → Session RepairResult
unfolding copy_replica on_failure
run_started manager source target version replica job = do
  updating (save_job job)
  attempt (copy_replica source target version replica job) (on_failure manager job)

unfoldable pub execute : RepairManager → ClientFactory → ℕ → RepairJob → Session RepairResult
unfolding prepare run_started
execute manager clients now job = do
  ready ← prepare job
  run_started manager (clients now ready.1.1.1.address) (clients now ready.1.1.0.address) ready.0
      ready.1.0 (start job)

-- A job that has succeeded, or has failed for the last time, is not run again.
abbrev pub is_finished : RepairManager → RepairJob → Bool
is_finished manager job =
    (job.status == JobStatus.succeeded)
    || ((job.status == JobStatus.failed) && leb manager.max_attempts job.attempts)

abbrev pub job_at : ℕ → Database → Result RepairJob
job_at repair_id db =
    or_raise (find repair_key repair_id db.repair_jobs) (vault VaultError.not_found)

unfoldable pub run_job : RepairManager → ClientFactory → ℕ → ℕ → Session RepairResult
unfolding execute
run_job manager clients now repair_id = do
  job ← reading (job_at repair_id)
  if is_finished manager job then pure job else execute manager clients now job
