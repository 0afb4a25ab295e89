-- ===== src/Rebalance/Migration.antt =====
-- rebalance/manager.py: the execution of a migration.
use ps.Prelude.{
  ℕ, pos, ◌+◌, Bool, true, false, not, ◌&&◌, Option, none, some, ◌==◌, if◌then◌else◌, find_first,
  ltb, leb, nat_eq, text_eq, pair_eq,
}
use ps.Table.{find, save}
use ps.Common.Text.{Text}
use ps.Common.Constants.{JobStatus, ReplicaState, job_status_eq, replica_state_eq}
use ps.Common.Errors.{VaultError, NodeError, Failure, Result, ok, vault, node_error, or_raise}
use ps.Metadata.Models.{Version, Replica, RebalanceJob, Database, replica_on}
use ps.Metadata.Replicas.{create_replica, set_replica_state, mark_replica_healthy, remove_replica}
use ps.Metadata.Session.{Session, pure, raise, raise_when, reading, calling, ◌>>=◌, ◌>>◌}
use ps.Metadata.Triples.{attempt, updating}
use ps.Replication.Commit.{healthy_replica_count}
use ps.Maintenance.Clients.{NodeClient, ClientFactory}
use ps.Maintenance.Rows.{find_node}
use ps.Rebalance.Queries.{
  RebalanceManager, rebalance_key, committed_version, active_migration, check_migration,
  add_migration, matches_metadata,
}

abbrev pub or_add_migration : Option RebalanceJob → ℕ → Text → Text → Session RebalanceJob
or_add_migration (some job) version_id source_node_id target_node_id = pure job
or_add_migration none version_id source_node_id target_node_id =
    calling (add_migration version_id source_node_id target_node_id)

-- `create_job`
unfoldable pub create_migration : ℕ → Text → Text → Session RebalanceJob
create_migration version_id source_node_id target_node_id = do
  reading (check_migration version_id source_node_id target_node_id)
  active ← reading (λ db. ok (active_migration version_id target_node_id db))
  or_add_migration active version_id source_node_id target_node_id

-- `RebalanceResult`: the columns of the job, and `source_removed`.
abbrev pub RebalanceResult : Type 0
RebalanceResult = RebalanceJob × Bool

abbrev pub save_job : RebalanceJob → Database → Database
save_job job db = record db { rebalance_jobs = save rebalance_key job db.rebalance_jobs }

abbrev pub with_status : JobStatus → RebalanceJob → RebalanceJob
with_status status job = record job { status = status }

-- `_mark_job`
unfoldable pub mark_job : RebalanceJob → JobStatus → Session RebalanceJob
mark_job job status = do updating (save_job (with_status status job)); pure (with_status status job)

unfoldable pub or_create : Option Replica → RebalanceJob → Session Replica
or_create (some replica) job = pure replica
or_create none job = calling (create_replica job.version_id job.target_node_id)

unfoldable pub repair_then_copy : Replica → Session Replica
repair_then_copy replica = do
  calling (set_replica_state replica.replica_id ReplicaState.repairing)
  calling (set_replica_state replica.replica_id ReplicaState.copying)

-- What the state of the target's replica asks for.
unfoldable pub enter_copying : ReplicaState → Replica → Session Replica
unfolding repair_then_copy
enter_copying ReplicaState.healthy replica = pure replica
enter_copying ReplicaState.pending replica =
    calling (set_replica_state replica.replica_id ReplicaState.copying)
enter_copying ReplicaState.corrupted replica = repair_then_copy replica
enter_copying ReplicaState.stale replica = repair_then_copy replica
enter_copying ReplicaState.unavailable replica = repair_then_copy replica
enter_copying ReplicaState.copying replica = pure replica
enter_copying _ replica = raise (vault VaultError.invalid_state)

-- `_target_replica`
unfoldable pub target_replica : RebalanceJob → Session Replica
unfolding or_create enter_copying
target_replica job = do
  found ← reading (λ db. ok (replica_on job.version_id job.target_node_id db))
  replica ← or_create found job
  enter_copying replica.status replica

-- A HEALTHY copy from an earlier attempt is verified again, and is CORRUPTED if it does not match.
unfoldable pub recheck : NodeClient → Version → Replica → Session Bool
recheck target version replica = do
  measured ← reading (λ db. target.verify_object version.object_id version.version_id)
  if matches_metadata version measured
      then pure true
      else do calling (set_replica_state replica.replica_id ReplicaState.corrupted); pure false

unfoldable pub has_copy : NodeClient → Version → Option Replica → Session Bool
unfolding recheck
has_copy target version none = pure false
has_copy target version (some replica) =
    if replica.status == ReplicaState.healthy then recheck target version replica else pure false

abbrev pub is_source : RebalanceJob → Replica → Bool
is_source job r =
    (r.version_id == job.version_id)
    && (r.node_id == job.source_node_id)
    && (r.status == ReplicaState.healthy)

-- The source is verified before the target's bytes are deleted, and the target after the copy, where
-- the node may answer otherwise than before.
unfoldable pub copy_over :
    NodeClient → NodeClient → NodeClient → Version → RebalanceJob → Session (Unit {0})
unfolding target_replica
copy_over source target copied version job = do
  replica ←
      reading
        (λ db. or_raise (find_first (is_source job) db.replicas) (vault VaultError.invalid_state))
  before ← reading (λ db. source.verify_object version.object_id version.version_id)
  raise_when (not (matches_metadata version before)) (node_error NodeError.integrity)
  copy ← target_replica job
  reading (λ db. target.delete_object version.object_id version.version_id)
  reading (λ db. source.stream_object version.object_id version.version_id)
  reading (λ db. target.put_object version.object_id version.version_id)
  after ← reading (λ db. copied.verify_object version.object_id version.version_id)
  raise_when (not (matches_metadata version after)) (node_error NodeError.integrity)
  calling (mark_replica_healthy copy.replica_id after.checksum (pos after.size_bytes))
  pure tt

unfoldable pub remove_found : Option Replica → Session (Unit {0})
remove_found none = pure tt
remove_found (some replica) = do calling (remove_replica replica.replica_id); pure tt

-- The source's bytes and then its row are deleted, if the version has a replica to spare.
unfoldable pub remove_source :
    RebalanceManager → NodeClient → Version → RebalanceJob → Session (Unit {0})
unfolding remove_found
remove_source manager source version job = do
  healthy ← reading (λ db. ok (healthy_replica_count job.version_id db.replicas))
  raise_when (not (ltb manager.replication_factor healthy)) (vault VaultError.invalid_state)
  reading (λ db. source.delete_object version.object_id version.version_id)
  replica ← reading (λ db. ok (replica_on job.version_id job.source_node_id db))
  remove_found replica

-- The body of the `try`: `existing` is the target's replica before the attempt.
unfoldable pub move_replica :
    RebalanceManager
    → NodeClient
    → NodeClient
    → NodeClient
    → Version
    → Option Replica
    → RebalanceJob
    → Session RebalanceResult
unfolding has_copy copy_over remove_source mark_job
move_replica manager source target copied version existing job = do
  usable ← has_copy target version existing
  if usable then pure tt else copy_over source target copied version job
  remove_source manager source version job
  marked ← mark_job job JobStatus.succeeded
  pure (marked, true)

abbrev pub after_failure : RebalanceManager → RebalanceJob → JobStatus
after_failure manager job =
    if leb manager.max_attempts job.attempts then JobStatus.failed else JobStatus.pending

-- The `except` clause; any other exception passes.
unfoldable pub on_failure : RebalanceManager → RebalanceJob → Failure → Session RebalanceResult
unfolding mark_job
on_failure manager job (node_error e) = do
  mark_job job (after_failure manager job)
  raise (node_error e)
on_failure manager job (vault e) = do mark_job job (after_failure manager job); raise (vault e)
on_failure manager job failure = raise failure

abbrev pub start : RebalanceJob → RebalanceJob
start job = record job { status = JobStatus.running; attempts = job.attempts + 1 }

-- The clients of the two nodes at one time, and that of the target after the copy.
unfoldable pub run_started :
    RebalanceManager
    → NodeClient
    → NodeClient
    → NodeClient
    → Version
    → Option Replica
    → RebalanceJob
    → Session RebalanceResult
unfolding move_replica on_failure
run_started manager source target copied version existing job = do
  updating (save_job job)
  attempt (move_replica manager source target copied version existing job) (on_failure manager job)

unfoldable pub execute :
    RebalanceManager → ClientFactory → ℕ → RebalanceJob → Session RebalanceResult
unfolding run_started
execute manager clients now job = do
  version ← reading (committed_version job.version_id)
  source ← reading (find_node job.source_node_id)
  target ← reading (find_node job.target_node_id)
  existing ← reading (λ db. ok (replica_on job.version_id job.target_node_id db))
  run_started manager (clients now source.address) (clients now target.address)
      (clients (now + 1) target.address) version existing (start job)

abbrev pub job_at : ℕ → Database → Result RebalanceJob
job_at rebalance_id db =
    or_raise (find rebalance_key rebalance_id db.rebalance_jobs) (vault VaultError.not_found)

-- A job that has failed for the last time.
abbrev pub is_exhausted : RebalanceManager → RebalanceJob → Bool
is_exhausted manager job = (job.status == JobStatus.failed) && leb manager.max_attempts job.attempts

unfoldable pub run_job : RebalanceManager → ClientFactory → ℕ → ℕ → Session RebalanceResult
unfolding execute
run_job manager clients now rebalance_id = do
  job ← reading (job_at rebalance_id)
  if job.status == JobStatus.succeeded
      then pure (job, true)
      else if is_exhausted manager job
      then pure (job, false)
      else execute manager clients now job

unfoldable pub migrate_replica :
    RebalanceManager → ClientFactory → ℕ → ℕ → Text → Text → Session RebalanceResult
unfolding create_migration run_job
migrate_replica manager clients now version_id source_node_id target_node_id = do
  job ← create_migration version_id source_node_id target_node_id
  run_job manager clients now job.rebalance_id
