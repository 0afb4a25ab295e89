-- ===== src/Integrity/Jobs.antt =====
-- integrity/manager.py: scans of a node and of a version, and the jobs that run them.
use ps.Prelude.{
  ℕ, ◌+◌, Bool, ◌&&◌, ◌||◌, ◌++◌, Option, none, some, List, [], ◌∷◌, map, ◌==◌, if◌then◌else◌,
  select, sort_by, ltb, leb, nat_eq, text_eq,
}
use ps.Table.{find, save}
use ps.Common.Text.{Text, text_ltb}
use ps.Common.Constants.{
  JobStatus, NodeState, ReplicaState, VersionState, job_status_eq, node_state_eq, replica_state_eq,
  version_state_eq,
}
use ps.Common.Errors.{VaultError, Failure, Result, ok, err, vault, node_error, or_raise}
use ps.Metadata.Models.{StorageNode, Replica, IntegrityJob, Database}
use ps.Metadata.Checks.{flush_new}
use ps.Metadata.Session.{Session, pure, raise, reading, calling, ◌>>=◌, ◌>>◌}
use ps.Metadata.Triples.{attempt, updating}
use ps.Maintenance.Clients.{ClientFactory}
use ps.Maintenance.Rows.{find_version, find_node}
use ps.Rebalance.Queries.{is_committed_in, is_on}
use ps.Integrity.Verify.{IntegrityManager, IntegrityResult, verify_replica}

-- The HEALTHY committed replicas of a node, by their identifiers.
unfoldable pub replicas_of_node : Text → Database → List ℕ
replicas_of_node node_id db = sort_by ltb (
    map (λ (r : Replica). r.replica_id)
      (select
        (λ (r : Replica).
          is_on node_id r && (r.status == ReplicaState.healthy) && is_committed_in db r)
        db.replicas))

-- The HEALTHY replicas of a version, by their nodes.
unfoldable pub replicas_of_version : ℕ → Database → List ℕ
replicas_of_version version_id db =
    map (λ (r : Replica). r.replica_id)
      (sort_by (λ (a b : Replica). text_ltb a.node_id b.node_id)
        (select
          (λ (r : Replica). (r.version_id == version_id) && (r.status == ReplicaState.healthy))
          db.replicas))

unfoldable pub healthy_node_ids : Database → List Text
healthy_node_ids db = sort_by text_ltb (
    map (λ (n : StorageNode). n.node_id)
      (select (λ (n : StorageNode). n.status == NodeState.healthy) db.nodes))

module _ (manager : IntegrityManager) (clients : ClientFactory) where
  -- The loop over replicas: each is verified at a later time.
  unfoldable pub verify_all : ℕ → List ℕ → Session (List IntegrityResult)
  verify_all now [] = pure []
  verify_all now (replica_id ∷ ids) = do
    result ← verify_replica manager clients now replica_id
    results ← verify_all (now + 1) ids
    pure (result ∷ results)

  unfoldable pub scan_node : ℕ → Text → Session (List IntegrityResult)
  unfolding verify_all
  scan_node now node_id = do
    node ← reading (find_node node_id)
    ids ← reading (λ db. ok (replicas_of_node node_id db))
    if node.status == NodeState.healthy then verify_all now ids else pure []

  unfoldable pub scan_version : ℕ → ℕ → Session (List IntegrityResult)
  unfolding verify_all
  scan_version now version_id = do
    version ← reading (find_version version_id)
    ids ← reading (λ db. ok (replicas_of_version version_id db))
    if version.state == VersionState.committed then verify_all now ids else pure []

  -- The nodes one after another; `step` is more than a node has replicas, so that no time is used
  -- twice.
  unfoldable pub scan_nodes : ℕ → ℕ → List Text → Session (List IntegrityResult)
  scan_nodes step now [] = pure []
  scan_nodes step now (node_id ∷ ids) = do
    found ← scan_node now node_id
    more ← scan_nodes step (now + step) ids
    pure (found ++ more)

  unfoldable pub scan_all : ℕ → ℕ → Session (List IntegrityResult)
  scan_all step now = do ids ← reading (λ db. ok (healthy_node_ids db)); scan_nodes step now ids

  -- What a job scans: its node, else its version, else every HEALTHY node.
  unfoldable pub scan_target : ℕ → ℕ → Option Text → Option ℕ → Session (List IntegrityResult)
  scan_target step now (some node_id) version_id = scan_node now node_id
  scan_target step now none (some version_id) = scan_version now version_id
  scan_target step now none none = scan_all step now

abbrev pub integrity_key : IntegrityJob → ℕ
integrity_key job = job.integrity_id

abbrev pub save_job : IntegrityJob → Database → Database
save_job job db = record db { integrity_jobs = save integrity_key job db.integrity_jobs }

abbrev pub new_check : ℕ → Option Text → Option ℕ → IntegrityJob
new_check integrity_id node_id version_id = record {
  integrity_id = integrity_id;
  node_id = node_id;
  version_id = version_id;
  status = JobStatus.pending;
  attempts = 0;
  checked_count = 0;
  corrupted_count = 0;
}

unfoldable pub add_check : Option Text → Option ℕ → Database → Result (IntegrityJob × Database)
add_check node_id version_id db =
    let job = new_check (db.uuids db.drawn) node_id version_id in
    elim (flush_new integrity_key job db.integrity_jobs) [
      | ok rows ↦ ok (job, record db { integrity_jobs = rows; drawn = db.drawn + 1 })
      | err e ↦ err e
    ]

-- A node and a version that are given must exist.
abbrev pub require_node : Option Text → Session (Unit {0})
require_node none = pure tt
require_node (some node_id) = reading (find_node node_id) >>= λ node. pure tt

abbrev pub require_version : Option ℕ → Session (Unit {0})
require_version none = pure tt
require_version (some version_id) = reading (find_version version_id) >>= λ version. pure tt

unfoldable pub create_check : Option Text → Option ℕ → Session IntegrityJob
create_check node_id version_id = do
  require_node node_id
  require_version version_id
  calling (add_check node_id version_id)

-- `sum(r.checked for r in results)`, and of `r.corrupted`
unfoldable pub count_by : (IntegrityResult → Bool) → List IntegrityResult → ℕ
count_by p [] = 0
count_by p (r ∷ rs) = (if p r then 1 else 0) + count_by p rs

abbrev pub start : IntegrityJob → IntegrityJob
start job = record job { status = JobStatus.running; attempts = job.attempts + 1 }

abbrev pub finish : IntegrityJob → List IntegrityResult → IntegrityJob
finish job results = record job {
  status = JobStatus.succeeded;
  checked_count = count_by (λ (r : IntegrityResult). r.checked) results;
  corrupted_count = count_by (λ (r : IntegrityResult). r.corrupted) results;
}

-- `IntegrityJobResult`: the columns of the job, and the results.
abbrev pub IntegrityJobResult : Type 0
IntegrityJobResult = IntegrityJob × List IntegrityResult

abbrev pub with_status : JobStatus → IntegrityJob → IntegrityJob
with_status status job = record job { status = status }

abbrev pub after_failure : IntegrityManager → IntegrityJob → JobStatus
after_failure manager job =
    if leb manager.max_attempts job.attempts then JobStatus.failed else JobStatus.pending

unfoldable pub on_failure : IntegrityManager → IntegrityJob → Failure → Session IntegrityJobResult
on_failure manager job (node_error e) = do
  updating (save_job (with_status (after_failure manager job) job))
  raise (node_error e)
on_failure manager job (vault e) = do
  updating (save_job (with_status (after_failure manager job) job))
  raise (vault e)
on_failure manager job failure = raise failure

-- The body of the `try`.
unfoldable pub scan_and_finish :
    IntegrityManager → ClientFactory → ℕ → ℕ → IntegrityJob → Session IntegrityJobResult
unfolding scan_target
scan_and_finish manager clients step now job = do
  results ← scan_target manager clients step now job.node_id job.version_id
  updating (save_job (finish job results))
  pure (finish job results, results)

abbrev pub is_finished : IntegrityManager → IntegrityJob → Bool
is_finished manager job =
    (job.status == JobStatus.succeeded)
    || ((job.status == JobStatus.failed) && leb manager.max_attempts job.attempts)

abbrev pub job_at : ℕ → Database → Result IntegrityJob
job_at integrity_id db =
    or_raise (find integrity_key integrity_id db.integrity_jobs) (vault VaultError.not_found)

unfoldable pub run_started :
    IntegrityManager → ClientFactory → ℕ → ℕ → IntegrityJob → Session IntegrityJobResult
unfolding scan_and_finish on_failure
run_started manager clients step now job = do
  updating (save_job job)
  attempt (scan_and_finish manager clients step now job) (on_failure manager job)

unfoldable pub run_job : IntegrityManager → ClientFactory → ℕ → ℕ → ℕ → Session IntegrityJobResult
unfolding run_started
run_job manager clients step now integrity_id = do
  job ← reading (job_at integrity_id)
  if is_finished manager job
      then pure (job, [])
      else run_started manager clients step now (start job)
