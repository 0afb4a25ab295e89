-- ===== src/Repair/Progress.antt =====
-- A repair job that runs to its end makes one more replica HEALTHY.
use ps.Prelude.{
  ℕ, ℤ, pos, suc, ◌≡◌, refl, sym, ap, ◌∙◌, subst, some_unique, absurd_eq, false, none, some, List,
  nat_eq, text_eq,
}
use ps.Table.{find, save, find_self, find-save_self}
use ps.Common.Text.{Text}
use ps.Common.Constants.{ReplicaState, JobStatus, node_state_eq}
use ps.Common.Errors.{Failure, ok, vault, node_error, value_error, type_error, integrity_error}
use ps.Metadata.Models.{Version, Replica, RepairJob, Database, replica_key}
use ps.Metadata.Replicas.{mark_replica_healthy}
use ps.Metadata.Replicas.Outcomes.{mark_replica_healthy-eq-ok}
use ps.Metadata.Session.{calling}
use ps.Metadata.Triples.{
  Triple, Triple->>=, Triple-calling, Triple-attempt, Triple-Stays, Triple-returned, Post, attempt,
  updating,
}
use ps.Metadata.Consistency.{IsConsistent}
use ps.Metadata.Consistency.Preserved.Replicas.{mark_replica_healthy-IsConsistent}
use ps.Replication.Commit.{healthy_replica_count}
use ps.Replication.Counts.{mark_replica_healthy_count}
use ps.Maintenance.Clients.{NodeClient, ClientFactory}
use ps.Repair.Queries.{RepairManager, repair_key}
use ps.Repair.Execution.{
  RepairResult, save_job, with_status, mark_job, start, rebuild, copy_replica, on_failure, prepare,
  run_started, execute, is_finished, run_job,
}
use ps.Repair.Kept.{rebuild-Stays}
use ps.Repair.Safety.{IsConsistent-jobs}
use ps.Repair.Prepared.{Ready, prepare-Ready, After-jobs}
use ps.Repair.Targets.{Counted, IsNode, IsTarget, Before, After, Raised}

abbrev finished : RepairJob → RepairJob
finished job = with_status JobStatus.succeeded (start job)

-- The version has one more HEALTHY replica than it had, among them that of the target; the job has
-- SUCCEEDED, with one more attempt.
pub record IsHealed (job : RepairJob) (count : ℕ) (jobs : List RepairJob) (result : RepairResult)
    (d : Database) : Type 0 where
  pub consistent : IsConsistent d
  pub counted : healthy_replica_count job.version_id d.replicas ≡ suc count
  pub replica_id : ℕ
  pub target : IsTarget job.version_id job.target_node_id replica_id ReplicaState.healthy d
  pub same_jobs : d.repair_jobs ≡ save repair_key (finished job) (save repair_key (start job) jobs)
  pub same_result : result ≡ finished job

module _ (job : RepairJob) (count : ℕ) (jobs : List RepairJob) (x : Replica) where
  abbrev Marked : Database → Type 0
  Marked d =
      Counted job.version_id (suc count) jobs d
      × ((i : ℕ) × IsTarget job.version_id job.target_node_id i ReplicaState.healthy d)

  marked :
      (checksum : Text) (size : ℤ) (d : Database) (r : Replica × Database)
      → mark_replica_healthy x.replica_id checksum size d ≡ ok r
      → After job count jobs ReplicaState.repairing x d
      → Marked r.1
  marked checksum size d r h (b, t) =
      let consistent =
        mark_replica_healthy-IsConsistent x.replica_id checksum size d r h b.consistent in
      let count' =
        mark_replica_healthy_count job.version_id x.replica_id checksum size d {r = r} h (record {
          at = λ z p. ap (λ (y : Replica). y.version_id) (some_unique p t.there) ∙ t.version;
        }) in
      let (y, w, found, _, _, row, e) = mark_replica_healthy-eq-ok x.replica_id checksum size d h in
      let same : y ≡ t.row = some_unique found t.there in
      let here = find_self replica_key x.replica_id d.replicas found in
      let id : r.0.replica_id ≡ y.replica_id = ap (λ (z : Replica). z.replica_id) row in
      (
        record {
          consistent = consistent;
          counted = count' ∙ ap suc b.counted;
          same_jobs = ap (λ (z : Database). z.repair_jobs) e ∙ b.same_jobs;
        },
        (
          r.0.replica_id,
          record {
            row = r.0;
            there = rw (ap (λ (z : Database). z.replicas) e) (
                find-save_self replica_key r.0 d.replicas
                  (λ p. absurd_eq (subst (λ k. find replica_key k d.replicas ≡ none) id p) here));
            version =
                ap (λ (z : Replica). z.version_id) row
                ∙ ap (λ (z : Replica). z.version_id) same
                ∙ t.version;
            node =
                subst (λ n. IsNode n job.target_node_id)
                  (sym (ap (λ (z : Replica). z.node_id) row ∙ ap (λ (z : Replica). z.node_id) same))
                  t.node;
            status = ap (λ (z : Replica). z.status) row;
          },
        ),
      )

-- A handler of a failed run raises.
on_failure-raises :
    (m : RepairManager) (job j : RepairJob) (count : ℕ) (jobs : List RepairJob) (e : Failure)
    (Q : RepairResult → Database → Type 0)
    → Triple (Raised job count jobs e) (on_failure m j e) Q (Raised job count jobs)
unfolding on_failure mark_job
on_failure-raises m job j count jobs (vault e) Q d p = tt
on_failure-raises m job j count jobs (node_error e) Q d p = tt
on_failure-raises m job j count jobs value_error Q d p = tt
on_failure-raises m job j count jobs type_error Q d p = tt
on_failure-raises m job j count jobs integrity_error Q d p = tt

module _ (job : RepairJob) (count : ℕ) (jobs : List RepairJob) (x : Replica) where
  abbrev later_jobs : List RepairJob
  later_jobs = save repair_key (start job) jobs

  abbrev Started : Database → Type 0
  Started = After job count later_jobs ReplicaState.repairing x

  Marked-IsHealed :
      (d : Database)
      → Marked job count later_jobs x d
      → Post
          (IsHealed job count jobs)
          (Raised job count jobs)
          (mark_job (start job) JobStatus.succeeded d)
  unfolding mark_job
  Marked-IsHealed d (b, (i, t)) = record {
    consistent = IsConsistent-jobs d _ refl refl refl refl b.consistent;
    counted = b.counted;
    replica_id = i;
    target = record {
      row = t.row;
      there = t.there;
      version = t.version;
      node = t.node;
      status = t.status;
    };
    same_jobs = ap (save repair_key (finished job)) b.same_jobs;
    same_result = refl;
  }

  copy_replica-IsHealed :
      (s t : NodeClient) (v : Version)
      → Triple Started
          (copy_replica s t v x (start job))
          (IsHealed job count jobs)
          (Raised job count jobs)
  unfolding copy_replica
  copy_replica-IsHealed s t v =
      let E = Raised job count jobs in
      Triple->>= Started (λ _. Started) (IsHealed job count jobs) E (rebuild s t v) _
        (Triple-Stays (rebuild s t v) (rebuild-Stays s t v))
        (λ measured.
          Triple->>= Started (λ _. Marked job count later_jobs x) (IsHealed job count jobs) E
            (calling
              (mark_replica_healthy x.replica_id measured.checksum (pos measured.size_bytes)))
            (λ done. mark_job (start job) JobStatus.succeeded)
            (Triple-calling Started (λ _. Marked job count later_jobs x) E
              (mark_replica_healthy x.replica_id measured.checksum (pos measured.size_bytes))
              (marked job count later_jobs x measured.checksum (pos measured.size_bytes))
              (λ e d b. tt))
            (λ done. Marked-IsHealed))

  run_started-IsHealed :
      (m : RepairManager) (s t : NodeClient) (v : Version)
      → Triple
          (Ready job count jobs x)
          (run_started m s t v x (start job))
          (IsHealed job count jobs)
          (Raised job count jobs)
  unfolding run_started
  run_started-IsHealed m s t v =
      let E = Raised job count jobs in
      let Q = IsHealed job count jobs in
      Triple->>= (Ready job count jobs x) (λ _. Started) Q E (updating (save_job (start job)))
        (λ done. attempt (copy_replica s t v x (start job)) (on_failure m (start job)))
        (λ d a.
          subst
            (λ (later : List RepairJob).
              After job count later ReplicaState.repairing x (save_job (start job) d))
            (ap (save repair_key (start job)) a.0.same_jobs)
            (After-jobs job count jobs x d (save_job (start job) d) _ a refl))
        (λ done.
          Triple-attempt Started Q E E (copy_replica s t v x (start job)) (on_failure m (start job))
            (copy_replica-IsHealed s t v) (λ e. on_failure-raises m job (start job) count jobs e Q))

pub execute-IsHealed :
    (m : RepairManager) (clients : ClientFactory) (now : ℕ) (job : RepairJob) (count : ℕ)
    (jobs : List RepairJob)
    → Triple
        (Counted job.version_id count jobs)
        (execute m clients now job)
        (IsHealed job count jobs)
        (Raised job count jobs)
unfolding execute
execute-IsHealed m clients now job count jobs =
    Triple->>= (Before job count jobs) (λ ready. Ready job count jobs ready.1.0)
      (IsHealed job count jobs) (Raised job count jobs) (prepare job) _
      (prepare-Ready job count jobs)
      (λ ready.
        run_started-IsHealed job count jobs ready.1.0 m (clients now ready.1.1.1.address)
          (clients now ready.1.1.0.address) ready.0)

-- When the run of a job that is not finished returns, the job has SUCCEEDED with one more attempt,
-- its version has exactly one HEALTHY replica more than before, and one of them is on the job's
-- target node.
pub run_job_heals :
    (m : RepairManager) (clients : ClientFactory) (now repair_id : ℕ) (db d : Database)
    (job : RepairJob) (result : RepairResult)
    → IsConsistent db
    → find repair_key repair_id db.repair_jobs ≡ some job
    → is_finished m job ≡ false
    → run_job m clients now repair_id db ≡ (ok result, d)
    → IsHealed job (healthy_replica_count job.version_id db.replicas) db.repair_jobs result d
unfolding run_job
run_job_heals m clients now repair_id db d job result c found unfinished h =
    let count = healthy_replica_count job.version_id db.replicas in
    Triple-returned (Before job count db.repair_jobs) (IsHealed job count db.repair_jobs)
      (Raised job count db.repair_jobs) (execute m clients now job) db
      (execute-IsHealed m clients now job count db.repair_jobs)
      (record { consistent = c; counted = refl; same_jobs = refl }) (rw (found, unfinished) at h)
