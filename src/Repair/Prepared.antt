-- ===== src/Repair/Prepared.antt =====
-- What a repair job has when its attempt starts.
use ps.Prelude.{ℕ, ◌≡◌, refl, Option, none, some, List, ◌==◌, find_first, nat_eq, text_eq}
use ps.Common.Constants.{ReplicaState, NodeState, ErrorCode, node_state_eq}
use ps.Common.Errors.{VaultError, ok}
use ps.Metadata.Models.{StorageNode, Replica, RepairJob, Database, node_at}
use ps.Metadata.Session.{pure, reading}
use ps.Metadata.Triples.{Triple, Triple->>=, Triple-reading, Triple-if}
use ps.Maintenance.Rows.{find_version}
use ps.Repair.Execution.{
  mark_job, replica_for_target, fail_job, require_source, is_source, source_is_usable,
  check_endpoints, prepare,
}
use ps.Repair.Safety.{IsConsistent-jobs}
use ps.Repair.Targets.{Before, After, Raised, replica_for_target-After}

abbrev unreachable : VaultError
unreachable = VaultError.plain ErrorCode.node_unavailable 503

module _ (job : RepairJob) (count : ℕ) (jobs : List RepairJob) where
  fail_job-never :
      {A : Type 0} (P : Database → Type 0) (Q : A → Database → Type 0) (e : VaultError)
      → Triple P (fail_job job e) Q (Raised job count jobs)
  unfolding fail_job mark_job
  fail_job-never P Q e d p = tt

  require_source-same :
      Triple
        (Before job count jobs)
        (require_source job)
        (λ _. Before job count jobs)
        (Raised job count jobs)
  unfolding require_source
  require_source-same =
      let B = Before job count jobs in
      let E = Raised job count jobs in
      Triple->>= B (λ o. B) (λ _. B) E (reading (λ db. ok (find_first (is_source job) db.replicas)))
        _ (λ d b. b)
        (λ found.
          Triple-if B (λ _. B) E (source_is_usable found) (pure tt) (fail_job job unreachable)
            (λ e d b. b) (λ e. fail_job-never {A = Unit {0}} B (λ _. B) unreachable))

  check_endpoints-same :
      (P : Database → Type 0) (t s : Option StorageNode)
      → Triple P (check_endpoints job t s) (λ _. P) (Raised job count jobs)
  unfolding check_endpoints
  check_endpoints-same P none s =
      fail_job-never {A = StorageNode × StorageNode} P (λ _. P) VaultError.not_found
  check_endpoints-same P (some t) none =
      fail_job-never {A = StorageNode × StorageNode} P (λ _. P) VaultError.not_found
  check_endpoints-same P (some t) (some s) =
      Triple-if P (λ _. P) (Raised job count jobs) (t.status == NodeState.healthy) (pure (t, s))
        (fail_job job unreachable) (λ e d b. b)
        (λ e. fail_job-never {A = StorageNode × StorageNode} P (λ _. P) unreachable)

  abbrev pub Ready : Replica → Database → Type 0
  Ready = After job count jobs ReplicaState.repairing

  pub prepare-Ready :
      Triple
        (Before job count jobs)
        (prepare job)
        (λ ready. Ready ready.1.0)
        (Raised job count jobs)
  unfolding prepare
  prepare-Ready =
      let B = Before job count jobs in
      let E = Raised job count jobs in
      Triple->>= B (λ v. B) (λ ready. Ready ready.1.0) E (reading (find_version job.version_id)) _
        (Triple-reading B (λ v. B) E (find_version job.version_id) (λ d a h b. b) (λ e d b. tt))
        (λ v.
          Triple->>= B (λ _. B) (λ ready. Ready ready.1.0) E (require_source job) _
            require_source-same
            (λ done.
              Triple->>= B Ready (λ ready. Ready ready.1.0) E (replica_for_target job) _
                (replica_for_target-After job count jobs)
                (λ r. λ d a.
                  Triple->>= (Ready r) (λ _. Ready r) (λ ready. Ready ready.1.0) E
                    (check_endpoints job (node_at job.target_node_id d)
                      (node_at job.source_node_id d))
                    (λ nodes. pure (v, (r, nodes)))
                    (check_endpoints-same (Ready r) (node_at job.target_node_id d)
                      (node_at job.source_node_id d))
                    (λ nodes d' b. b) d a)))

  -- The same, with the jobs of a later state.
  pub After-jobs :
      (r : Replica) (d d' : Database) (later : List RepairJob)
      → Ready r d
      → d' ≡ record d { repair_jobs = later }
      → After job count later ReplicaState.repairing r d'
  After-jobs r d d' later (b, t) e = rw e (
    record {
      consistent = IsConsistent-jobs d _ refl refl refl refl b.consistent;
      counted = b.counted;
      same_jobs = refl;
    },
    record { row = t.row; there = t.there; version = t.version; node = t.node; status = t.status },
  )

-- The replica is marked HEALTHY, with its row and its number.
