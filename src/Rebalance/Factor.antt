-- ===== src/Rebalance/Factor.antt =====
-- A migration that raises has harmed no replica but a bad copy, and one that returns has left the
-- version with its replicas.
use ps.Prelude.{
  ℕ, suc, ◌+◌, ◌≤◌, ◌≡◌, ◌≢◌, refl, sym, ap, ◌∙◌, true, false, not, Option, none, some, inl, inr,
  arith, nat_eq, text_eq, pair_eq, if◌then◌else◌, ltb, ltb→lt, Bool-cases,
}
use ps.Table.{find, find_unique, key-find, find-remove_found}
use ps.Common.Text.{Text}
use ps.Common.Constants.{JobStatus, replica_state_eq, job_status_eq, job_status_beq_iff}
use ps.Common.Errors.{
  VaultError, Failure, ok, err, vault, node_error, value_error, type_error, integrity_error,
}
use ps.Metadata.Models.{
  Version, Replica, RebalanceJob, Database, replica_key, replica_slot, replica_on,
}
use ps.Metadata.Replicas.{remove_replica}
use ps.Metadata.Replicas.Outcomes.{remove_replica-eq-ok}
use ps.Metadata.Session.{pure, raise_when, reading, calling}
use ps.Metadata.Triples.{
  Triple, Triple->>=, Triple-calling, Triple-reading, Triple-if, Triple-attempt, Triple-returned,
  Triple-raised, Triple-keeps, attempt, updating,
}
use ps.Metadata.Consistency.{IsConsistent}
use ps.Replication.Commit.{healthy_replica_count}
use ps.Replication.Counts.{count-le-remove}
use ps.Maintenance.Clients.{NodeClient, ClientFactory}
use ps.Maintenance.Rows.{find_node}
use ps.Repair.Safety.{IsConsistent-jobs}
use ps.Rebalance.Queries.{RebalanceManager, rebalance_key, committed_version}
use ps.Rebalance.Migration.{
  RebalanceResult, save_job, mark_job, has_copy, copy_over, remove_found, remove_source,
  move_replica, on_failure, start, run_started, execute, is_exhausted, run_job,
}
use ps.Rebalance.Kept.{copy_over-Stays}
use ps.Rebalance.Safety.{IsIntact, Intact, Intact-copies, same-IsIntact}
use ps.Rebalance.Copies.{OnTarget, has_copy-Intact}

-- The job has SUCCEEDED, its version has at least as many HEALTHY replicas as the factor, and none
-- on the source.
pub record IsMoved (m : RebalanceManager) (job : RebalanceJob) (result : RebalanceResult)
    (d : Database) : Type 0 where
  pub status : result.0.status ≡ JobStatus.succeeded
  pub source_removed : result.1 ≡ true
  pub spared : m.replication_factor ≤ healthy_replica_count job.version_id d.replicas
  pub gone : replica_on job.version_id job.source_node_id d ≡ none

module _ (before : Database) (job : RebalanceJob) where
  abbrev I : Database → Type 0
  I = Intact before job.target_node_id

  abbrev E : Failure → Database → Type 0
  E e = I

  module _ (m : RebalanceManager) where
    -- What is true when the source has been removed.
    abbrev Removed : Unit {0} → Database → Type 0
    Removed done d =
        (m.replication_factor ≤ healthy_replica_count job.version_id d.replicas)
        × (replica_on job.version_id job.source_node_id d ≡ none)

    -- There is a replica to spare.
    abbrev Spare : Database → Type 0
    Spare d = I d × (suc m.replication_factor ≤ healthy_replica_count job.version_id d.replicas)

    remove_found-Removed :
        (o : Option Replica)
        → Triple
            (λ d. Spare d × (replica_on job.version_id job.source_node_id d ≡ o))
            (remove_found o)
            Removed
            E
    unfolding remove_found
    remove_found-Removed none = λ d (s, h). (omega arith, h)
    remove_found-Removed (some x) =
        let P =
          λ (d : Database). Spare d × (replica_on job.version_id job.source_node_id d ≡ some x) in
        Triple->>= P (λ _. Removed tt) Removed E (calling (remove_replica x.replica_id)) _
          (Triple-calling P (λ _. Removed tt) E (remove_replica x.replica_id)
            (λ d r h (s, there).
              let (_, _, e) = remove_replica-eq-ok x.replica_id d h in
              let u = s.0.consistent.replicas in
              let left = count-le-remove job.version_id x.replica_id d.replicas u.key in
              rw e (
                omega (arith, left),
                find-remove_found replica_key replica_slot (job.version_id, job.source_node_id)
                    d.replicas u.slot there,
              ))
            (λ e d p. p.0.0))
          (λ done d r. r)

    remove_source-Removed :
        (s : NodeClient) (v : Version) → Triple I (remove_source m s v job) Removed E
    unfolding remove_source
    remove_source-Removed s v =
        let C =
          λ (n : ℕ) (d : Database). I d × (healthy_replica_count job.version_id d.replicas ≡ n) in
        let Looked = λ (o : Option Replica) (d : Database).
          Spare d × (replica_on job.version_id job.source_node_id d ≡ o) in
        Triple->>= I C Removed E
          (reading (λ db. ok (healthy_replica_count job.version_id db.replicas))) _
          (λ d i. (i, refl))
          (λ n.
            Triple->>= (C n) (λ _. Spare) Removed E
              (raise_when (not (ltb m.replication_factor n)) (vault VaultError.invalid_state)) _
              (enough n)
              (λ done.
                Triple->>= Spare (λ _. Spare) Removed E
                  (reading (λ db. s.delete_object v.object_id v.version_id)) _
                  (Triple-reading Spare (λ _. Spare) E
                    (λ db. s.delete_object v.object_id v.version_id) (λ d a h p. p) (λ e d p. p.0))
                  (λ deleted.
                    Triple->>= Spare Looked Removed E
                      (reading (λ db. ok (replica_on job.version_id job.source_node_id db)))
                      remove_found (λ d p. (p, refl)) remove_found-Removed)))
      where
        enough :
            (n : ℕ)
            → Triple
                (λ d. I d × (healthy_replica_count job.version_id d.replicas ≡ n))
                (raise_when (not (ltb m.replication_factor n)) (vault VaultError.invalid_state))
                (λ _. Spare)
                E
        enough n d (i, h) = elim (Bool-cases (ltb m.replication_factor n)) [
          | inl more ↦ rw more (i, rw h (ltb→lt m.replication_factor n more))
          | inr less ↦ rw less i
        ]

    move_replica-IsMoved :
        (s t c : NodeClient) (v : Version) (o : Option Replica)
        → Triple
            (λ d. I d × OnTarget before job o d)
            (move_replica m s t c v o (start job))
            (IsMoved m job)
            E
    unfolding move_replica mark_job
    move_replica-IsMoved s t c v o =
        let P = λ (d : Database). I d × OnTarget before job o d in
        let body = copy_over s t c v (start job) in
        Triple->>= P (λ _. I) (IsMoved m job) E (has_copy t v o) _
          (has_copy-Intact before job t v o)
          (λ usable.
            Triple->>= I (λ _. I) (IsMoved m job) E (if usable then pure tt else body) _
              (Triple-if I (λ _. I) E usable (pure tt) body (λ h d i. i)
                (λ h.
                  Triple-keeps body (
                    copy_over-Stays (Intact-copies before job.target_node_id) s t c v (start job))))
              (λ copied.
                Triple->>= I Removed (IsMoved m job) E (remove_source m s v (start job)) _
                  (remove_source-Removed s v)
                  (λ removed d (spared, gone). record {
                    status = refl;
                    source_removed = refl;
                    spared = spared;
                    gone = gone;
                  })))

    on_failure-Intact :
        (j : RebalanceJob) (e : Failure) → Triple I (on_failure m j e) (IsMoved m job) E
    unfolding on_failure mark_job
    on_failure-Intact j (vault e) d i =
        same-IsIntact before job.target_node_id d _
          (IsConsistent-jobs d _ refl refl refl refl i.consistent) refl i
    on_failure-Intact j (node_error e) d i =
        same-IsIntact before job.target_node_id d _
          (IsConsistent-jobs d _ refl refl refl refl i.consistent) refl i
    on_failure-Intact j value_error d i = i
    on_failure-Intact j type_error d i = i
    on_failure-Intact j integrity_error d i = i

    OnTarget-jobs :
        (o : Option Replica) (d : Database)
        → OnTarget before job o d
        → OnTarget before job o (save_job (start job) d)
    OnTarget-jobs none d on = tt
    OnTarget-jobs (some x) d on = on

    run_started-IsMoved :
        (s t c : NodeClient) (v : Version) (o : Option Replica)
        → Triple
            (λ d. I d × OnTarget before job o d)
            (run_started m s t c v o (start job))
            (IsMoved m job)
            E
    unfolding run_started
    run_started-IsMoved s t c v o =
        let P = λ (d : Database). I d × OnTarget before job o d in
        let body = move_replica m s t c v o (start job) in
        Triple->>= P (λ _. P) (IsMoved m job) E (updating (save_job (start job)))
          (λ done. attempt body (on_failure m (start job)))
          (λ d (i, on). (
            same-IsIntact before job.target_node_id d _
                (IsConsistent-jobs d _ refl refl refl refl i.consistent) refl i,
            OnTarget-jobs o d on,
          ))
          (λ done.
            Triple-attempt P (IsMoved m job) E E body (on_failure m (start job))
              (move_replica-IsMoved s t c v o) (λ e. on_failure-Intact (start job) e))

    read-OnTarget :
        (o : Option Replica) (d : Database)
        → I d
        → replica_on job.version_id job.target_node_id d ≡ o
        → OnTarget before job o d
    read-OnTarget none d i h = tt
    read-OnTarget (some x) d i h =
        let slot : ℕ × Text = (job.version_id, job.target_node_id) in
        (
          find_unique replica_key replica_slot slot d.replicas i.consistent.replicas.key h,
          ap (λ (p : ℕ × Text). p.1) (key-find replica_slot slot d.replicas h),
        )

    pub execute-IsMoved :
        (clients : ClientFactory) (now : ℕ) → Triple I (execute m clients now job) (IsMoved m job) E
    unfolding execute
    execute-IsMoved clients now =
        let Q = IsMoved m job in
        let Looked = λ (o : Option Replica) (d : Database). I d × OnTarget before job o d in
        Triple->>= I (λ _. I) Q E (reading (committed_version job.version_id)) _
          (Triple-reading I (λ _. I) E (committed_version job.version_id) (λ d a h i. i)
            (λ e d i. i))
          (λ v.
            Triple->>= I (λ _. I) Q E (reading (find_node job.source_node_id)) _
              (Triple-reading I (λ _. I) E (find_node job.source_node_id) (λ d a h i. i)
                (λ e d i. i))
              (λ source.
                Triple->>= I (λ _. I) Q E (reading (find_node job.target_node_id)) _
                  (Triple-reading I (λ _. I) E (find_node job.target_node_id) (λ d a h i. i)
                    (λ e d i. i))
                  (λ target.
                    Triple->>= I Looked Q E
                      (reading (λ db. ok (replica_on job.version_id job.target_node_id db)))
                      (λ o.
                        run_started m (clients now source.address) (clients now target.address)
                          (clients (now + 1) target.address) v o (start job))
                      (λ d i. (i, read-OnTarget _ d i refl))
                      (λ o.
                        run_started-IsMoved (clients now source.address)
                          (clients now target.address) (clients (now + 1) target.address) v o))))

module _ (m : RebalanceManager) (clients : ClientFactory) (now rebalance_id : ℕ) (db d : Database)
    (job : RebalanceJob) (c : IsConsistent db)
    (found : find rebalance_key rebalance_id db.rebalance_jobs ≡ some job)
    (open_ : job.status ≢ JobStatus.succeeded) (more : is_exhausted m job ≡ false) where
  start-Intact : Intact db job.target_node_id db
  start-Intact = record { consistent = c; healthy = λ r well away here. here }

  run-is-execute : run_job m clients now rebalance_id db ≡ execute m clients now job db
  unfolding run_job
  run-is-execute = ground (arith, job_status_beq_iff job.status JobStatus.succeeded)

  -- When the run of a migration that is not finished returns, the job has SUCCEEDED, the version
  -- still has at least as many HEALTHY replicas as the replication factor, and no row is left for
  -- it on the source node.
  pub run_job_keeps_factor :
      (result : RebalanceResult)
      → run_job m clients now rebalance_id db ≡ (ok result, d)
      → IsMoved m job result d
  run_job_keeps_factor result h =
      Triple-returned (Intact db job.target_node_id) (IsMoved m job)
        (λ e. Intact db job.target_node_id) (execute m clients now job) db
        (execute-IsMoved db job m clients now) start-Intact (sym run-is-execute ∙ h)

  -- When the run of a migration that is not finished raises, whatever it raises, the database is
  -- consistent and every replica that was HEALTHY, except one on the target node, is in its row:
  -- the source is not removed before its copy is HEALTHY.
  pub run_job_copies_first :
      (failure : Failure)
      → run_job m clients now rebalance_id db ≡ (err failure, d)
      → IsIntact db job.target_node_id d
  run_job_copies_first failure h =
      Triple-raised (Intact db job.target_node_id) (IsMoved m job)
        (λ e. Intact db job.target_node_id) (execute m clients now job) db
        (execute-IsMoved db job m clients now) start-Intact (sym run-is-execute ∙ h)
