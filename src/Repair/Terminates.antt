-- ===== src/Repair/Terminates.antt =====
-- The loop of repairs ends: each round that does not raise adds a HEALTHY replica.
use ps.Prelude.{
  ℕ, ℤ, pos, negsuc, zero, suc, ◌+◌, ◌<◌, ◌≡◌, refl, sym, ap, ◌∙◌, true, false, Option, none, some,
  List, [], ◌∷◌, arith, length, nat_eq,
}
use ps.Table.{find, save, IsUnique, IsUnique-save, find-save_self}
use ps.Common.Constants.{JobStatus, job_status_eq}
use ps.Common.Errors.{ok}
use ps.Metadata.Models.{RepairJob, Database}
use ps.Metadata.Session.{Session, pure, ◌>>=◌}
use ps.Metadata.Triples.{Triple, Triple->>=, Triple-if, Post-weaken, Triple-returned}
use ps.Metadata.Consistency.{IsConsistent}
use ps.Replication.Commit.{healthy_replica_count}
use ps.Maintenance.Clients.{ClientFactory}
use ps.Maintenance.Rows.{is_active}
use ps.Repair.Queries.{RepairManager, repair_key}
use ps.Repair.Scheduling.{schedule_for_version}
use ps.Repair.Execution.{RepairResult, start, execute, is_finished, run_job, with_status}
use ps.Repair.Rounds.{
  Rounds, append_result, reaches, run_next, round, rounds, repair_version_until_healthy,
}
use ps.Repair.Progress.{IsHealed, execute-IsHealed}
use ps.Repair.Selected.{IsKeyed, Nothing, Chosen, Scheduled, schedule_for_version-Scheduled}

-- An active job is not finished.
unfinished :
    (m : RepairManager) (job : RepairJob) → is_active job.status ≡ true → is_finished m job ≡ false
unfinished m job h = ground arith

keyed-after :
    (job : RepairJob) (jobs : List RepairJob)
    → find repair_key job.repair_id jobs ≡ some job
    → IsUnique repair_key jobs
    → IsUnique repair_key (
        save repair_key
          (with_status JobStatus.succeeded (start job))
          (save repair_key (start job) jobs))
keyed-after job jobs there u =
    let started = IsUnique-save repair_key repair_key (start job) jobs {x = job} there refl u in
    IsUnique-save repair_key repair_key (with_status JobStatus.succeeded (start job))
      (save repair_key (start job) jobs) {x = start job}
      (find-save_self repair_key (start job) jobs (λ p. cc (p, there))) refl started

module _ (v count : ℕ) where
  run_job-IsKeyed :
      (m : RepairManager) (clients : ClientFactory) (now : ℕ) (job : RepairJob)
      → Triple
          (Chosen v count job)
          (run_job m clients now job.repair_id)
          (λ _. IsKeyed v (suc count))
          Nothing
  unfolding run_job
  run_job-IsKeyed m clients now job d (k, ready) =
      rw (ready.there, unfinished m job ready.active)
        (Post-weaken (IsHealed job count d.repair_jobs) (λ _. IsKeyed v (suc count)) Nothing Nothing
          (λ result d' healed. record {
            consistent = healed.consistent;
            counted = rw (← ready.version) healed.counted;
            keyed = rw healed.same_jobs (keyed-after job d.repair_jobs ready.there k.keyed);
          })
          (λ e d' x. tt) (execute m clients now job d)
          (execute-IsHealed m clients now job count d.repair_jobs d (record {
            consistent = k.consistent;
            counted = rw ready.version k.counted;
            same_jobs = refl;
          })))

-- The loop has returned, the version has its replicas, and each result is of one of them.
pub record IsRepaired (v : ℕ) (factor : ℤ) (before : ℕ) (o : Rounds) (d : Database) : Type 0 where
  pub results : List RepairResult
  pub returned : o ≡ some results
  pub reached : reaches (healthy_replica_count v d.replicas) factor ≡ true
  pub gained : healthy_replica_count v d.replicas ≡ before + length results

-- There are rounds left, and more of them than replicas are missing.
abbrev IsEnough : ℕ → ℕ → ℤ → Type 0
IsEnough fuel count (pos n) = (0 < fuel) × (n < count + fuel)
IsEnough fuel count (negsuc n) = 0 < fuel

module _ (v count : ℕ) (factor : ℤ) where
  -- A round that runs a job is one more result.
  one_more :
      (result : RepairResult) (o : Rounds) (d : Database)
      → IsRepaired v factor (suc count) o d
      → IsRepaired v factor count (append_result result o) d
  one_more result o d r = record {
    results = result ∷ r.results;
    returned = ap (append_result result) r.returned;
    reached = r.reached;
    gained = omega (arith, r.gained);
  }

  run_next-IsRepaired :
      (m : RepairManager) (clients : ClientFactory) (now : ℕ) (rest : Session Rounds) (n : ℕ)
      → factor ≡ pos n
      → Triple (IsKeyed v (suc count)) rest (IsRepaired v factor (suc count)) Nothing
      → (o : Option RepairJob)
      → Triple
          (Scheduled v count n o)
          (run_next (λ (j : RepairJob). run_job m clients now j.repair_id) rest o)
          (IsRepaired v factor count)
          Nothing
  unfolding run_next
  run_next-IsRepaired m clients now rest n e later none = λ d (k, enough). record {
    results = [];
    returned = refl;
    reached = rw (e, k.counted) enough;
    gained = omega (arith, k.counted);
  }
  run_next-IsRepaired m clients now rest n e later (some job) =
      Triple->>= (Chosen v count job) (λ _. IsKeyed v (suc count)) (IsRepaired v factor count)
        Nothing (run_job m clients now job.repair_id) _ (run_job-IsKeyed v count m clients now job)
        (λ result.
          Triple->>= (IsKeyed v (suc count)) (IsRepaired v factor (suc count))
            (IsRepaired v factor count) Nothing rest (λ o. pure (append_result result o)) later
            (λ o. one_more result o))

  reached-IsRepaired :
      (d : Database)
      → IsKeyed v count d
      → reaches (healthy_replica_count v d.replicas) factor ≡ true
      → IsRepaired v factor count (some []) d
  reached-IsRepaired d k h = record {
    results = [];
    returned = refl;
    reached = h;
    gained = omega (arith, k.counted);
  }

module _ (m : RepairManager) (clients : ClientFactory) (v : ℕ) where
  round-IsRepaired :
      (factor : ℤ) (count now : ℕ) (rest : Session Rounds)
      → (reaches count factor ≡ false
          → Triple (IsKeyed v (suc count)) rest (IsRepaired v factor (suc count)) Nothing)
      → Triple
          (IsKeyed v count)
          (round m clients v factor now rest)
          (IsRepaired v factor count)
          Nothing
  unfolding round
  round-IsRepaired (negsuc n) count now rest later d k =
      reached-IsRepaired v count (negsuc n) d k refl
  round-IsRepaired (pos n) count now rest later d k =
      Triple-if (IsKeyed v count) (IsRepaired v (pos n) count) Nothing
        (reaches (healthy_replica_count v d.replicas) (pos n)) (pure (some []))
        (schedule_for_version m v (some (pos n)) none >>= λ job.
          run_next (λ (j : RepairJob). run_job m clients now j.repair_id) rest job)
        (λ h d' k'. reached-IsRepaired v count (pos n) d' k' (rw (k'.counted ∙ sym k.counted) h))
        (λ h.
          Triple->>= (IsKeyed v count) (Scheduled v count n) (IsRepaired v (pos n) count) Nothing
            (schedule_for_version m v (some (pos n)) none) _
            (schedule_for_version-Scheduled v count m n)
            (run_next-IsRepaired v count (pos n) m clients now rest n refl
              (later (rw k.counted at h))))
        d k

  fewer_left :
      (factor : ℤ) (fuel count : ℕ)
      → IsEnough (suc fuel) count factor
      → reaches count factor ≡ false
      → IsEnough fuel (suc count) factor
  fewer_left (pos n) fuel count enough h = (ground arith, ground arith)
  fewer_left (negsuc n) fuel count enough h = cc

  rounds-IsRepaired :
      (factor : ℤ) (fuel now count : ℕ)
      → IsEnough fuel count factor
      → Triple
          (IsKeyed v count)
          (rounds m clients v factor fuel now)
          (IsRepaired v factor count)
          Nothing
  unfolding rounds
  rounds-IsRepaired (pos n) zero now count (h, _) = elim h [ ]
  rounds-IsRepaired (negsuc n) zero now count h = elim h [ ]
  rounds-IsRepaired factor (suc fuel) now count h =
      round-IsRepaired factor count now (rounds m clients v factor fuel (now + 1)) (λ short.
        rounds-IsRepaired factor fuel (now + 1) (suc count) (fewer_left factor fuel count h short))

-- With more rounds than the factor the loop ends: when it does not raise, it returns a list of
-- results, the version has at least as many HEALTHY replicas as the factor, and each result stands
-- for one that was gained.
pub repair_version_until_healthy_ends :
    (m : RepairManager) (clients : ClientFactory) (fuel now v n : ℕ) (db d : Database) (o : Rounds)
    → IsConsistent db
    → IsUnique repair_key db.repair_jobs
    → n < fuel
    → repair_version_until_healthy m clients fuel now v (some (pos n)) db ≡ (ok o, d)
    → IsRepaired v (pos n) (healthy_replica_count v db.replicas) o d
unfolding repair_version_until_healthy
repair_version_until_healthy_ends m clients fuel now v n db d o c keyed enough h =
    let count = healthy_replica_count v db.replicas in
    Triple-returned (IsKeyed v count) (IsRepaired v (pos n) count) Nothing
      (rounds m clients v (pos n) fuel now) db
      (rounds-IsRepaired m clients v (pos n) fuel now count (omega arith, omega arith))
      (record { consistent = c; counted = refl; keyed = keyed }) h
