-- ===== src/Repair/Rounds.antt =====
-- repair/manager.py: `repair_version_until_healthy`, on fuel: the number of rounds.
use ps.Prelude.{
  ℕ, ℤ, pos, negsuc, zero, suc, ◌+◌, Bool, true, Option, none, some, List, [], ◌∷◌, if◌then◌else◌,
  leb,
}
use ps.Common.Errors.{ok, type_error}
use ps.Metadata.Models.{RepairJob}
use ps.Metadata.Session.{Session, pure, raise, reading, ◌>>=◌}
use ps.Replication.Commit.{healthy_replica_count}
use ps.Maintenance.Clients.{ClientFactory}
use ps.Repair.Queries.{RepairManager}
use ps.Repair.Scheduling.{schedule_for_version}
use ps.Repair.Execution.{RepairResult, run_job}

-- What the loop returns, or `none` when the fuel has run out.
abbrev pub Rounds : Type 0
Rounds = Option (List RepairResult)

abbrev pub append_result : RepairResult → Rounds → Rounds
append_result result none = none
append_result result (some results) = some (result ∷ results)

-- `healthy_count >= replication_factor`
abbrev pub reaches : ℕ → ℤ → Bool
reaches count (pos factor) = leb factor count
reaches count (negsuc n) = true

-- `results.append(await self.run_job(job.repair_id))` and what comes after it.
unfoldable pub run_next :
    (RepairJob → Session RepairResult) → Session Rounds → Option RepairJob → Session Rounds
run_next run rest none = pure (some [])
run_next run rest (some job) = do
  result ← run job
  results ← rest
  pure (append_result result results)

module _ (manager : RepairManager) (clients : ClientFactory) (version_id : ℕ) (factor : ℤ) where
  -- One round, with the rounds that follow.
  unfoldable pub round : ℕ → Session Rounds → Session Rounds
  unfolding run_next
  round now rest = do
    count ← reading (λ db. ok (healthy_replica_count version_id db.replicas))
    if reaches count factor then pure (some []) else do
      job ← schedule_for_version manager version_id (some factor) none
      run_next (λ (j : RepairJob). run_job manager clients now j.repair_id) rest job

  unfoldable pub rounds : ℕ → ℕ → Session Rounds
  rounds zero now = pure none
  rounds (suc fuel) now = round now (rounds fuel (now + 1))

-- The comparison of a number with a missing factor raises `TypeError`.
unfoldable pub repair_version_until_healthy :
    RepairManager → ClientFactory → ℕ → ℕ → ℕ → Option ℤ → Session Rounds
repair_version_until_healthy manager clients fuel now version_id none = raise type_error
repair_version_until_healthy manager clients fuel now version_id (some factor) =
    rounds manager clients version_id factor fuel now
