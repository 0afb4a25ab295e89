-- ===== src/Worker/Retry.antt =====
-- worker/tasks.py: `_retry_task`, and how often the queue runs a task that it retries.
use ps.Prelude.{
  ℕ, zero, suc, ◌+◌, ◌*◌, ◌-◌, ◌≤◌, ◌≡◌, refl, inl, inr, min, Bool, true, false, not, if◌then◌else◌,
  leb, Option, none, some, arith, max, Option-cases,
}
use ps.Common.Constants.{ErrorCode}
use ps.Common.Errors.{Failure, vault, node_error, code}

-- `_RETRYABLE_ERROR_CODES`
abbrev pub is_retryable_code : ErrorCode → Bool
is_retryable_code ErrorCode.node_unavailable = true
is_retryable_code ErrorCode.insufficient_replicas = true
is_retryable_code ErrorCode.storage_full = true
is_retryable_code _ = false

abbrev pub is_retryable : Failure → Bool
is_retryable (node_error e) = true
is_retryable (vault e) = is_retryable_code (code e)
is_retryable _ = false

abbrev pub power_of_two : ℕ → ℕ
power_of_two zero = 1
power_of_two (suc n) = 2 * power_of_two n

-- Times are counted in ticks, of which `second` has that many.
pub record RetrySettings : Type 0 where
  pub max_attempts : ℕ
  pub initial_backoff : ℕ
  pub second : ℕ

-- `max(settings.max_attempts - 1, 0)`
abbrev pub max_retries : RetrySettings → ℕ
max_retries settings = settings.max_attempts - 1

-- `_retry_task`: the countdown to the next run, or none when the exception is raised.
unfoldable pub retry_task : RetrySettings → ℕ → Failure → Option ℕ
retry_task settings retry_number failure =
    if not (is_retryable failure)
    then none
    else if leb (max_retries settings) retry_number
    then none
    else some (min (300 * settings.second) (settings.initial_backoff * power_of_two retry_number))

-- The runs of a task whose run after so many retries ends with that error, or with none: how many
-- there are, or none when the fuel has run out.
module _ (settings : RetrySettings) (outcome : ℕ → Option Failure) where
  abbrev pub next_countdown : ℕ → Option Failure → Option ℕ
  next_countdown retries none = none
  next_countdown retries (some failure) = retry_task settings retries failure

  abbrev pub go_on : Option ℕ → ℕ → Option ℕ → Option ℕ
  go_on none retries rest = some (retries + 1)
  go_on (some countdown) retries rest = rest

  unfoldable pub runs : ℕ → ℕ → Option ℕ
  unfolding retry_task
  runs zero retries = none
  runs (suc fuel) retries =
      let rest = runs fuel (retries + 1) in
      go_on (next_countdown retries (outcome retries)) retries rest

retry_task-eq-some :
    (settings : RetrySettings) (retries : ℕ) (failure : Failure) {countdown : ℕ}
    → retry_task settings retries failure ≡ some countdown
    → (is_retryable failure ≡ true)
      × (suc retries ≤ max_retries settings)
      × (countdown ≤ 300 * settings.second)
unfolding retry_task
retry_task-eq-some settings retries failure h = ground arith

-- The last run has ended the task: it raised nothing, or an exception that is raised to the queue.
abbrev IsLast : RetrySettings → (ℕ → Option Failure) → ℕ → Type 0
IsLast settings outcome n = next_countdown settings outcome n (outcome n) ≡ none

module _ (settings : RetrySettings) (outcome : ℕ → Option Failure) where
  abbrev Ends : Option ℕ → Type 0
  Ends o = (n : ℕ) × (o ≡ some (suc n)) × (n ≤ max_retries settings) × IsLast settings outcome n

  Ends-go_on :
      (retries : ℕ) (rest : Option ℕ) (o : Option Failure)
      → outcome retries ≡ o
      → retries ≤ max_retries settings
      → (suc retries ≤ max_retries settings → Ends rest)
      → Ends (go_on settings outcome (next_countdown settings outcome retries o) retries rest)
  Ends-go_on retries rest none e within more = (retries, ground arith, within, rw e refl)
  Ends-go_on retries rest (some failure) e within more =
      elim (Option-cases (retry_task settings retries failure)) [
        | inl raised ↦ rw raised (retries, ground arith, within, rw (e, raised) refl)
        | inr (countdown, again) ↦
            rw again (more (retry_task-eq-some settings retries failure again).1)
      ]

  runs-Ends :
      (fuel retries : ℕ)
      → retries ≤ max_retries settings
      → max_retries settings + 1 ≤ fuel + retries
      → Ends (runs settings outcome fuel retries)
  unfolding runs
  runs-Ends zero retries within enough = absurd (omega arith)
  runs-Ends (suc fuel) retries within enough =
      Ends-go_on retries (runs settings outcome fuel (retries + 1)) (outcome retries) refl within
        (λ more. runs-Ends fuel (retries + 1) (omega arith) (omega arith))

-- A task that is retried ends after at least one run and at most as many as the settings allow, or
-- one if they allow none: with that fuel the number of runs is given, and the last of them raised
-- nothing, or an exception that is raised to the queue.
pub runs_end :
    (settings : RetrySettings) (outcome : ℕ → Option Failure)
    → (n : ℕ) × (runs settings outcome (max 1 settings.max_attempts) 0 ≡ some (suc n))
      × (suc n ≤ max 1 settings.max_attempts)
      × (next_countdown settings outcome n (outcome n) ≡ none)
runs_end settings outcome =
    let (n, ends, within, last) =
      runs-Ends settings outcome (max 1 settings.max_attempts) 0 (omega arith) (omega arith) in
    (n, ends, omega arith, last)
