-- ===== src/Worker/Tests.antt =====
-- A worker that looks for versions with too few replicas, and a task that fails twice.
use ps.Prelude.{ℕ, zero, suc, ◌≤◌, ◌≡◌, refl, pos, max, Option, none, some}
use ps.Common.Errors.{NodeError, Failure, node_error}
use ps.Metadata.Models.{StorageNode}
use ps.Metadata.Consistency.{IsConsistent}
use ps.Maintenance.Fixture.{stored, stored-IsConsistent, answering}
use ps.Worker.Retry.{RetrySettings, runs, retry_task, next_countdown, runs_end}
use ps.Worker.Tasks.{Task, Worker}
use ps.Worker.Polls.{Polled}
use ps.Worker.Queue.{Run, perform}
use ps.Worker.Consistent.{perform-IsConsistent}

abbrev settings : RetrySettings
settings = record { max_attempts = 5; initial_backoff = 20; second = 10 }

abbrev fails_twice : ℕ → Option Failure
fails_twice zero = some (node_error NodeError.unavailable)
fails_twice (suc zero) = some (node_error NodeError.unavailable)
fails_twice _ = none

three_runs : runs settings fails_twice 5 0 ≡ some 3
unfolding runs retry_task
three_runs = refl

runs_end_example :
    (n : ℕ) × (runs settings fails_twice (max 1 5) 0 ≡ some (suc n))
    × (suc n ≤ max 1 5)
    × (next_countdown settings fails_twice n (fails_twice n) ≡ none)
runs_end_example = runs_end settings fails_twice

abbrev worker : Worker
worker = record {
  replication_factor = 2;
  repairs = record { max_attempts = 3; replication_factor = 2 };
  integrity = record {
    replication_factor = 2;
    max_attempts = 3;
    repairs = record { max_attempts = 3; replication_factor = 2 };
  };
  rebalance = record { replication_factor = 2; max_attempts = 3 };
  recovery = record {
    replication_factor = 2;
    repairs = record { max_attempts = 3; replication_factor = 2 };
  };
  detector = record {
    suspect_after = 5;
    unavailable_after = 9;
    replication_factor = pos 2;
    repairs = record { max_attempts = 3; replication_factor = 2 };
  };
  clients = answering;
  fuel = 3;
  step = 9;
}

abbrev silent : StorageNode → Polled
silent node = record { health = none; stats = none; time = 0 }

abbrev run : Run
run = record { now = 0; clock = 20; polls = silent }

perform-IsConsistent_example :
    IsConsistent (perform worker Task.check_under_replicated_objects run stored).1
perform-IsConsistent_example =
    perform-IsConsistent worker Task.check_under_replicated_objects run stored stored-IsConsistent
