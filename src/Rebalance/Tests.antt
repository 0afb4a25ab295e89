-- ===== src/Rebalance/Tests.antt =====
-- A version on two nodes, of which one is drained into the other's place.
use ps.Prelude.{text_beq, ◌≡◌, refl, true, some, [], ◌∷◌, nat_eq, text_eq, pair_eq}
use ps.Table.{find, add, save, remove}
use ps.Common.Text.{strip, lstrip_by, rstrip_by, is_space, lower, lower_char}
use ps.Common.Constants.{JobStatus, job_status_eq}
use ps.Common.Errors.{NodeError, ok, err, node_error}
use ps.Metadata.Models.{RebalanceJob, Database}
use ps.Metadata.Checks.{transaction, validate_checksum}
use ps.Metadata.Replicas.{create_replica, set_replica_state, mark_replica_healthy, remove_replica}
use ps.Metadata.Consistency.{IsConsistent}
use ps.Replication.Commit.{healthy_replica_count}
use ps.Maintenance.Clients.{ClientFactory}
use ps.Maintenance.Fixture.{stored, stored-IsConsistent, replica, answering}
use ps.Rebalance.Queries.{RebalanceManager, new_migration, committed_version}
use ps.Rebalance.Migration.{
  mark_job, or_create, enter_copying, target_replica, has_copy, copy_over, remove_found,
  remove_source, move_replica, on_failure, run_started, execute, run_job,
}
use ps.Rebalance.Safety.{IsIntact}
use ps.Rebalance.Factor.{IsMoved, run_job_keeps_factor, run_job_copies_first}

abbrev manager : RebalanceManager
manager = record { replication_factor = 1; max_attempts = 3 }

abbrev job : RebalanceJob
job = new_migration 4 2 (b'a' ∷ []) (b'b' ∷ [])

abbrev scheduled : Database
scheduled = record stored { rebalance_jobs = job ∷ []; drawn = 5 }

scheduled-IsConsistent : IsConsistent scheduled
scheduled-IsConsistent = record {
  objects = stored-IsConsistent.objects;
  versions = stored-IsConsistent.versions;
  nodes = stored-IsConsistent.nodes;
  replicas = stored-IsConsistent.replicas;
}

abbrev done : RebalanceJob
done = record job { status = JobStatus.succeeded; attempts = 1 }

abbrev moved : Database
moved = record stored {
  replicas = record (replica 5 b'b') { last_verified_at = some 0 } ∷ [];
  rebalance_jobs = done ∷ [];
  drawn = 6;
  times_read = 1;
}

ran : run_job manager answering 0 4 scheduled ≡ (ok (done, true), moved)
unfolding run_job execute run_started move_replica has_copy copy_over target_replica or_create
    enter_copying remove_source remove_found mark_job healthy_replica_count committed_version
    transaction create_replica set_replica_state mark_replica_healthy remove_replica
    validate_checksum lower lower_char strip lstrip_by rstrip_by is_space find add save remove
    text_beq
ran = refl

-- No node answers.
abbrev silent : ClientFactory
silent now address = record {
  verify_object = λ o v. err (node_error NodeError.unavailable);
  delete_object = λ o v. err (node_error NodeError.unavailable);
  stream_object = λ o v. err (node_error NodeError.unavailable);
  put_object = λ o v. err (node_error NodeError.unavailable);
}

abbrev put_off : Database
put_off = record scheduled { rebalance_jobs = record job { attempts = 1 } ∷ [] }

raised : run_job manager silent 0 4 scheduled ≡ (err (node_error NodeError.unavailable), put_off)
unfolding run_job execute run_started move_replica has_copy copy_over on_failure mark_job
    committed_version find save text_beq
raised = refl

run_job_keeps_factor_example : IsMoved manager job (done, true) moved
unfolding find
run_job_keeps_factor_example =
    run_job_keeps_factor manager answering 0 4 scheduled moved job scheduled-IsConsistent refl
      (λ e. cc) refl (done, true) ran

run_job_copies_first_example : IsIntact scheduled (b'b' ∷ []) put_off
unfolding find
run_job_copies_first_example =
    run_job_copies_first manager silent 0 4 scheduled put_off job scheduled-IsConsistent refl
      (λ e. cc) refl (node_error NodeError.unavailable) raised
