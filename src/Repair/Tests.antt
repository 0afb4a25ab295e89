-- ===== src/Repair/Tests.antt =====
-- A version on one of two nodes is repaired until both have it.
use ps.Prelude.{text_beq, pos, ◌≡◌, refl, some, [], ◌∷◌, arith, nat_eq, text_eq, pair_eq}
use ps.Table.{find, add, save}
use ps.Common.Text.{strip, lstrip_by, rstrip_by, is_space, lower, lower_char, text_ltb}
use ps.Common.Constants.{JobStatus}
use ps.Common.Errors.{ok}
use ps.Metadata.Models.{RepairJob, Database}
use ps.Metadata.Checks.{transaction, validate_checksum}
use ps.Metadata.Replicas.{create_replica, set_replica_state, mark_replica_healthy}
use ps.Metadata.Consistency.{IsConsistent}
use ps.Placement.{
  validate_factor, order_nodes, insert_ordered, is_eligible, is_before, has_more_free,
}
use ps.Replication.Commit.{healthy_replica_count}
use ps.Maintenance.Fixture.{stored, stored-IsConsistent, replica, answering}
use ps.Repair.Queries.{
  RepairManager, healthy_sources, is_fresher, target_for_version, preferred_node, new_target,
  active_job, check_nodes, add_job, new_job,
}
use ps.Repair.Scheduling.{create_job, schedule_repair, schedule_for_version}
use ps.Repair.Execution.{
  mark_job, or_create, enter_repairing, replica_for_target, require_source, check_endpoints,
  rebuild, copy_replica, prepare, run_started, execute, run_job,
}
use ps.Repair.Rounds.{run_next, round, rounds, repair_version_until_healthy}
use ps.Repair.Safety.{KeepsHealthy, run_job-KeepsHealthy}
use ps.Repair.Progress.{IsHealed, run_job_heals}
use ps.Repair.Terminates.{IsRepaired, repair_version_until_healthy_ends}

abbrev manager : RepairManager
manager = record { max_attempts = 3; replication_factor = 2 }

abbrev job : RepairJob
job = new_job 4 2 (b'a' ∷ []) (b'b' ∷ [])

abbrev done : RepairJob
done = record job { status = JobStatus.succeeded; attempts = 1 }

abbrev scheduled : Database
scheduled = record stored { repair_jobs = job ∷ []; drawn = 5 }

abbrev repaired : Database
repaired = record stored {
  replicas = replica 3 b'a' ∷ record (replica 5 b'b') { last_verified_at = some 0 } ∷ [];
  repair_jobs = done ∷ [];
  drawn = 6;
  times_read = 1;
}

scheduled-IsConsistent : IsConsistent scheduled
scheduled-IsConsistent = record {
  objects = stored-IsConsistent.objects;
  versions = stored-IsConsistent.versions;
  nodes = stored-IsConsistent.nodes;
  replicas = stored-IsConsistent.replicas;
}

ran : run_job manager answering 0 4 scheduled ≡ (ok done, repaired)
unfolding run_job execute prepare require_source replica_for_target or_create enter_repairing
    check_endpoints run_started copy_replica rebuild mark_job transaction create_replica
    set_replica_state mark_replica_healthy validate_checksum lower lower_char strip lstrip_by
    rstrip_by is_space find add save text_beq
ran = refl

ended :
    repair_version_until_healthy manager answering 3 0 2 (some (pos 2)) stored
    ≡ (ok (some (done ∷ [])), repaired)
unfolding repair_version_until_healthy rounds round run_next healthy_replica_count
    schedule_for_version schedule_repair create_job healthy_sources is_fresher target_for_version
    preferred_node new_target active_job check_nodes add_job validate_factor order_nodes
    insert_ordered is_eligible is_before has_more_free text_ltb run_job execute prepare
    require_source replica_for_target or_create enter_repairing check_endpoints run_started
    copy_replica rebuild mark_job transaction create_replica set_replica_state mark_replica_healthy
    validate_checksum lower lower_char strip lstrip_by rstrip_by is_space find add save text_beq
ended = refl

run_job-KeepsHealthy_example : KeepsHealthy scheduled (run_job manager answering 0 4 scheduled).1
run_job-KeepsHealthy_example = run_job-KeepsHealthy manager answering 0 4 scheduled

run_job_heals_example :
    IsHealed job (healthy_replica_count 2 scheduled.replicas) (job ∷ []) done repaired
unfolding find
run_job_heals_example =
    run_job_heals manager answering 0 4 scheduled repaired job done scheduled-IsConsistent refl refl
      ran

repair_version_until_healthy_ends_example :
    IsRepaired 2 (pos 2) (healthy_replica_count 2 stored.replicas) (some (done ∷ [])) repaired
repair_version_until_healthy_ends_example =
    repair_version_until_healthy_ends manager answering 3 0 2 2 stored repaired (some (done ∷ []))
      stored-IsConsistent tt (omega arith) ended
