-- ===== src/Integrity/Consistent.antt =====
-- Integrity jobs, with the scans that they run, keep the database consistent.
use ps.Prelude.{ℕ, ℤ, ◌≡◌, arith, refl, Option, none, some, List, [], ◌∷◌, ◌+◌, ◌++◌}
use ps.Common.Text.{Text}
use ps.Common.Constants.{ReplicaState}
use ps.Common.Errors.{Failure, ok, vault, node_error, value_error, type_error, integrity_error}
use ps.Metadata.Models.{Version, Replica, IntegrityJob, Database}
use ps.Metadata.Replicas.{set_replica_state, record_replica_verification}
use ps.Metadata.Session.{calling, pure}
use ps.Metadata.Triples.{updating, Stays, Stays-calling, Stays->>=, stays}
use ps.Metadata.Consistency.{IsConsistent}
use ps.Metadata.Consistency.Preserved.Replicas.{
  set_replica_state-IsConsistent, record_replica_verification-IsConsistent,
}
use ps.Replication.Writes.{Verification}
use ps.Maintenance.Clients.{NodeClient, ClientFactory}
use ps.Repair.Safety.{IsConsistent-jobs, consistent_repairs}
use ps.Repair.Scheduling.{schedule_for_version}
use ps.Repair.Kept.{schedule_for_version-Stays}
use ps.Integrity.Verify.{IntegrityManager, report_corruption, report_match, inspect, verify_replica}
use ps.Integrity.Jobs.{
  verify_all, scan_node, scan_version, scan_nodes, scan_all, scan_target, save_job, on_failure,
  scan_and_finish, run_started, run_job, add_check, create_check, require_node, require_version,
}

module _ (m : IntegrityManager) (clients : ClientFactory) where
  scheduling :
      (v : ℕ) (factor : Option ℤ) (preferred : Option Replica)
      → Stays IsConsistent (schedule_for_version m.repairs v factor preferred)
  scheduling v factor preferred =
      schedule_for_version-Stays consistent_repairs.add m.repairs v factor preferred

  corrupting : (i : ℕ) → Stays IsConsistent (calling (set_replica_state i ReplicaState.corrupted))
  corrupting i =
      Stays-calling (set_replica_state i ReplicaState.corrupted)
        (set_replica_state-IsConsistent i ReplicaState.corrupted)

  report_corruption-Stays :
      (v : Version) (r : Replica) (measured : Verification)
      → Stays IsConsistent (report_corruption m v r measured)
  unfolding report_corruption
  report_corruption-Stays v r measured = search (stays, scheduling, corrupting)

  recording :
      (i : ℕ) (checksum : Text) (size : ℤ)
      → Stays IsConsistent (calling (record_replica_verification i checksum size))
  recording i checksum size =
      Stays-calling (record_replica_verification i checksum size)
        (record_replica_verification-IsConsistent i checksum size)

  report_match-Stays :
      (r : Replica) (measured : Verification) → Stays IsConsistent (report_match r measured)
  unfolding report_match
  report_match-Stays r measured = search (stays, recording)

  inspect-Stays :
      (c : NodeClient) (v : Version) (r : Replica) → Stays IsConsistent (inspect m c v r)
  unfolding inspect
  inspect-Stays c v r = search (stays, report_match-Stays, report_corruption-Stays)

  pub verify_replica-Stays : (now i : ℕ) → Stays IsConsistent (verify_replica m clients now i)
  unfolding verify_replica
  verify_replica-Stays now i = search (stays, inspect-Stays) depth 12

  verify_all-Stays : (now : ℕ) (ids : List ℕ) → Stays IsConsistent (verify_all m clients now ids)
  unfolding verify_all
  verify_all-Stays now [] = search (stays)
  verify_all-Stays now (i ∷ ids) =
      Stays->>= (verify_replica m clients now i) _ (verify_replica-Stays now i) (λ result.
        Stays->>= (verify_all m clients (now + 1) ids) (λ results. pure (result ∷ results))
          (verify_all-Stays (now + 1) ids) (λ results. search (stays)))

  pub scan_node-Stays : (now : ℕ) (n : Text) → Stays IsConsistent (scan_node m clients now n)
  unfolding scan_node
  scan_node-Stays now n = search (stays, verify_all-Stays) depth 12

  scan_version-Stays : (now v : ℕ) → Stays IsConsistent (scan_version m clients now v)
  unfolding scan_version
  scan_version-Stays now v = search (stays, verify_all-Stays) depth 12

  scan_nodes-Stays :
      (step now : ℕ) (ns : List Text) → Stays IsConsistent (scan_nodes m clients step now ns)
  unfolding scan_nodes
  scan_nodes-Stays step now [] = search (stays)
  scan_nodes-Stays step now (n ∷ ns) =
      Stays->>= (scan_node m clients now n) _ (scan_node-Stays now n) (λ found.
        Stays->>= (scan_nodes m clients step (now + step) ns) (λ more. pure (found ++ more))
          (scan_nodes-Stays step (now + step) ns) (λ more. search (stays)))

  scan_target-Stays :
      (step now : ℕ) (n : Option Text) (v : Option ℕ)
      → Stays IsConsistent (scan_target m clients step now n v)
  unfolding scan_target scan_all
  scan_target-Stays step now (some n) v = scan_node-Stays now n
  scan_target-Stays step now none (some v) = scan_version-Stays now v
  scan_target-Stays step now none none = search (stays, scan_nodes-Stays)

  saving : (job : IntegrityJob) → Stays IsConsistent (updating (save_job job))
  saving job = record { at = λ db c. IsConsistent-jobs db _ refl refl refl refl c }

  on_failure-Stays : (job : IntegrityJob) (e : Failure) → Stays IsConsistent (on_failure m job e)
  unfolding on_failure
  on_failure-Stays job (vault e) = search (stays, saving)
  on_failure-Stays job (node_error e) = search (stays, saving)
  on_failure-Stays job value_error = search (stays)
  on_failure-Stays job type_error = search (stays)
  on_failure-Stays job integrity_error = search (stays)

  pub run_job-Stays : (step now i : ℕ) → Stays IsConsistent (run_job m clients step now i)
  unfolding run_job run_started scan_and_finish
  run_job-Stays step now i = search (stays, saving, scan_target-Stays, on_failure-Stays) depth 12

add_check-eq-ok :
    (n : Option Text) (v : Option ℕ) (db : Database) {r : IntegrityJob × Database}
    → add_check n v db ≡ ok r
    → r.1 ≡ record db { integrity_jobs = r.1.integrity_jobs; drawn = db.drawn + 1 }
unfolding add_check
add_check-eq-ok n v db h = ground arith

adding : (n : Option Text) (v : Option ℕ) → Stays IsConsistent (calling (add_check n v))
adding n v =
    Stays-calling (add_check n v)
      (λ db r h c. rw (add_check-eq-ok n v db h) (IsConsistent-jobs db _ refl refl refl refl c))

requiring_node : (n : Option Text) → Stays IsConsistent (require_node n)
requiring_node none = search (stays)
requiring_node (some n) = search (stays)

requiring_version : (v : Option ℕ) → Stays IsConsistent (require_version v)
requiring_version none = search (stays)
requiring_version (some v) = search (stays)

pub create_check-Stays : (n : Option Text) (v : Option ℕ) → Stays IsConsistent (create_check n v)
unfolding create_check
create_check-Stays n v = search (stays, requiring_node, requiring_version, adding)

-- An integrity job, with the replicas that it verifies and the repairs that it schedules, keeps the
-- database consistent, whatever the storage nodes answer and whatever is raised on the way.
pub integrity_job-IsConsistent :
    (m : IntegrityManager) (clients : ClientFactory) (step now i : ℕ) (db : Database)
    → IsConsistent db
    → IsConsistent (run_job m clients step now i db).1
integrity_job-IsConsistent m clients step now i db c = (run_job-Stays m clients step now i).at db c
