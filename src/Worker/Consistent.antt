-- ===== src/Worker/Consistent.antt =====
-- What a task writes in its session keeps the database consistent.
use ps.Prelude.{ℕ, ◌+◌, Option, none, some, List, [], ◌∷◌}
use ps.Common.Text.{Text}
use ps.Common.Errors.{Failure, vault, node_error, value_error, type_error, integrity_error}
use ps.Metadata.Models.{Version, StorageNode, Replica, Database}
use ps.Metadata.Session.{Session, pure, ◌>>=◌}
use ps.Metadata.Triples.{Stays, Stays->>=, Stays-attempt, stays}
use ps.Metadata.Consistency.{IsConsistent}
use ps.Repair.Safety.{consistent_repairs}
use ps.Repair.Kept.{schedule_for_version-Stays, repair_version_until_healthy-Stays}
use ps.Repair.Kept as Repairs
use ps.Rebalance.Kept as Migrations
use ps.Rebalance.Consistent.{consistent_migrations, drain_node-Stays}
use ps.Integrity.Consistent.{verify_replica-Stays, scan_node-Stays, create_check-Stays}
use ps.Integrity.Consistent as Checks
use ps.Health.Payload.{HeartbeatPayload}
use ps.Health.Scans.{consistent_scan}
use ps.Health.Recovered.{ingest-Stays, ingest_and_recover-Stays}
use ps.Worker.Tasks.{
  Task, Worker, Performed, returned, ended_with, performed, blocked, and_then, schedule_version,
  schedule_versions, run_repair_version, run_verify_replica, run_scan_node,
  run_check_under_replicated_objects, run_rebalance_node, run_migration, run_migrate_replica,
  run_run_integrity_check, run_scan_all_integrity,
}
use ps.Worker.Polls.{Polled, poll_node, ingest_polled, ingest_each, run_process_node_health}
use ps.Worker.Queue.{Run, perform}

performed-Stays :
    (body : Session (List Task)) → Stays IsConsistent body → Stays IsConsistent (performed body)
performed-Stays body k =
    Stays-attempt (body >>= λ queued. pure (returned queued)) ended_with
      (Stays->>= body (λ queued. pure (returned queued)) k (λ queued. search (stays)))
      (λ e. search (stays))

module _ (w : Worker) (now : ℕ) where
  run_repair_version-Stays :
      (v : ℕ) (o : Option ℕ) → Stays IsConsistent (run_repair_version w now v o)
  unfolding run_repair_version
  run_repair_version-Stays v (some i) = search (stays, (Repairs.run_job-Stays consistent_repairs))
  run_repair_version-Stays v none =
      search (stays, (repair_version_until_healthy-Stays consistent_repairs))

  run_verify_replica-Stays : (i : ℕ) → Stays IsConsistent (run_verify_replica w now i)
  unfolding run_verify_replica
  run_verify_replica-Stays i = search (stays, verify_replica-Stays)

  run_scan_node-Stays : (n : Text) → Stays IsConsistent (run_scan_node w now n)
  unfolding run_scan_node
  run_scan_node-Stays n = search (stays, scan_node-Stays)

  blocked-Stays : (e : Failure) → Stays IsConsistent (blocked w now e)
  blocked-Stays (vault e) = search (stays)
  blocked-Stays (node_error e) = search (stays)
  blocked-Stays value_error = search (stays)
  blocked-Stays type_error = search (stays)
  blocked-Stays integrity_error = search (stays)

  schedule_version-Stays : (v : Version) → Stays IsConsistent (schedule_version w now v)
  unfolding schedule_version
  schedule_version-Stays v =
      search (stays, (schedule_for_version-Stays consistent_repairs.add), blocked-Stays)

  and_then-Stays :
      (rest : Session Performed)
      → Stays IsConsistent rest
      → (queued : List Task) (o : Option Failure)
      → Stays IsConsistent (and_then w now rest (record { queued = queued; error = o }))
  and_then-Stays rest k queued none = Stays->>= rest _ k (λ more. search (stays))
  and_then-Stays rest k queued (some e) = search (stays)

  schedule_versions-Stays : (vs : List Version) → Stays IsConsistent (schedule_versions w now vs)
  unfolding schedule_versions
  schedule_versions-Stays [] = search (stays)
  schedule_versions-Stays (v ∷ vs) =
      Stays->>= (schedule_version w now v) (and_then w now (schedule_versions w now vs))
        (schedule_version-Stays v)
        (λ p.
          and_then-Stays (schedule_versions w now vs) (schedule_versions-Stays vs) p.queued p.error)

  run_check-Stays : Stays IsConsistent (run_check_under_replicated_objects w now)
  unfolding run_check_under_replicated_objects
  run_check-Stays = search (stays, schedule_versions-Stays)

  run_rebalance_node-Stays : (n : Text) → Stays IsConsistent (run_rebalance_node w now n)
  unfolding run_rebalance_node
  run_rebalance_node-Stays n = search (stays, drain_node-Stays)

  run_migration-Stays :
      (r : Replica) (n : Text) (o : Option ℕ) → Stays IsConsistent (run_migration w now r n o)
  run_migration-Stays r n none =
      search (stays, (Migrations.migrate_replica-Stays consistent_migrations))
  run_migration-Stays r n (some i) =
      search (stays, (Migrations.run_job-Stays consistent_migrations))

  run_migrate_replica-Stays :
      (i : ℕ) (n : Text) (o : Option ℕ) → Stays IsConsistent (run_migrate_replica w now i n o)
  unfolding run_migrate_replica
  run_migrate_replica-Stays i n o = search (stays, run_migration-Stays)

  run_run_integrity_check-Stays : (i : ℕ) → Stays IsConsistent (run_run_integrity_check w now i)
  unfolding run_run_integrity_check
  run_run_integrity_check-Stays i = search (stays, Checks.run_job-Stays)

  run_scan_all_integrity-Stays : Stays IsConsistent (run_scan_all_integrity w now)
  unfolding run_scan_all_integrity
  run_scan_all_integrity-Stays = search (stays, create_check-Stays)

module _ (w : Worker) (polls : StorageNode → Polled) where
  ingest_polled-Stays :
      (now : ℕ) (n : StorageNode) (o : Option HeartbeatPayload)
      → Stays IsConsistent (ingest_polled w polls now n o)
  ingest_polled-Stays now n none = search (stays)
  ingest_polled-Stays now n (some p) = search (stays, ingest-Stays, ingest_and_recover-Stays)

  ingest_each-Stays :
      (now : ℕ) (ns : List StorageNode) → Stays IsConsistent (ingest_each w polls now ns)
  unfolding ingest_each
  ingest_each-Stays now [] = search (stays)
  ingest_each-Stays now (n ∷ ns) =
      Stays->>= (ingest_polled w polls now n (poll_node n (polls n))) _
        (ingest_polled-Stays now n (poll_node n (polls n)))
        (λ done. ingest_each-Stays (now + w.step) ns)

  run_process_node_health-Stays :
      (now clock : ℕ) → Stays IsConsistent (run_process_node_health w polls now clock)
  unfolding run_process_node_health
  run_process_node_health-Stays now clock = search (stays, ingest_each-Stays, consistent_scan)

perform-Stays : (w : Worker) (task : Task) (run : Run) → Stays IsConsistent (perform w task run)
unfolding perform
perform-Stays w (Task.repair_version v o) run =
    performed-Stays _ (run_repair_version-Stays w run.now v o)
perform-Stays w (Task.verify_replica i) run =
    performed-Stays _ (run_verify_replica-Stays w run.now i)
perform-Stays w (Task.scan_node n) run = performed-Stays _ (run_scan_node-Stays w run.now n)
perform-Stays w Task.check_under_replicated_objects run = run_check-Stays w run.now
perform-Stays w (Task.rebalance_node n) run =
    performed-Stays _ (run_rebalance_node-Stays w run.now n)
perform-Stays w (Task.migrate_replica i n o) run =
    performed-Stays _ (run_migrate_replica-Stays w run.now i n o)
perform-Stays w Task.process_node_health run =
    performed-Stays _ (run_process_node_health-Stays w run.polls run.now run.clock)
perform-Stays w (Task.run_integrity_check i) run =
    performed-Stays _ (run_run_integrity_check-Stays w run.now i)
perform-Stays w Task.scan_all_integrity run =
    performed-Stays _ (run_scan_all_integrity-Stays w run.now)

-- The session of any task, when it ends and before it is rolled back to its last commit, has a
-- consistent database, whatever the storage nodes answer and whatever is raised on the way.
pub perform-IsConsistent :
    (w : Worker) (task : Task) (run : Run) (db : Database)
    → IsConsistent db
    → IsConsistent (perform w task run db).1
perform-IsConsistent w task run db c = (perform-Stays w task run).at db c
