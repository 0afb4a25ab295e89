-- ===== src/Worker/Queue.antt =====
-- worker/tasks.py: the run of any task, to the end of its session. `session_scope` then takes back
-- what no manager has committed.
use ps.Prelude.{ℕ}
use ps.Metadata.Models.{StorageNode}
use ps.Metadata.Session.{Session}
use ps.Worker.Tasks.{
  Task, Worker, Performed, performed, run_repair_version, run_verify_replica, run_scan_node,
  run_check_under_replicated_objects, run_rebalance_node, run_migrate_replica,
  run_run_integrity_check, run_scan_all_integrity,
}
use ps.Worker.Polls.{Polled, run_process_node_health}

-- What surrounds the run of a task: the time of its calls, that of the clock, and what the nodes answer to a poll.
pub record Run : Type 0 where
  pub now : ℕ
  pub clock : ℕ
  pub polls : StorageNode → Polled

module _ (w : Worker) where
  unfoldable pub perform : Task → Run → Session Performed
  unfolding run_repair_version run_verify_replica run_scan_node run_check_under_replicated_objects
      run_rebalance_node run_migrate_replica run_run_integrity_check run_scan_all_integrity
      run_process_node_health
  perform (Task.repair_version version_id repair_id) run =
      performed (run_repair_version w run.now version_id repair_id)
  perform (Task.verify_replica replica_id) run = performed (run_verify_replica w run.now replica_id)
  perform (Task.scan_node node_id) run = performed (run_scan_node w run.now node_id)
  perform Task.check_under_replicated_objects run = run_check_under_replicated_objects w run.now
  perform (Task.rebalance_node node_id) run = performed (run_rebalance_node w run.now node_id)
  perform (Task.migrate_replica replica_id target_node_id rebalance_id) run =
      performed (run_migrate_replica w run.now replica_id target_node_id rebalance_id)
  perform Task.process_node_health run =
      performed (run_process_node_health w run.polls run.now run.clock)
  perform (Task.run_integrity_check integrity_id) run =
      performed (run_run_integrity_check w run.now integrity_id)
  perform Task.scan_all_integrity run = performed (run_scan_all_integrity w run.now)
