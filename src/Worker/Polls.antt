-- ===== src/Worker/Polls.antt =====
-- worker/tasks.py: `process_node_health`, which polls the nodes, takes in what they answer as
-- heartbeats and scans for those that are silent.
use ps.Prelude.{
  ℕ, ℤ, ◌+◌, Bool, not, ◌&&◌, ◌||◌, Option, none, some, List, [], ◌∷◌, ◌++◌, ◌==◌, if◌then◌else◌,
  select, sort_by, nat_eq, text_eq,
}
use ps.Table.{find}
use ps.Common.Text.{Text, lower, text_ltb}
use ps.Common.Constants.{NodeState, node_state_eq}
use ps.Common.Errors.{Result, ok, err}
use ps.Metadata.Models.{StorageNode, RepairJob, Database}
use ps.Metadata.Session.{Session, pure, reading, ◌>>=◌, ◌>>◌}
use ps.Repair.Queries.{repair_key}
use ps.Health.Payload.{HeartbeatPayload, new_payload}
use ps.Health.Heartbeats.{ingest}
use ps.Health.Detector.{NodeTransition, scan}
use ps.Health.Recovered.{ingest_and_recover}
use ps.Worker.Tasks.{Task, Worker, repair_for}

-- replication/node_client.py: what `health` and `stats` return.
pub record NodeHealth : Type 0 where
  pub status : Text
  pub node_id : Text

pub record NodeStats : Type 0 where
  pub capacity_bytes : ℤ
  pub used_bytes : ℤ

-- The answers of a node, none for an error of the client, and the time when they are there.
pub record Polled : Type 0 where
  pub health : Option NodeHealth
  pub stats : Option NodeStats
  pub time : ℕ

abbrev healthy_text : Text
healthy_text = b'h' ∷ b'e' ∷ b'a' ∷ b'l' ∷ b't' ∷ b'h' ∷ b'y' ∷ []

-- pydantic's `ValidationError` is caught.
abbrev or_none : Result HeartbeatPayload → Option HeartbeatPayload
or_none (ok payload) = some payload
or_none (err failure) = none

-- `poll_node`
unfoldable pub poll_node : StorageNode → Polled → Option HeartbeatPayload
unfolding new_payload
poll_node node polled = elim polled.health [
  | none ↦ none
  | some health ↦ elim polled.stats [
    | none ↦ none
    | some stats ↦
        if not (health.node_id == node.node_id) || not (lower health.status == healthy_text)
        then none
        else or_none (new_payload node.node_id stats.capacity_bytes stats.used_bytes polled.time)
  ]
]

abbrev pub is_polled : StorageNode → Bool
is_polled node = not (node.status == NodeState.draining) && not (node.status == NodeState.removed)

unfoldable pub polled_nodes : Database → List StorageNode
polled_nodes db =
    sort_by (λ (a b : StorageNode). text_ltb a.node_id b.node_id) (select is_polled db.nodes)

-- The version of a repair that a transition has scheduled, and the task for it.
abbrev pub task_of : ℕ → Option RepairJob → List Task
task_of repair_id none = []
task_of repair_id (some job) = repair_for job.version_id (some repair_id)

abbrev pub tasks_for : List ℕ → Database → List Task
tasks_for [] db = []
tasks_for (i ∷ ids) db = task_of i (find repair_key i db.repair_jobs) ++ tasks_for ids db

abbrev pub tasks_after : List NodeTransition → Database → List Task
tasks_after [] db = []
tasks_after (t ∷ ts) db = tasks_for t.repair_ids db ++ tasks_after ts db

module _ (w : Worker) (polls : StorageNode → Polled) where
  abbrev pub ingest_polled : ℕ → StorageNode → Option HeartbeatPayload → Session (Unit {0})
  ingest_polled now node none = pure tt
  ingest_polled now node (some payload) = do
    if node.status == NodeState.unavailable
        then ingest_and_recover w.recovery w.clients now payload
        else ingest payload
    pure tt

  -- Each node is reconciled at later times than those before it.
  unfoldable pub ingest_each : ℕ → List StorageNode → Session (Unit {0})
  unfolding poll_node
  ingest_each now [] = pure tt
  ingest_each now (node ∷ nodes) = do
    ingest_polled now node (poll_node node (polls node))
    ingest_each (now + w.step) nodes

  unfoldable pub run_process_node_health : ℕ → ℕ → Session (List Task)
  unfolding polled_nodes ingest_each
  run_process_node_health now clock = do
    nodes ← reading (λ db. ok (polled_nodes db))
    ingest_each now nodes
    transitions ← scan w.detector clock
    reading (λ db. ok (tasks_after transitions db))
