-- ===== src/Health/Detector.antt =====
-- health/failure_detector.py: nodes that miss heartbeats, and the repairs that this asks for. Times
-- and thresholds are whole ticks of the clock.
use ps.Prelude.{
  ℕ, ℤ, ◌-◌, Bool, ◌&&◌, Option, none, some, List, [], ◌∷◌, ◌==◌, if◌then◌else◌, select, sort_by,
  ltb, leb, nat_eq, text_eq,
}
use ps.Common.Text.{Text}
use ps.Common.Constants.{NodeState, ReplicaState, node_state_eq, replica_state_eq}
use ps.Common.Errors.{Failure, vault, ok}
use ps.Metadata.Models.{StorageNode, Replica, RepairJob, Database}
use ps.Metadata.Replicas.{set_replica_state}
use ps.Metadata.Session.{Session, pure, raise, reading, calling, ◌>>=◌, ◌>>◌}
use ps.Metadata.Triples.{attempt}
use ps.Health.Registry.{get, list_nodes, mark_suspect, mark_unavailable}
use ps.Rebalance.Queries.{is_on, is_committed_in}
use ps.Repair.Queries.{RepairManager}
use ps.Repair.Scheduling.{schedule_for_version}

-- `repairs` is what `repair_manager_factory` makes.
pub record FailureDetector : Type 0 where
  pub suspect_after : ℕ
  pub unavailable_after : ℕ
  pub replication_factor : ℤ
  pub repairs : RepairManager

pub record NodeTransition : Type 0 where
  pub node_id : Text
  pub previous : NodeState
  pub current : NodeState
  pub repair_ids : List ℕ

-- The tests of `__init__`.
abbrev pub accepts_thresholds : ℕ → ℕ → Bool
accepts_thresholds suspect_after unavailable_after =
    ltb 0 suspect_after && ltb suspect_after unavailable_after

-- The HEALTHY committed replicas of the node, by version.
unfoldable pub replicas_on_node : Text → Database → List Replica
replicas_on_node node_id db =
    sort_by (λ (a b : Replica). ltb a.version_id b.version_id)
      (select
        (λ (r : Replica).
          is_on node_id r && (r.status == ReplicaState.healthy) && is_committed_in db r)
        db.replicas)

-- A domain error of the scheduling is logged and passed over.
abbrev pub pass_over : Failure → Session (Option RepairJob)
pass_over (vault e) = pure none
pass_over failure = raise failure

abbrev pub add_id : Option RepairJob → List ℕ → List ℕ
add_id none ids = ids
add_id (some job) ids = job.repair_id ∷ ids

module _ (detector : FailureDetector) where
  unfoldable pub schedule_one : Replica → Session (Option RepairJob)
  schedule_one replica = do
    calling (set_replica_state replica.replica_id ReplicaState.unavailable)
    attempt
        (schedule_for_version detector.repairs replica.version_id (some detector.replication_factor)
          none)
        pass_over

  unfoldable pub schedule_each : List Replica → Session (List ℕ)
  unfolding schedule_one
  schedule_each [] = pure []
  schedule_each (replica ∷ replicas) = do
    job ← schedule_one replica
    ids ← schedule_each replicas
    pure (add_id job ids)

  -- `_schedule_repairs_for_node`
  unfoldable pub schedule_repairs : Text → Session (List ℕ)
  unfolding schedule_each
  schedule_repairs node_id = do
    replicas ← reading (λ db. ok (replicas_on_node node_id db))
    schedule_each replicas

  abbrev pub transition : NodeState → StorageNode → List ℕ → Option NodeTransition
  transition previous updated repair_ids = some (record {
    node_id = updated.node_id;
    previous = previous;
    current = updated.status;
    repair_ids = repair_ids;
  })

  unfoldable pub suspect : NodeState → StorageNode → Session (Option NodeTransition)
  suspect previous node = do
    updated ← calling (mark_suspect node.node_id)
    pure (transition previous updated [])

  unfoldable pub mark_lost : StorageNode → Session (Option NodeTransition)
  unfolding schedule_repairs
  mark_lost node = do
    updated ← calling (mark_unavailable node.node_id)
    repair_ids ← schedule_repairs updated.node_id
    pure (transition NodeState.suspect updated repair_ids)

  -- What the time since the last heartbeat means in each state.
  unfoldable pub judge : NodeState → StorageNode → ℕ → Session (Option NodeTransition)
  unfolding suspect mark_lost
  judge NodeState.healthy node elapsed =
      if leb detector.suspect_after elapsed then suspect NodeState.healthy node else pure none
  judge NodeState.suspect node elapsed =
      if leb detector.unavailable_after elapsed then mark_lost node else pure none
  judge NodeState.recovering node elapsed =
      if leb detector.suspect_after elapsed then suspect NodeState.recovering node else pure none
  judge _ node elapsed = pure none

  -- A node without a heartbeat, or with one from the future, is left alone.
  unfoldable pub evaluate_at : Option ℕ → StorageNode → ℕ → Session (Option NodeTransition)
  unfolding judge
  evaluate_at none node now = pure none
  evaluate_at (some last) node now =
      if ltb now last then pure none else judge node.status node (now - last)

  unfoldable pub evaluate : StorageNode → ℕ → Session (Option NodeTransition)
  unfolding evaluate_at
  evaluate node now = evaluate_at node.last_heartbeat_at node now

  unfoldable pub check_node : Text → ℕ → Session (Option NodeTransition)
  unfolding evaluate
  check_node node_id now = do node ← reading (get node_id); evaluate node now

  abbrev pub add_transition : Option NodeTransition → List NodeTransition → List NodeTransition
  add_transition none transitions = transitions
  add_transition (some t) transitions = t ∷ transitions

  unfoldable pub evaluate_all : List StorageNode → ℕ → Session (List NodeTransition)
  unfolding evaluate
  evaluate_all [] now = pure []
  evaluate_all (node ∷ nodes) now = do
    found ← evaluate node now
    more ← evaluate_all nodes now
    pure (add_transition found more)

  unfoldable pub scan : ℕ → Session (List NodeTransition)
  unfolding evaluate_all
  scan now = do nodes ← reading (λ db. ok (list_nodes none db)); evaluate_all nodes now
