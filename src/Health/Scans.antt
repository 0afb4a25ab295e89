-- ===== src/Health/Scans.antt =====
-- What a scan for silent nodes keeps.
use ps.Prelude.{ℕ, ℤ, Option, none, some, List, [], ◌∷◌}
use ps.Common.Text.{Text}
use ps.Common.Constants.{NodeState, ReplicaState, node_state_eq}
use ps.Common.Errors.{Failure, vault, node_error, value_error, type_error, integrity_error}
use ps.Metadata.Models.{StorageNode, Replica, Database}
use ps.Metadata.Nodes.{transition_node_state}
use ps.Metadata.Replicas.{set_replica_state}
use ps.Metadata.Session.{calling}
use ps.Metadata.Triples.{Stays, Stays-calling, Stays->>=, stays}
use ps.Metadata.Consistency.{IsConsistent}
use ps.Metadata.Consistency.Preserved.Nodes.{transition_node_state-IsConsistent}
use ps.Metadata.Consistency.Preserved.Replicas.{set_replica_state-IsConsistent}
use ps.Repair.Scheduling.{schedule_for_version}
use ps.Repair.Safety.{consistent_repairs}
use ps.Repair.Kept.{schedule_for_version-Stays}
use ps.Health.Detector.{
  FailureDetector, pass_over, schedule_one, schedule_each, schedule_repairs, suspect, mark_lost,
  judge, evaluate_at, evaluate, evaluate_all, scan,
}

-- The rules that hold of any predicate which the writes of the detector keep.
module _ {P : Database → Type 0} (d : FailureDetector)
    (down : (n : Text) (s : NodeState) → Stays P (calling (transition_node_state n s)))
    (lost : (i : ℕ) → Stays P (calling (set_replica_state i ReplicaState.unavailable)))
    (scheduling : (v : ℕ) (f : Option ℤ) (r : Option Replica)
      → Stays P (schedule_for_version d.repairs v f r)) where
  pass_over-Stays : (e : Failure) → Stays P (pass_over e)
  pass_over-Stays (vault e) = search (stays)
  pass_over-Stays (node_error e) = search (stays)
  pass_over-Stays value_error = search (stays)
  pass_over-Stays type_error = search (stays)
  pass_over-Stays integrity_error = search (stays)

  schedule_one-Stays : (r : Replica) → Stays P (schedule_one d r)
  unfolding schedule_one
  schedule_one-Stays r = search (stays, lost, scheduling, pass_over-Stays)

  schedule_each-Stays : (rs : List Replica) → Stays P (schedule_each d rs)
  unfolding schedule_each
  schedule_each-Stays [] = search (stays)
  schedule_each-Stays (r ∷ rs) =
      Stays->>= (schedule_one d r) _ (schedule_one-Stays r)
        (λ job. Stays->>= (schedule_each d rs) _ (schedule_each-Stays rs) (λ ids. search (stays)))

  pub schedule_repairs-Stays : (n : Text) → Stays P (schedule_repairs d n)
  unfolding schedule_repairs
  schedule_repairs-Stays n = search (stays, schedule_each-Stays)

  suspect-Stays : (s : NodeState) (node : StorageNode) → Stays P (suspect d s node)
  unfolding suspect
  suspect-Stays s node = search (stays, down)

  mark_lost-Stays : (node : StorageNode) → Stays P (mark_lost d node)
  unfolding mark_lost
  mark_lost-Stays node = search (stays, down, schedule_repairs-Stays)

  judge-Stays :
      (s : NodeState) (node : StorageNode) (silence : ℕ) → Stays P (judge d s node silence)
  unfolding judge
  judge-Stays NodeState.healthy node silence = search (stays, suspect-Stays)
  judge-Stays NodeState.suspect node silence = search (stays, mark_lost-Stays)
  judge-Stays NodeState.recovering node silence = search (stays, suspect-Stays)
  judge-Stays NodeState.joining node silence = search (stays)
  judge-Stays NodeState.unavailable node silence = search (stays)
  judge-Stays NodeState.draining node silence = search (stays)
  judge-Stays NodeState.removed node silence = search (stays)

  evaluate_at-Stays :
      (last : Option ℕ) (node : StorageNode) (now : ℕ) → Stays P (evaluate_at d last node now)
  unfolding evaluate_at
  evaluate_at-Stays none node now = search (stays)
  evaluate_at-Stays (some last) node now = search (stays, judge-Stays)

  evaluate_all-Stays : (nodes : List StorageNode) (now : ℕ) → Stays P (evaluate_all d nodes now)
  unfolding evaluate_all evaluate
  evaluate_all-Stays [] now = search (stays)
  evaluate_all-Stays (node ∷ nodes) now =
      Stays->>= (evaluate_at d node.last_heartbeat_at node now) _
        (evaluate_at-Stays node.last_heartbeat_at node now)
        (λ found.
          Stays->>= (evaluate_all d nodes now) _ (evaluate_all-Stays nodes now)
            (λ more. search (stays)))

  pub scan-Stays : (now : ℕ) → Stays P (scan d now)
  unfolding scan
  scan-Stays now = search (stays, evaluate_all-Stays)

pub consistent_scan : (d : FailureDetector) (now : ℕ) → Stays IsConsistent (scan d now)
consistent_scan d now =
    scan-Stays d
      (λ n s. Stays-calling (transition_node_state n s) (transition_node_state-IsConsistent n s))
      (λ i.
        Stays-calling (set_replica_state i ReplicaState.unavailable)
          (set_replica_state-IsConsistent i ReplicaState.unavailable))
      (λ v f r. schedule_for_version-Stays consistent_repairs.add d.repairs v f r) now

-- A scan for silent nodes, with the replicas that it marks and the repairs that it schedules, keeps
-- the database consistent.
pub scan-IsConsistent :
    (d : FailureDetector) (now : ℕ) (db : Database)
    → IsConsistent db
    → IsConsistent (scan d now db).1
scan-IsConsistent d now db c = (consistent_scan d now).at db c
