-- ===== src/Recovery/Consistent.antt =====
-- What the reconciliation of a node keeps, whether it returns or raises.
use ps.Prelude.{ℕ, ℤ, ◌+◌, List, [], ◌∷◌, nat_eq, text_eq}
use ps.Common.Text.{Text}
use ps.Common.Constants.{NodeState, ReplicaState}
use ps.Common.Errors.{
  NodeError, Failure, Result, ok, err, vault, node_error, value_error, type_error, integrity_error,
}
use ps.Metadata.Models.{Version, StorageNode, Replica, Database}
use ps.Metadata.Nodes.{transition_node_state}
use ps.Metadata.Replicas.{set_replica_state, mark_replica_healthy, record_replica_verification}
use ps.Metadata.Session.{calling}
use ps.Metadata.Triples.{Stays, Stays-calling, Stays-reading, Stays->>=, stays}
use ps.Metadata.Consistency.{IsConsistent}
use ps.Metadata.Consistency.Preserved.Replicas.{
  set_replica_state-IsConsistent, mark_replica_healthy-IsConsistent,
  record_replica_verification-IsConsistent,
}
use ps.Replication.Writes.{Verification}
use ps.Maintenance.Clients.{ClientFactory}
use ps.Maintenance.Rows.{find_version}
use ps.Repair.Queries.{add_job}
use ps.Repair.Safety.{consistent_repairs}
use ps.Repair.Kept.{schedule_for_version-Stays}
use ps.Recovery.Reconcile.{
  RecoveryResult, PartitionRecoveryManager, mark_verified_replica, schedule_repair, not_scheduled,
  give_to_repair, accept, after_answer, reconcile_each, reconcile_node, mark_node_healthy,
  reconcile_and_mark_healthy,
}

-- The writes of the reconciliation of a node.
pub record RecoveryKeeps {μ} (P : Database → Type μ) : Type μ where
  pub set : (i : ℕ) (s : ReplicaState) → Stays P (calling (set_replica_state i s))
  pub mark : (i : ℕ) (c : Text) (z : ℤ) → Stays P (calling (mark_replica_healthy i c z))
  pub verify : (i : ℕ) (c : Text) (z : ℤ) → Stays P (calling (record_replica_verification i c z))
  pub add : (v : ℕ) (s t : Text) → Stays P (calling (add_job v s t))

module _ {μ} {P : Database → Type μ} (k : RecoveryKeeps P) where
  pub mark_verified_replica-Stays :
      (s : ReplicaState) (r : Replica) (x : Verification) → Stays P (mark_verified_replica s r x)
  unfolding mark_verified_replica
  mark_verified_replica-Stays ReplicaState.healthy r x = search (stays, k.verify)
  mark_verified_replica-Stays ReplicaState.failed r x = search (stays)
  mark_verified_replica-Stays ReplicaState.pending r x = search (stays, k.set, k.mark)
  mark_verified_replica-Stays ReplicaState.corrupted r x = search (stays, k.set, k.mark)
  mark_verified_replica-Stays ReplicaState.stale r x = search (stays, k.set, k.mark)
  mark_verified_replica-Stays ReplicaState.unavailable r x = search (stays, k.set, k.mark)
  mark_verified_replica-Stays ReplicaState.repairing r x = search (stays, k.mark)
  mark_verified_replica-Stays ReplicaState.copying r x = search (stays)

  not_scheduled-Stays : (e : Failure) → Stays P (not_scheduled e)
  not_scheduled-Stays (vault e) = search (stays)
  not_scheduled-Stays (node_error e) = search (stays)
  not_scheduled-Stays value_error = search (stays)
  not_scheduled-Stays type_error = search (stays)
  not_scheduled-Stays integrity_error = search (stays)

  module _ (m : PartitionRecoveryManager) where
    pub schedule_repair-Stays : (v : ℕ) (r : Replica) → Stays P (schedule_repair m v r)
    unfolding schedule_repair
    schedule_repair-Stays v r =
        search (stays, not_scheduled-Stays, (schedule_for_version-Stays k.add))

    module _ (v : Version) (r : Replica) (so_far : RecoveryResult) where
      give_to_repair-Stays :
          (s : ReplicaState) (counted : RecoveryResult)
          → Stays P (give_to_repair m v r so_far s counted)
      unfolding give_to_repair
      give_to_repair-Stays s counted = search (stays, k.set, schedule_repair-Stays)

      accept-Stays : (x : Verification) → Stays P (accept m v r so_far x)
      unfolding accept
      accept-Stays x = search (stays, mark_verified_replica-Stays)

      after_answer-Stays : (o : Result Verification) → Stays P (after_answer m v r so_far o)
      unfolding after_answer
      after_answer-Stays (ok x) = search (stays, accept-Stays, give_to_repair-Stays)
      after_answer-Stays (err (node_error NodeError.object_missing)) = give_to_repair-Stays _ _
      after_answer-Stays (err (node_error NodeError.integrity)) = give_to_repair-Stays _ _
      after_answer-Stays (err (node_error NodeError.unavailable)) = search (stays)
      after_answer-Stays (err (node_error NodeError.invalid_request)) = search (stays)
      after_answer-Stays (err (node_error NodeError.object_exists)) = search (stays)
      after_answer-Stays (err (node_error NodeError.insufficient_capacity)) = search (stays)
      after_answer-Stays (err (node_error NodeError.protocol)) = search (stays)
      after_answer-Stays (err (vault e)) = search (stays)
      after_answer-Stays (err value_error) = search (stays)
      after_answer-Stays (err type_error) = search (stays)
      after_answer-Stays (err integrity_error) = search (stays)

    module _ (clients : ClientFactory) where
      reconcile_each-Stays :
          (n : StorageNode) (now : ℕ) (rs : List Replica) (so_far : RecoveryResult)
          → Stays P (reconcile_each m clients n now rs so_far)
      unfolding reconcile_each
      reconcile_each-Stays n now [] so_far = search (stays)
      reconcile_each-Stays n now (r ∷ rs) so_far =
          Stays->>= _ _ (Stays-reading (find_version r.version_id)) (λ v.
            Stays->>= _ _
              (Stays-reading
                (λ db. ok ((clients now n.address).verify_object v.object_id v.version_id)))
              (λ answer.
                Stays->>= (after_answer m v r so_far answer)
                  (reconcile_each m clients n (now + 1) rs) (after_answer-Stays v r so_far answer)
                  (reconcile_each-Stays n (now + 1) rs)))

      pub reconcile_node-Stays : (now : ℕ) (n : Text) → Stays P (reconcile_node m clients now n)
      unfolding reconcile_node
      reconcile_node-Stays now n = search (stays, reconcile_each-Stays) depth 12

      pub reconcile_and_mark_healthy-Stays :
          (now : ℕ) (n : Text)
          → ((s : NodeState) → Stays P (calling (transition_node_state n s)))
          → Stays P (reconcile_and_mark_healthy m clients now n)
      unfolding reconcile_and_mark_healthy mark_node_healthy
      reconcile_and_mark_healthy-Stays now n up = search (stays, reconcile_node-Stays, up) depth 12

pub consistent_recovery : RecoveryKeeps IsConsistent
consistent_recovery = record {
  set = λ i s. Stays-calling (set_replica_state i s) (set_replica_state-IsConsistent i s);
  mark =
      λ i c z. Stays-calling (mark_replica_healthy i c z) (mark_replica_healthy-IsConsistent i c z);
  verify = λ i c z.
      Stays-calling (record_replica_verification i c z)
        (record_replica_verification-IsConsistent i c z);
  add = consistent_repairs.add;
}
