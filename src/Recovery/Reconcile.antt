-- ===== src/Recovery/Reconcile.antt =====
-- recovery/manager.py: `PartitionRecoveryManager`, which verifies the replicas of a RECOVERING node.
use ps.Prelude.{
  ℕ, ℤ, pos, ◌+◌, Bool, true, false, not, ◌&&◌, ◌++◌, Option, none, some, List, [], ◌∷◌, ◌==◌,
  if◌then◌else◌, select, sort_by, ltb, nat_eq, text_eq,
}
use ps.Common.Text.{Text}
use ps.Common.Constants.{NodeState, ReplicaState, node_state_eq, replica_state_eq}
use ps.Common.Errors.{
  VaultError, NodeError, Failure, Result, ok, err, vault, node_error, value_error, type_error,
  integrity_error,
}
use ps.Metadata.Models.{Version, StorageNode, Replica, Database}
use ps.Metadata.Nodes.{transition_node_state}
use ps.Metadata.Replicas.{set_replica_state, mark_replica_healthy, record_replica_verification}
use ps.Metadata.Session.{Session, pure, raise, raise_when, reading, calling, ◌>>=◌, ◌>>◌}
use ps.Metadata.Triples.{attempt}
use ps.Placement.{validate_factor}
use ps.Replication.Writes.{Verification}
use ps.Maintenance.Clients.{ClientFactory, is_version}
use ps.Maintenance.Rows.{find_version, find_node}
use ps.Repair.Queries.{RepairManager}
use ps.Repair.Scheduling.{schedule_for_version}
use ps.Rebalance.Queries.{is_committed_in, is_on}
use ps.Integrity.Verify.{repair_id_of}

-- The messages are left out.
pub record RecoveryResult : Type 0 where
  pub node_id : Text
  pub checked_replicas : ℕ
  pub healthy_replicas : ℕ
  pub missing_replica_ids : List ℕ
  pub corrupted_replica_ids : List ℕ
  pub repair_ids : List ℕ
  pub unresolved_replica_ids : List ℕ
  pub complete : Bool

-- `repairs` is what `repair_manager_factory` makes.
pub record PartitionRecoveryManager : Type 0 where
  pub replication_factor : ℕ
  pub repairs : RepairManager

-- `__init__`, which tests the factor like that of a placement.
unfoldable pub new_recovery : ℤ → RepairManager → Result PartitionRecoveryManager
new_recovery replication_factor repairs = elim (validate_factor replication_factor) [
  | ok factor ↦ ok (record { replication_factor = factor; repairs = repairs })
  | err e ↦ err e
]

-- `_known_replicas`
unfoldable pub known_replicas : Text → Database → List Replica
known_replicas node_id db =
    sort_by (λ (a b : Replica). ltb a.replica_id b.replica_id)
      (select
        (λ (r : Replica).
          is_on node_id r && is_committed_in db r && not (r.status == ReplicaState.failed))
        db.replicas)

abbrev pub set_then_mark : Replica → Verification → Session (Unit {0})
set_then_mark replica measured = do
  calling (set_replica_state replica.replica_id ReplicaState.repairing)
  calling (mark_replica_healthy replica.replica_id measured.checksum (pos measured.size_bytes))
  pure tt

-- `_mark_verified_replica`, by the state of the replica.
unfoldable pub mark_verified_replica : ReplicaState → Replica → Verification → Session (Unit {0})
mark_verified_replica ReplicaState.healthy replica measured = do
  calling
      (record_replica_verification replica.replica_id measured.checksum (pos measured.size_bytes))
  pure tt
mark_verified_replica ReplicaState.failed replica measured = pure tt
mark_verified_replica ReplicaState.pending replica measured = set_then_mark replica measured
mark_verified_replica ReplicaState.corrupted replica measured = set_then_mark replica measured
mark_verified_replica ReplicaState.stale replica measured = set_then_mark replica measured
mark_verified_replica ReplicaState.unavailable replica measured = set_then_mark replica measured
mark_verified_replica ReplicaState.repairing replica measured = do
  calling (mark_replica_healthy replica.replica_id measured.checksum (pos measured.size_bytes))
  pure tt
mark_verified_replica ReplicaState.copying replica measured = raise (vault VaultError.invalid_state)

-- `_schedule_repair`: the job's identifier, and whether an error stands in its place.
abbrev pub Scheduled : Type 0
Scheduled = Option ℕ × Bool

abbrev pub not_scheduled : Failure → Session Scheduled
not_scheduled (vault e) = pure (none, true)
not_scheduled failure = raise failure

unfoldable pub schedule_repair : PartitionRecoveryManager → ℕ → Replica → Session Scheduled
schedule_repair manager version_id replica =
    attempt
      (do
        job ←
            schedule_for_version manager.repairs version_id (some (pos manager.replication_factor))
              (some replica)
        pure (repair_id_of job, false))
      not_scheduled

-- The ends of the lists after a call of `_schedule_repair`.
abbrev pub with_repair : Option ℕ → RecoveryResult → RecoveryResult
with_repair none so_far = so_far
with_repair (some repair_id) so_far = record so_far {
  repair_ids = so_far.repair_ids ++ (repair_id ∷ []);
}

abbrev pub unresolved : Replica → RecoveryResult → RecoveryResult
unresolved replica so_far = record so_far {
  unresolved_replica_ids = so_far.unresolved_replica_ids ++ (replica.replica_id ∷ []);
}

abbrev pub note_repair : Replica → Scheduled → RecoveryResult → RecoveryResult
note_repair replica (repair_id, failed) so_far =
    let noted = with_repair repair_id so_far in if failed then unresolved replica noted else noted

abbrev pub count_healthy : RecoveryResult → RecoveryResult
count_healthy so_far = record so_far {
  checked_replicas = so_far.checked_replicas + 1;
  healthy_replicas = so_far.healthy_replicas + 1;
}

abbrev pub count_missing : Replica → RecoveryResult → RecoveryResult
count_missing replica so_far = record so_far {
  checked_replicas = so_far.checked_replicas + 1;
  missing_replica_ids = so_far.missing_replica_ids ++ (replica.replica_id ∷ []);
}

abbrev pub count_corrupted : Replica → RecoveryResult → RecoveryResult
count_corrupted replica so_far = record so_far {
  checked_replicas = so_far.checked_replicas + 1;
  corrupted_replica_ids = so_far.corrupted_replica_ids ++ (replica.replica_id ∷ []);
}

-- `if replica.status is HEALTHY: set_replica_state(…)`
abbrev pub demote : Replica → ReplicaState → Session (Unit {0})
demote replica state =
    if replica.status == ReplicaState.healthy
    then (do calling (set_replica_state replica.replica_id state); pure tt)
    else pure tt

abbrev pub agrees : Version → Verification → Bool
agrees version measured = measured.verified && measured.valid && is_version version measured

module _ (manager : PartitionRecoveryManager) (version : Version) (replica : Replica)
    (so_far : RecoveryResult) where
  -- The body of a branch for a replica that is not what the metadata says.
  unfoldable pub give_to_repair : ReplicaState → RecoveryResult → Session RecoveryResult
  unfolding schedule_repair
  give_to_repair state counted = do
    demote replica state
    scheduled ← schedule_repair manager version.version_id replica
    pure (note_repair replica scheduled counted)

  unfoldable pub accept : Verification → Session RecoveryResult
  unfolding mark_verified_replica
  accept measured = do
    mark_verified_replica replica.status replica measured
    pure (count_healthy so_far)

  -- What follows `verify_object`, the only call of the `try` that raises an error of the client; the
  -- errors that are not caught by name are caught by `StorageNodeClientError`.
  unfoldable pub after_answer : Result Verification → Session RecoveryResult
  unfolding give_to_repair accept
  after_answer (ok measured) =
      if agrees version measured
      then accept measured
      else give_to_repair ReplicaState.corrupted (count_corrupted replica so_far)
  after_answer (err (node_error NodeError.object_missing)) =
      give_to_repair ReplicaState.unavailable (count_missing replica so_far)
  after_answer (err (node_error NodeError.integrity)) =
      give_to_repair ReplicaState.corrupted (count_corrupted replica so_far)
  after_answer (err (node_error e)) = pure (record (unresolved replica so_far) { complete = false })
  after_answer (err (vault e)) = raise (vault e)
  after_answer (err value_error) = raise value_error
  after_answer (err type_error) = raise type_error
  after_answer (err integrity_error) = raise integrity_error

module _ (manager : PartitionRecoveryManager) (clients : ClientFactory) (node : StorageNode) where
  -- The loop: each replica is verified at a later time. A turn writes the row of its own replica
  -- only, so that the rows read at the start are those of the turn.
  unfoldable pub reconcile_each : ℕ → List Replica → RecoveryResult → Session RecoveryResult
  unfolding after_answer
  reconcile_each now [] so_far = pure so_far
  reconcile_each now (replica ∷ replicas) so_far = do
    version ← reading (find_version replica.version_id)
    answer ←
        reading
          (λ db. ok ((clients now node.address).verify_object version.object_id version.version_id))
    next ← after_answer manager version replica so_far answer
    reconcile_each (now + 1) replicas next

abbrev pub started : Text → RecoveryResult
started node_id = record {
  node_id = node_id;
  checked_replicas = 0;
  healthy_replicas = 0;
  missing_replica_ids = [];
  corrupted_replica_ids = [];
  repair_ids = [];
  unresolved_replica_ids = [];
  complete = true;
}

abbrev pub is_empty_list : List ℕ → Bool
is_empty_list [] = true
is_empty_list (x ∷ xs) = false

-- `complete and not unresolved`
abbrev pub finished : RecoveryResult → RecoveryResult
finished so_far = record so_far {
  complete = so_far.complete && is_empty_list so_far.unresolved_replica_ids;
}

module _ (manager : PartitionRecoveryManager) (clients : ClientFactory) (now : ℕ)
    (node_id : Text) where
  unfoldable pub reconcile_node : Session RecoveryResult
  unfolding reconcile_each known_replicas
  reconcile_node = do
    node ← reading (find_node node_id)
    raise_when (not (node.status == NodeState.recovering)) (vault VaultError.invalid_state)
    replicas ← reading (λ db. ok (known_replicas node_id db))
    so_far ← reconcile_each manager clients node now replicas (started node_id)
    pure (finished so_far)

  -- The node is read again: it is made HEALTHY only if it is still RECOVERING.
  unfoldable pub mark_node_healthy : Session (Unit {0})
  mark_node_healthy = do
    node ← reading (find_node node_id)
    if node.status == NodeState.recovering
        then (do calling (transition_node_state node_id NodeState.healthy); pure tt)
        else pure tt

  unfoldable pub reconcile_and_mark_healthy : Session RecoveryResult
  unfolding reconcile_node mark_node_healthy
  reconcile_and_mark_healthy = do
    result ← reconcile_node
    if result.complete then mark_node_healthy else pure tt
    pure result
