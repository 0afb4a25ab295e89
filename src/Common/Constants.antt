-- ===== src/Common/Constants.antt =====
-- common/constants.py: the canonical states, their transition tables, and the policy defaults.
use ps.Prelude.{ℕ, ◌≡◌, ◌↔◌, Bool, true, false, arith, Eq, nat_beq}

pub data ObjectState : Type 0 where
  active deleting deleted : ObjectState

pub data VersionState : Type 0 where
  preparing committed failed : VersionState

pub data ReplicaState : Type 0 where
  pending copying healthy stale : ReplicaState
  corrupted unavailable repairing failed : ReplicaState

pub data NodeState : Type 0 where
  joining healthy suspect unavailable : NodeState
  recovering draining removed : NodeState

pub data JobStatus : Type 0 where
  pending running succeeded failed : JobStatus

pub data ErrorCode : Type 0 where
  object_not_found object_already_exists version_conflict node_unavailable : ErrorCode
  insufficient_replicas checksum_mismatch repair_in_progress storage_full : ErrorCode
  invalid_request unauthorized payload_too_large internal_error : ErrorCode

-- `state in OBJECT_STATE_TRANSITIONS.get(from, frozenset())`
abbrev pub object_transition : ObjectState → ObjectState → Bool
object_transition ObjectState.active ObjectState.deleting = true
object_transition ObjectState.deleting ObjectState.deleted = true
object_transition _ _ = false

-- `state in NODE_STATE_TRANSITIONS.get(from, frozenset())`
abbrev pub node_transition : NodeState → NodeState → Bool
node_transition NodeState.joining NodeState.healthy = true
node_transition NodeState.healthy NodeState.suspect = true
node_transition NodeState.healthy NodeState.draining = true
node_transition NodeState.suspect NodeState.healthy = true
node_transition NodeState.suspect NodeState.unavailable = true
node_transition NodeState.unavailable NodeState.recovering = true
node_transition NodeState.recovering NodeState.healthy = true
node_transition NodeState.recovering NodeState.suspect = true
node_transition NodeState.draining NodeState.removed = true
node_transition _ _ = false

-- `a is b` on the members of an enumeration goes by their position in it.
abbrev pub object_state_position : ObjectState → ℕ
object_state_position ObjectState.active = 0
object_state_position ObjectState.deleting = 1
object_state_position ObjectState.deleted = 2

abbrev pub version_state_position : VersionState → ℕ
version_state_position VersionState.preparing = 0
version_state_position VersionState.committed = 1
version_state_position VersionState.failed = 2

abbrev pub replica_state_position : ReplicaState → ℕ
replica_state_position ReplicaState.pending = 0
replica_state_position ReplicaState.copying = 1
replica_state_position ReplicaState.healthy = 2
replica_state_position ReplicaState.stale = 3
replica_state_position ReplicaState.corrupted = 4
replica_state_position ReplicaState.unavailable = 5
replica_state_position ReplicaState.repairing = 6
replica_state_position ReplicaState.failed = 7

abbrev pub node_state_position : NodeState → ℕ
node_state_position NodeState.joining = 0
node_state_position NodeState.healthy = 1
node_state_position NodeState.suspect = 2
node_state_position NodeState.unavailable = 3
node_state_position NodeState.recovering = 4
node_state_position NodeState.draining = 5
node_state_position NodeState.removed = 6

abbrev pub job_status_position : JobStatus → ℕ
job_status_position JobStatus.pending = 0
job_status_position JobStatus.running = 1
job_status_position JobStatus.succeeded = 2
job_status_position JobStatus.failed = 3

abbrev pub error_code_position : ErrorCode → ℕ
error_code_position ErrorCode.object_not_found = 0
error_code_position ErrorCode.object_already_exists = 1
error_code_position ErrorCode.version_conflict = 2
error_code_position ErrorCode.node_unavailable = 3
error_code_position ErrorCode.insufficient_replicas = 4
error_code_position ErrorCode.checksum_mismatch = 5
error_code_position ErrorCode.repair_in_progress = 6
error_code_position ErrorCode.storage_full = 7
error_code_position ErrorCode.invalid_request = 8
error_code_position ErrorCode.unauthorized = 9
error_code_position ErrorCode.payload_too_large = 10
error_code_position ErrorCode.internal_error = 11

pub object_state_beq_iff :
    (a b : ObjectState)
    → (nat_beq (object_state_position a) (object_state_position b) ≡ true) ↔ (a ≡ b)
object_state_beq_iff a b = ground arith

instance abbrev pub object_state_eq : Eq ObjectState
object_state_eq = record {
  beq = λ a b. nat_beq (object_state_position a) (object_state_position b);
  beq_iff = object_state_beq_iff;
}

pub version_state_beq_iff :
    (a b : VersionState)
    → (nat_beq (version_state_position a) (version_state_position b) ≡ true) ↔ (a ≡ b)
version_state_beq_iff a b = ground arith

instance abbrev pub version_state_eq : Eq VersionState
version_state_eq = record {
  beq = λ a b. nat_beq (version_state_position a) (version_state_position b);
  beq_iff = version_state_beq_iff;
}

pub replica_state_beq_iff :
    (a b : ReplicaState)
    → (nat_beq (replica_state_position a) (replica_state_position b) ≡ true) ↔ (a ≡ b)
replica_state_beq_iff a b = ground arith

instance abbrev pub replica_state_eq : Eq ReplicaState
replica_state_eq = record {
  beq = λ a b. nat_beq (replica_state_position a) (replica_state_position b);
  beq_iff = replica_state_beq_iff;
}

pub node_state_beq_iff :
    (a b : NodeState) → (nat_beq (node_state_position a) (node_state_position b) ≡ true) ↔ (a ≡ b)
node_state_beq_iff a b = ground arith

instance abbrev pub node_state_eq : Eq NodeState
node_state_eq = record {
  beq = λ a b. nat_beq (node_state_position a) (node_state_position b);
  beq_iff = node_state_beq_iff;
}

pub job_status_beq_iff :
    (a b : JobStatus) → (nat_beq (job_status_position a) (job_status_position b) ≡ true) ↔ (a ≡ b)
job_status_beq_iff a b = ground arith

instance abbrev pub job_status_eq : Eq JobStatus
job_status_eq = record {
  beq = λ a b. nat_beq (job_status_position a) (job_status_position b);
  beq_iff = job_status_beq_iff;
}

pub error_code_beq_iff :
    (a b : ErrorCode) → (nat_beq (error_code_position a) (error_code_position b) ≡ true) ↔ (a ≡ b)
error_code_beq_iff a b = ground arith

instance abbrev pub error_code_eq : Eq ErrorCode
error_code_eq = record {
  beq = λ a b. nat_beq (error_code_position a) (error_code_position b);
  beq_iff = error_code_beq_iff;
}

abbrev pub default_replication_factor : ℕ
default_replication_factor = 3

abbrev pub default_write_quorum : ℕ
default_write_quorum = 2

abbrev pub default_read_quorum : ℕ
default_read_quorum = 1
