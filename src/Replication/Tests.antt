-- ===== src/Replication/Tests.antt =====
-- Two nodes: one confirms what it stores, the other is not reached.
use ps.Prelude.{
  text_beq, ℕ, suc, zero, pos, ◌≤◌, ◌≡◌, refl, true, Option, none, some, [], ◌∷◌, arith, nat_eq,
  text_eq, pair_eq, nat_beq, if◌then◌else◌,
}
use ps.Table.{find, add, save, update_where}
use ps.Common.Text.{Text, strip, lstrip_by, rstrip_by, is_space, lower, lower_char, text_ltb}
use ps.Common.Constants.{ObjectState, VersionState, NodeState, ReplicaState, ErrorCode}
use ps.Common.Errors.{VaultError, ok, err, vault}
use ps.Metadata.Models.{Object, Version, StorageNode, Replica, Database, version_at}
use ps.Metadata.Checks.{transaction, validate_checksum}
use ps.Metadata.Objects.{commit_version, fail_version}
use ps.Metadata.Replicas.{
  create_replicas, set_replica_states, set_replica_state, mark_replica_healthy, has_duplicates,
  new_replicas, flush_all, distinct_count,
}
use ps.Metadata.Consistency.{IsConsistent}
use ps.Metadata.Consistency.Preserved.Runs.{empty_database}
use ps.Placement.{
  select_nodes, validate_factor, order_nodes, insert_ordered, is_eligible, is_before, has_more_free,
}
use ps.Replication.Policy.{ReplicationPolicy, chosen_quorum}
use ps.Replication.Writes.{
  Answer, Stored, Verification, Client, ReplicationResult, write_one, after_put, verify_one,
}
use ps.Replication.Commit.{
  healthy_replica_count, replicate_version, plan, preparing_version, copy_to, settle, record_all,
  record_one, record_write, record_verified, record_unverified, conclude, give_up, commit_written,
}
use ps.Replication.Kept.{replicate_version-IsConsistent}
use ps.Replication.Quorum.{replicate_version_commits}
use ps.Replication.Untouched.{Uncommitted}
use ps.Replication.Refused.{replicate_version_refuses}
use ps.Replication.Verified.{write_one_verified}

abbrev repeat : ℕ → ℕ → Text
repeat zero c = []
repeat (suc n) c = c ∷ repeat n c

abbrev digest : Text
digest = repeat 64 b'a'

abbrev node : ℕ → StorageNode
node c = record {
  node_id = c ∷ [];
  address = c ∷ c ∷ [];
  status = NodeState.healthy;
  capacity_bytes = 100;
  used_bytes = 0;
  last_heartbeat_at = none;
}

abbrev object : Option ℕ → Object
object current = record {
  object_id = 1;
  name = b'o' ∷ [];
  current_version_id = current;
  state = ObjectState.active;
}

abbrev version : VersionState → Option ℕ → Version
version wanted at = record {
  version_id = 2;
  object_id = 1;
  version_number = 1;
  size_bytes = 5;
  checksum = digest;
  state = wanted;
  committed_at = at;
}

abbrev before : Database
before = record (empty_database (λ n. n) (λ n. n)) {
  objects = object none ∷ [];
  versions = version VersionState.preparing none ∷ [];
  nodes = node b'a' ∷ node b'b' ∷ [];
  drawn = 3;
}

before-IsConsistent : IsConsistent before
unfolding find text_beq
before-IsConsistent = record {
  objects = record {
    key = (refl, tt);
    name = (refl, tt);
    latest = ((none, refl, (λ e c. cc, tt)), tt);
  };
  versions = record {
    key = (refl, tt);
    slot = (refl, tt);
    numbered = (omega arith, tt);
    owned = ((object none, refl), tt);
  };
  nodes = record {
    key = (refl, (refl, tt));
    address = (refl, (refl, tt));
    within = (omega arith, (omega arith, tt));
  };
  replicas = record { key = tt; slot = tt; certified = tt; placed = tt };
}

-- The answers by address: that of the node a, and that of any other.
abbrev answering : Client
answering = record {
  put_object = λ o v. Answer.replied Stored.stored;
  verify_object = λ o v.
      Answer.replied (record { verified = true; valid = true; checksum = digest; size_bytes = 5 });
}

abbrev silent : Client
silent = record {
  put_object = λ o v. Answer.client_error;
  verify_object = λ o v. Answer.client_error;
}

abbrev clients : Text → Client
clients [] = silent
clients (c ∷ address) = if nat_beq c b'a' then answering else silent

abbrev policy : ReplicationPolicy
policy = record { factor = 2; write_quorum = 1; read_quorum = 1 }

-- The database and the answer after a write quorum of one.
abbrev replica : ℕ → ℕ → ReplicaState → Replica
replica id c status = record {
  replica_id = id;
  version_id = 2;
  node_id = c ∷ [];
  status = status;
  checksum = none;
  size_bytes = none;
  last_verified_at = none;
}

abbrev written : Replica
written = record (replica 3 b'a' ReplicaState.healthy) {
  checksum = some digest;
  size_bytes = some 5;
  last_verified_at = some 0;
}

abbrev after : Database
after = record before {
  objects = object (some 2) ∷ [];
  versions = version VersionState.committed (some 1) ∷ [];
  replicas = written ∷ replica 4 b'b' ReplicaState.failed ∷ [];
  drawn = 5;
  times_read = 2;
}

abbrev answer : ReplicationResult
answer = record {
  version_id = 2;
  selected_node_ids = (b'a' ∷ []) ∷ (b'b' ∷ []) ∷ [];
  healthy_node_ids = (b'a' ∷ []) ∷ [];
  failed_node_ids = (b'b' ∷ []) ∷ [];
  committed = true;
}

returned : replicate_version policy clients 2 none none none before ≡ (ok answer, after)
unfolding replicate_version plan preparing_version chosen_quorum validate_factor select_nodes
    order_nodes insert_ordered is_eligible is_before has_more_free text_ltb copy_to settle
    record_all record_one record_write record_verified record_unverified conclude commit_written
    transaction create_replicas set_replica_states set_replica_state mark_replica_healthy
    validate_checksum commit_version write_one after_put verify_one lower lower_char strip lstrip_by
    rstrip_by is_space has_duplicates new_replicas flush_all distinct_count find add save
    update_where text_beq
returned = refl

abbrev missed : Database
missed = record after {
  objects = object none ∷ [];
  versions = version VersionState.failed none ∷ [];
  times_read = 1;
}

raised :
    replicate_version policy clients 2 none (some (pos 2)) none before
    ≡ (err (vault (VaultError.plain ErrorCode.insufficient_replicas 503)), missed)
unfolding replicate_version plan preparing_version chosen_quorum validate_factor select_nodes
    order_nodes insert_ordered is_eligible is_before has_more_free text_ltb copy_to settle
    record_all record_one record_write record_verified record_unverified conclude give_up
    transaction create_replicas set_replica_states set_replica_state mark_replica_healthy
    validate_checksum fail_version write_one after_put verify_one lower lower_char strip lstrip_by
    rstrip_by is_space has_duplicates new_replicas flush_all distinct_count find add save
    update_where text_beq
raised = refl

replicate_version_commits_example :
    (numbers : ℕ × ℕ) × (w : Version) × (chosen_quorum policy none none ≡ ok numbers)
    × (numbers.1 ≤ 1)
    × (1 ≤ healthy_replica_count 2 after.replicas)
    × (version_at 2 after ≡ some w)
    × (w.state ≡ VersionState.committed)
replicate_version_commits_example =
    replicate_version_commits policy clients 2 none none none before answer after returned

replicate_version_refuses_example : Uncommitted before 2 missed
unfolding find
replicate_version_refuses_example =
    replicate_version_refuses policy clients 2 none (some (pos 2)) none before missed
      (vault (VaultError.plain ErrorCode.insufficient_replicas 503))
      (version VersionState.preparing none) refl (λ e. cc) raised

replicate_version-IsConsistent_example :
    IsConsistent (replicate_version policy clients 2 none none none before).1
replicate_version-IsConsistent_example =
    replicate_version-IsConsistent policy clients 2 none none none before before-IsConsistent

write_one_verified_example :
    (took : Stored) × (said : Verification) × (answering.put_object 1 2 ≡ Answer.replied took)
    × (answering.verify_object 1 2 ≡ Answer.replied said)
    × (said.verified ≡ true)
    × (said.valid ≡ true)
    × (lower said.checksum ≡ lower digest)
    × (said.size_bytes ≡ 5)
    × (some digest ≡ some said.checksum)
    × (some 5 ≡ some said.size_bytes)
unfolding write_one after_put verify_one lower lower_char text_beq
write_one_verified_example =
    write_one_verified clients (version VersionState.preparing none) (node b'a')
      (record {
        node_id = b'a' ∷ [];
        status = ReplicaState.healthy;
        verified = true;
        checksum = some digest;
        size_bytes = some 5;
      })
      refl refl
