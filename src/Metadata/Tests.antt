-- ===== src/Metadata/Tests.antt =====
-- A small vault, built by requests, and the theorems on the metadata applied to it.
use ps.Prelude.{
  text_beq, ℕ, pos, zero, suc, ◌+◌, ◌≡◌, refl, false, Option, none, some, List, [], ◌∷◌, text_eq,
  nat_eq,
}
use ps.Table.{find, add, save}
use ps.Common.Text.{Text, strip, lstrip_by, rstrip_by, is_space}
use ps.Common.Constants.{ObjectState, VersionState, NodeState, ReplicaState, object_transition}
use ps.Common.Errors.{VaultError, ok, err, vault}
use ps.Common.Validation.{normalize_object_name}
use ps.Metadata.Models.{
  Object, Version, StorageNode, Replica, Database, version_at, object_at, node_at, replica_at,
}
use ps.Metadata.Checks.{transaction, validate_checksum}
use ps.Metadata.Commands.{Command, execute, run}
use ps.Metadata.Objects
use ps.Metadata.Nodes
use ps.Metadata.Replicas
use ps.Metadata.Consistency.{IsConsistent}
use ps.Metadata.Consistency.Preserved.Runs.{
  run-IsConsistent, empty_database, empty_database-IsConsistent,
}
use ps.Metadata.Conflicts.{commit_version_excludes, commit_version_written, commit_version_revives}
use ps.Metadata.Versions.History.{run_keeps_committed}
use ps.Metadata.Membership.{NodesFollow}
use ps.Metadata.Membership.Runs.{run-NodesFollow, run_keeps_removed}
use ps.Metadata.Membership.Registration.{register_node_again}
use ps.Metadata.Lifecycle.Failed.{run_keeps_failed}

abbrev repeat : ℕ → ℕ → Text
repeat zero c = []
repeat (suc n) c = c ∷ repeat n c

-- The digest of sixty-four times the letter a.
abbrev digest : Text
digest = repeat 64 97

abbrev node_a : Text
node_a = b'a' ∷ []

-- UUIDs 1, 2, …, and a clock that shows ten times the reading's number.
abbrev blank : Database
blank = empty_database (λ n. n + 1) (λ n. n)

-- One object, with two versions that are being prepared, and one node with a replica.
abbrev preparation : List Command
preparation =
    Command.create_object (b'o' ∷ [])
    ∷ Command.create_version 1 (pos 5) digest none
    ∷ Command.create_version 1 (pos 7) digest none
    ∷ Command.register_node (some node_a) (b'x' ∷ b'/' ∷ []) (pos 100) NodeState.healthy
    ∷ Command.create_replica 2 node_a
    ∷ []

abbrev object : Option ℕ → ObjectState → Object
object current_version_id wanted = record {
  object_id = 1;
  name = b'o' ∷ [];
  current_version_id = current_version_id;
  state = wanted;
}

abbrev first : Version
first = record {
  version_id = 2;
  object_id = 1;
  version_number = 1;
  size_bytes = 5;
  checksum = digest;
  state = VersionState.preparing;
  committed_at = none;
}

abbrev second : Version
second = record first { version_id = 3; version_number = 2; size_bytes = 7 }

abbrev node : NodeState → Option ℕ → StorageNode
node status last_heartbeat_at = record {
  node_id = node_a;
  address = b'x' ∷ [];
  status = status;
  capacity_bytes = 100;
  used_bytes = 0;
  last_heartbeat_at = last_heartbeat_at;
}

abbrev replica : ReplicaState → Replica
replica status = record {
  replica_id = 4;
  version_id = 2;
  node_id = node_a;
  status = status;
  checksum = none;
  size_bytes = none;
  last_verified_at = none;
}

abbrev prepared : Database
prepared = record blank {
  objects = object none ObjectState.active ∷ [];
  versions = first ∷ second ∷ [];
  nodes = node NodeState.healthy none ∷ [];
  replicas = replica ReplicaState.pending ∷ [];
  drawn = 4;
}

prepared_by_requests : run preparation blank ≡ prepared
unfolding run execute transaction Objects.create_object Objects.create_version
    Objects.max_version_number Nodes.register_node Nodes.add_node Nodes.normalize_address
    Replicas.create_replica normalize_object_name validate_checksum strip is_space find add text_beq
prepared_by_requests = refl

-- After the first version is committed.
abbrev first_committed : Version
first_committed = record first { state = VersionState.committed; committed_at = some 0 }

abbrev after_commit : Database
after_commit = record prepared {
  objects = object (some 2) ObjectState.active ∷ [];
  versions = first_committed ∷ second ∷ [];
  times_read = 1;
}

prepared-IsConsistent : IsConsistent prepared
prepared-IsConsistent =
    rw (← prepared_by_requests)
      (run-IsConsistent preparation blank (empty_database-IsConsistent (λ n. n + 1) (λ n. n)))

commits : Objects.commit_version 2 (some (pos 0)) prepared ≡ ok (first_committed, after_commit)
unfolding Objects.commit_version find save
commits = refl

commit_version_excludes_example :
    Objects.commit_version 3 (some (pos 0)) after_commit
    ≡ err (vault (VaultError.version_conflict (some 0) (some 1)))
unfolding find
commit_version_excludes_example =
    commit_version_excludes 2 3 0 prepared (first_committed, after_commit) second
      prepared-IsConsistent commits refl refl

run-IsConsistent_example : IsConsistent (run preparation blank)
run-IsConsistent_example =
    run-IsConsistent preparation blank (empty_database-IsConsistent (λ n. n + 1) (λ n. n))

-- Requests that try to undo a commit.
abbrev attempts : List Command
attempts =
    Command.fail_version 2
    ∷ Command.commit_version 3 (some (pos 1))
    ∷ Command.transition_object_state 1 ObjectState.deleting
    ∷ []

run_keeps_committed_example : version_at 2 (run attempts after_commit) ≡ some first_committed
unfolding find
run_keeps_committed_example = run_keeps_committed attempts after_commit 2 refl refl

abbrev heartbeats : List Command
heartbeats =
    Command.process_node_heartbeat node_a none (some (pos 9)) 12
    ∷ Command.process_node_heartbeat node_a none (some (pos 8)) 7
    ∷ Command.transition_node_state node_a NodeState.suspect
    ∷ []

run-NodesFollow_example : NodesFollow prepared.nodes (run heartbeats prepared).nodes
run-NodesFollow_example = run-NodesFollow heartbeats prepared

abbrev retired : Database
retired = record prepared { nodes = node NodeState.removed (some 10) ∷ [] }

run_keeps_removed_example :
    (m : StorageNode) × (node_at node_a (run heartbeats retired) ≡ some m)
    × (m.status ≡ NodeState.removed)
unfolding find text_beq
run_keeps_removed_example = run_keeps_removed heartbeats retired node_a refl refl

abbrev broken : Database
broken = record prepared { replicas = replica ReplicaState.failed ∷ [] }

abbrev rescues : List Command
rescues =
    Command.set_replica_state 4 ReplicaState.repairing
    ∷ Command.set_replica_states (4 ∷ []) ReplicaState.copying
    ∷ Command.mark_replica_healthy 4 digest (pos 5)
    ∷ Command.remove_replica 4
    ∷ []

run_keeps_failed_example : replica_at 4 (run rescues broken) ≡ some (replica ReplicaState.failed)
unfolding find
run_keeps_failed_example = run_keeps_failed rescues broken 4 refl refl

commit_version_written_example :
    ((v : Version) × (version_at 2 prepared ≡ some v)
      × (v.state ≡ VersionState.preparing)
      × (version_at 2 after_commit ≡ some first_committed)
      × (first_committed.state ≡ VersionState.committed)
      × (first_committed.object_id ≡ v.object_id)
      × (first_committed.version_number ≡ v.version_number)
      × (first_committed.checksum ≡ v.checksum)
      × (first_committed.size_bytes ≡ v.size_bytes))
    × ((o o' : Object) × (object_at 1 prepared ≡ some o)
        × (object_at 1 after_commit ≡ some o')
        × (o'.state ≡ ObjectState.active)
        × (o'.current_version_id ≡ some 2)
        × (o'.name ≡ o.name))
commit_version_written_example =
    commit_version_written 2 (some (pos 0)) prepared (first_committed, after_commit) commits

-- The object was deleted while a version of it was being prepared.
abbrev deleted : Database
deleted = record prepared { objects = object none ObjectState.deleted ∷ [] }

revives : Objects.commit_version 2 none deleted ≡ ok (first_committed, after_commit)
unfolding Objects.commit_version find save
revives = refl

commit_version_revives_example :
    (o' : Object) × (object_at 1 after_commit ≡ some o')
    × (o'.state ≡ ObjectState.active)
    × (object_transition ObjectState.deleted o'.state ≡ false)
unfolding find
commit_version_revives_example =
    commit_version_revives 2 none deleted (first_committed, after_commit)
      (object none ObjectState.deleted) revives refl refl

abbrev beating : Database
beating = record prepared { nodes = node NodeState.healthy (some 10) ∷ [] }

abbrev joining : StorageNode
joining = record {
  node_id = b'b' ∷ [];
  address = b'y' ∷ [];
  status = NodeState.joining;
  capacity_bytes = 50;
  used_bytes = 0;
  last_heartbeat_at = none;
}

abbrev joined : Database
joined = record prepared { nodes = node NodeState.healthy none ∷ joining ∷ [] }

joins :
    Nodes.register_node (some (b'b' ∷ [])) (b'y' ∷ b'/' ∷ []) (pos 50) NodeState.joining prepared
    ≡ ok (joining, joined)
unfolding Nodes.register_node Nodes.add_node Nodes.normalize_address strip lstrip_by rstrip_by
    is_space find add text_beq
joins = refl

register_node_again_example :
    Nodes.register_node (some (b'b' ∷ [])) (b'y' ∷ b'/' ∷ []) (pos 50) NodeState.joining joined
    ≡ ok (joining, joined)
register_node_again_example =
    register_node_again (some (b'b' ∷ [])) (b'y' ∷ b'/' ∷ []) (pos 50) NodeState.joining prepared
      (joining, joined) joins
