-- ===== src/Metadata/Commands.antt =====
-- The operations of `MetadataManager` that write, as one type of requests, and a run of them.
use ps.Prelude.{ℕ, ℤ, Option, List, [], ◌∷◌}
use ps.Common.Text.{Text}
use ps.Common.Constants.{ObjectState, NodeState, ReplicaState}
use ps.Metadata.Models.{Database}
use ps.Metadata.Checks.{transaction}
use ps.Metadata.Objects
use ps.Metadata.Nodes
use ps.Metadata.Replicas

pub data Command : Type 0 where
  create_object : Text → Command
  create_version : ℕ → ℤ → Text → Option ℤ → Command
  commit_version : ℕ → Option ℤ → Command
  transition_object_state : ℕ → ObjectState → Command
  fail_version : ℕ → Command
  transition_node_state : Text → NodeState → Command
  register_node : Option Text → Text → ℤ → NodeState → Command
  process_node_heartbeat : Text → Option ℤ → Option ℤ → ℕ → Command
  create_replica : ℕ → Text → Command
  create_replicas : ℕ → List Text → Command
  set_replica_states : List ℕ → ReplicaState → Command
  set_replica_state : ℕ → ReplicaState → Command
  record_replica_verification mark_replica_healthy : ℕ → Text → ℤ → Command
  remove_replica : ℕ → Command

-- The database after a request, whether it returned or raised.
unfoldable pub execute : Command → Database → Database
unfolding transaction
execute (create_object name) db = (transaction (Objects.create_object name) db).1
execute (create_version object_id size checksum expected) db =
    (transaction (Objects.create_version object_id size checksum expected) db).1
execute (commit_version version_id expected) db =
    (transaction (Objects.commit_version version_id expected) db).1
execute (transition_object_state object_id state) db =
    (transaction (Objects.transition_object_state object_id state) db).1
execute (fail_version version_id) db = (transaction (Objects.fail_version version_id) db).1
execute (transition_node_state node_id state) db =
    (transaction (Nodes.transition_node_state node_id state) db).1
execute (register_node node_id address capacity status) db =
    (transaction (Nodes.register_node node_id address capacity status) db).1
execute (process_node_heartbeat node_id capacity used timestamp) db =
    (transaction (Nodes.process_node_heartbeat node_id capacity used timestamp) db).1
execute (create_replica version_id node_id) db =
    (transaction (Replicas.create_replica version_id node_id) db).1
execute (create_replicas version_id node_ids) db =
    (transaction (Replicas.create_replicas version_id node_ids) db).1
execute (set_replica_states ids state) db =
    (transaction (Replicas.set_replica_states ids state) db).1
execute (set_replica_state replica_id state) db =
    (transaction (Replicas.set_replica_state replica_id state) db).1
execute (record_replica_verification replica_id checksum size) db =
    (transaction (Replicas.record_replica_verification replica_id checksum size) db).1
execute (mark_replica_healthy replica_id checksum size) db =
    (transaction (Replicas.mark_replica_healthy replica_id checksum size) db).1
execute (remove_replica replica_id) db = (transaction (Replicas.remove_replica replica_id) db).1

unfoldable pub run : List Command → Database → Database
run [] db = db
run (c ∷ cs) db = run cs (execute c db)
