-- ===== src/Metadata/Consistency/Preserved/Runs.antt =====
-- Every request keeps the invariant, whatever it raises, and so does every run of requests.
use ps.Prelude.{ℕ, ◌≡◌, List, [], ◌∷◌}
use ps.Common.Errors.{Result, ok}
use ps.Metadata.Models.{Database}
use ps.Metadata.Checks.{transaction, transaction_rule}
use ps.Metadata.Objects
use ps.Metadata.Nodes
use ps.Metadata.Replicas
use ps.Metadata.Commands.{Command, execute, run}
use ps.Metadata.Consistency.{IsConsistent}
use ps.Metadata.Consistency.Preserved.Objects.{
  create_object-IsConsistent, create_version-IsConsistent, commit_version-IsConsistent,
  transition_object_state-IsConsistent, fail_version-IsConsistent,
}
use ps.Metadata.Consistency.Preserved.Nodes.{
  transition_node_state-IsConsistent, register_node-IsConsistent,
  process_node_heartbeat-IsConsistent,
}
use ps.Metadata.Consistency.Preserved.Replicas.{
  create_replica-IsConsistent, set_replica_states-IsConsistent, set_replica_state-IsConsistent,
  record_replica_verification-IsConsistent, mark_replica_healthy-IsConsistent,
  remove_replica-IsConsistent,
}
use ps.Metadata.Consistency.Preserved.Batch.{create_replicas-IsConsistent}

module _ {A : Type 0} (operation : Database → Result (A × Database)) (db : Database)
    (c : IsConsistent db) where
  pub transaction-IsConsistent :
      ((r : A × Database) → operation db ≡ ok r → IsConsistent db → IsConsistent r.1)
      → IsConsistent (transaction operation db).1
  transaction-IsConsistent keeps = transaction_rule IsConsistent operation db c (λ r h. keeps r h c)

pub execute-IsConsistent :
    (request : Command) (db : Database) → IsConsistent db → IsConsistent (execute request db)
unfolding execute
execute-IsConsistent (Command.create_object name) db c =
    transaction-IsConsistent (Objects.create_object name) db c (create_object-IsConsistent name db)
execute-IsConsistent (Command.create_version object_id size checksum expected) db c =
    transaction-IsConsistent (Objects.create_version object_id size checksum expected) db c
      (create_version-IsConsistent object_id size checksum expected db)
execute-IsConsistent (Command.commit_version version_id expected) db c =
    transaction-IsConsistent (Objects.commit_version version_id expected) db c
      (commit_version-IsConsistent version_id expected db)
execute-IsConsistent (Command.transition_object_state object_id wanted) db c =
    transaction-IsConsistent (Objects.transition_object_state object_id wanted) db c
      (transition_object_state-IsConsistent object_id wanted db)
execute-IsConsistent (Command.fail_version version_id) db c =
    transaction-IsConsistent (Objects.fail_version version_id) db c
      (fail_version-IsConsistent version_id db)
execute-IsConsistent (Command.transition_node_state node_id wanted) db c =
    transaction-IsConsistent (Nodes.transition_node_state node_id wanted) db c
      (transition_node_state-IsConsistent node_id wanted db)
execute-IsConsistent (Command.register_node node_id address capacity status) db c =
    transaction-IsConsistent (Nodes.register_node node_id address capacity status) db c
      (register_node-IsConsistent node_id address capacity status db)
execute-IsConsistent (Command.process_node_heartbeat node_id capacity used timestamp) db c =
    transaction-IsConsistent (Nodes.process_node_heartbeat node_id capacity used timestamp) db c
      (process_node_heartbeat-IsConsistent node_id capacity used timestamp db)
execute-IsConsistent (Command.create_replica version_id node_id) db c =
    transaction-IsConsistent (Replicas.create_replica version_id node_id) db c
      (create_replica-IsConsistent version_id node_id db)
execute-IsConsistent (Command.create_replicas version_id node_ids) db c =
    transaction-IsConsistent (Replicas.create_replicas version_id node_ids) db c
      (create_replicas-IsConsistent version_id node_ids db)
execute-IsConsistent (Command.set_replica_states ids wanted) db c =
    transaction-IsConsistent (Replicas.set_replica_states ids wanted) db c
      (set_replica_states-IsConsistent ids wanted db)
execute-IsConsistent (Command.set_replica_state replica_id wanted) db c =
    transaction-IsConsistent (Replicas.set_replica_state replica_id wanted) db c
      (set_replica_state-IsConsistent replica_id wanted db)
execute-IsConsistent (Command.record_replica_verification replica_id checksum size) db c =
    transaction-IsConsistent (Replicas.record_replica_verification replica_id checksum size) db c
      (record_replica_verification-IsConsistent replica_id checksum size db)
execute-IsConsistent (Command.mark_replica_healthy replica_id checksum size) db c =
    transaction-IsConsistent (Replicas.mark_replica_healthy replica_id checksum size) db c
      (mark_replica_healthy-IsConsistent replica_id checksum size db)
execute-IsConsistent (Command.remove_replica replica_id) db c =
    transaction-IsConsistent (Replicas.remove_replica replica_id) db c
      (remove_replica-IsConsistent replica_id db)

-- From a consistent database every run of requests, returning or raising, ends in a consistent one.
pub run-IsConsistent :
    (requests : List Command) (db : Database) → IsConsistent db → IsConsistent (run requests db)
unfolding run
run-IsConsistent [] db c = c
run-IsConsistent (request ∷ requests) db c =
    run-IsConsistent requests (execute request db) (execute-IsConsistent request db c)

-- The database before any request.
abbrev pub empty_database : (ℕ → ℕ) → (ℕ → ℕ) → Database
empty_database uuids times = record {
  objects = [];
  versions = [];
  nodes = [];
  replicas = [];
  repair_jobs = [];
  integrity_jobs = [];
  rebalance_jobs = [];
  uuids = uuids;
  drawn = 0;
  times = times;
  times_read = 0;
}

pub empty_database-IsConsistent : (uuids times : ℕ → ℕ) → IsConsistent (empty_database uuids times)
empty_database-IsConsistent uuids times = record {
  objects = record { key = tt; name = tt; latest = tt };
  versions = record { key = tt; slot = tt; numbered = tt; owned = tt };
  nodes = record { key = tt; address = tt; within = tt };
  replicas = record { key = tt; slot = tt; certified = tt; placed = tt };
}
