-- ===== src/Gateway/Deletes.antt =====
-- gateway/service.py: `delete_object`.
use ps.Prelude.{
  ℕ, Bool, true, false, Option, none, some, List, [], ◌∷◌, ◌==◌, if◌then◌else◌, select, nat_eq,
}
use ps.Table.{remove}
use ps.Common.Text.{Text}
use ps.Common.Constants.{ErrorCode, ObjectState, object_state_eq}
use ps.Common.Errors.{VaultError, Result, ok, err, vault, node_error}
use ps.Metadata.Models.{
  Object, Version, StorageNode, Replica, Database, replica_key, version_at, node_at,
}
use ps.Metadata.Objects.{transition_object_state}
use ps.Metadata.Session.{Session, pure, raise_when, reading, calling, ◌>>=◌, ◌>>◌}
use ps.Metadata.Triples.{updating}
use ps.Maintenance.Clients.{ClientFactory}
use ps.Gateway.Reads.{get_object}

-- The joins of the query: the replicas of the versions of an object.
abbrev pub is_version_of : ℕ → Option Version → Bool
is_version_of object_id none = false
is_version_of object_id (some version) = version.object_id == object_id

abbrev pub belongs_to : ℕ → Database → Replica → Bool
belongs_to object_id db replica = is_version_of object_id (version_at replica.version_id db)

unfoldable pub replicas_of_object : ℕ → Database → List Replica
replicas_of_object object_id db = select (belongs_to object_id db) db.replicas

-- The replicas whose bytes are gone, and whether a node has failed to delete some.
pub record Deleted : Type 0 where
  pub replica_ids : List ℕ
  pub failed : Bool

abbrev pub with_deleted : ℕ → Deleted → Deleted
with_deleted replica_id rest = record {
  replica_ids = replica_id ∷ rest.replica_ids;
  failed = rest.failed;
}

abbrev pub count_answer : ℕ → Result (Unit {0}) → Result Deleted → Result Deleted
count_answer replica_id answer (err failure) = err failure
count_answer replica_id (ok done) (ok rest) = ok (with_deleted replica_id rest)
count_answer replica_id (err (node_error e)) (ok rest) =
    ok (record { replica_ids = rest.replica_ids; failed = true })
count_answer replica_id (err failure) (ok rest) = err failure

module _ (clients : ClientFactory) (now : ℕ) (object_id : ℕ) where
  -- `delete_one`, by the node of the replica, which the outer join may not find.
  abbrev pub delete_one : Option StorageNode → Replica → Result (Unit {0})
  delete_one none replica = ok tt
  delete_one (some node) replica =
      (clients now node.address).delete_object object_id replica.version_id

  -- The calls are made at once; which of several exceptions other than the client's passes is left
  -- to the order of the rows, from the last.
  unfoldable pub delete_each : Database → List Replica → Result Deleted
  delete_each db [] = ok (record { replica_ids = []; failed = false })
  delete_each db (replica ∷ replicas) =
      count_answer replica.replica_id (delete_one (node_at replica.node_id db) replica)
        (delete_each db replicas)

-- `session.delete(replica)` for each of them
abbrev pub remove_each : List ℕ → List Replica → List Replica
remove_each [] replicas = replicas
remove_each (replica_id ∷ ids) replicas = remove_each ids (remove replica_key replica_id replicas)

abbrev pub remove_rows : List ℕ → Database → Database
remove_rows ids db = record db { replicas = remove_each ids db.replicas }

unfoldable pub begin_deletion : Object → Session (Unit {0})
begin_deletion obj =
    if obj.state == ObjectState.active
    then (do calling (transition_object_state obj.object_id ObjectState.deleting); pure tt)
    else pure tt

module _ (clients : ClientFactory) (now : ℕ) where
  -- What follows the first return.
  unfoldable pub delete_live : Object → Session (List ℕ)
  unfolding begin_deletion replicas_of_object delete_each
  delete_live obj = do
    begin_deletion obj
    deleted ←
        reading
          (λ db. delete_each clients now obj.object_id db (replicas_of_object obj.object_id db))
    updating (remove_rows deleted.replica_ids)
    raise_when deleted.failed (vault (VaultError.plain ErrorCode.node_unavailable 503))
    calling (transition_object_state obj.object_id ObjectState.deleted)
    pure deleted.replica_ids

  -- The replicas that were deleted.
  unfoldable pub delete_object : Text → Session (List ℕ)
  unfolding delete_live
  delete_object name = do
    obj ← reading (get_object name)
    if obj.state == ObjectState.deleted then pure [] else delete_live obj
