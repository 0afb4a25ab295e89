-- ===== src/Gateway/Reads.antt =====
-- gateway/service.py: where an object is read from.
use ps.Prelude.{
  ℕ, Bool, false, not, ◌&&◌, Option, none, some, List, [], ◌∷◌, ◌==◌, if◌then◌else◌, select,
  sort_by, nat_eq, text_eq, pair_eq,
}
use ps.Table.{find}
use ps.Common.Text.{Text, text_ltb}
use ps.Common.Constants.{
  ErrorCode, NodeState, ObjectState, ReplicaState, VersionState, node_state_eq, object_state_eq,
  replica_state_eq, version_state_eq,
}
use ps.Common.Errors.{
  VaultError, Failure, Result, ok, err, vault, node_error, value_error, or_raise, raise_if, ◌>>=◌,
  ◌>>◌,
}
use ps.Common.Validation.{normalize_object_name}
use ps.Metadata.Models.{
  Object, Version, StorageNode, Replica, Database, object_name, version_at, replica_on,
}

unfoldable pub get_object : Text → Database → Result Object
get_object name db = do
  normalized ← normalize_object_name name
  or_raise (find object_name normalized db.objects) (vault VaultError.not_found)

unfoldable pub get_live_object : Text → Database → Result Object
unfolding get_object
get_live_object name db = do
  obj ← get_object name db
  raise_if (not (obj.state == ObjectState.active)) (vault VaultError.not_found)
  ok obj

abbrev pub when_committed : Version → Option Version
when_committed version = if version.state == VersionState.committed then some version else none

abbrev pub current_of : Option ℕ → Database → Result (Option Version)
current_of none db = ok none
current_of (some version_id) db = do
  version ← or_raise (version_at version_id db) value_error
  ok (when_committed version)

unfoldable pub head : Text → Database → Result (Object × Option Version)
unfolding get_live_object
head name db = do
  obj ← get_live_object name db
  version ← current_of obj.current_version_id db
  ok (obj, version)

-- The join with the replicas, of which a version has one on a node at most.
abbrev pub is_healthy_row : Option Replica → Bool
is_healthy_row none = false
is_healthy_row (some replica) = replica.status == ReplicaState.healthy

abbrev pub is_target : ℕ → Database → StorageNode → Bool
is_target version_id db node =
    is_healthy_row (replica_on version_id node.node_id db) && (node.status == NodeState.healthy)

unfoldable pub targets_of : ℕ → Database → List StorageNode
targets_of version_id db =
    sort_by (λ (a b : StorageNode). text_ltb a.node_id b.node_id)
      (select (is_target version_id db) db.nodes)

abbrev pub no_target : Failure
no_target = vault (VaultError.plain ErrorCode.node_unavailable 503)

abbrev pub some_targets : List StorageNode → Result (List StorageNode)
some_targets [] = err no_target
some_targets (node ∷ nodes) = ok (node ∷ nodes)

unfoldable pub read_targets : Text → Database → Result (Object × (Version × List StorageNode))
unfolding head targets_of
read_targets name db = do
  found ← head name db
  version ← or_raise found.1 (vault VaultError.not_found)
  targets ← some_targets (targets_of version.version_id db)
  ok (found.0, (version, targets))

-- `client.head_object` at the node's address: what it ends with, of the object and the version.
abbrev pub HeadClient : Type 0
HeadClient = Text → ℕ → ℕ → Result (Unit {0})

-- The first node that answers, with those after it; only errors of the client are passed over.
unfoldable pub preflight_read_target :
    HeadClient → ℕ → ℕ → List StorageNode → Result (StorageNode × List StorageNode)
preflight_read_target clients object_id version_id [] = err no_target
preflight_read_target clients object_id version_id (node ∷ nodes) =
    let rest = preflight_read_target clients object_id version_id nodes in
    elim (clients node.address object_id version_id) [
      | ok done ↦ ok (node, node ∷ nodes)
      | err failure ↦ pass_over failure rest
    ]
  where
    pass_over :
        Failure → Result (StorageNode × List StorageNode) → Result (StorageNode × List StorageNode)
    pass_over (node_error e) rest = rest
    pass_over failure rest = err failure
