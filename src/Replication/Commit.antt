-- ===== src/Replication/Commit.antt =====
-- replication/manager.py: `replicate_version`.
use ps.Prelude.{
  ℕ, ℤ, pos, true, not, ◌&&◌, ◌++◌, Option, some, List, [], ◌∷◌, map, ◌==◌, length, select,
  if◌then◌else◌, ltb, nat_eq,
}
use ps.Common.Text.{Text}
use ps.Common.Constants.{VersionState, ReplicaState, ErrorCode, version_state_eq, replica_state_eq}
use ps.Common.Errors.{VaultError, Failure, vault, value_error, or_raise}
use ps.Metadata.Models.{Version, StorageNode, Replica, version_at}
use ps.Metadata.Checks.{validate_expected_version}
use ps.Metadata.Objects.{commit_version, fail_version}
use ps.Metadata.Replicas.{
  create_replicas, set_replica_states, set_replica_state, mark_replica_healthy,
}
use ps.Metadata.Session.{Session, ◌>>=◌, ◌>>◌, pure, raise, raise_when, reading, calling}
use ps.Placement.{select_nodes}
use ps.Replication.Policy.{ReplicationPolicy, chosen_quorum}
use ps.Replication.Writes.{
  Client, Written, finished, crashed, ReplicaWriteResult, ReplicationResult, failed_result,
  write_one,
}

-- `_get_version`
unfoldable pub preparing_version : ℕ → Session Version
preparing_version version_id = do
  version ← reading (λ db. or_raise (version_at version_id db) (vault VaultError.not_found))
  raise_when (not (version.state == VersionState.preparing)) (vault VaultError.invalid_state)
  pure version

unfoldable pub healthy_replica_count : ℕ → List Replica → ℕ
healthy_replica_count version_id replicas = length (
    select (λ (r : Replica). (r.version_id == version_id) && (r.status == ReplicaState.healthy))
      replicas)

-- A verified result, with its checksum and its size, which must be there.
unfoldable pub record_verified :
    Replica → ReplicaWriteResult → Option Text → Option ℕ → Session ReplicaWriteResult
record_verified replica result (some checksum) (some size_bytes) = do
  calling (mark_replica_healthy replica.replica_id checksum (pos size_bytes))
  pure result
record_verified replica result _ _ = raise (vault (VaultError.plain ErrorCode.internal_error 500))

unfoldable pub record_unverified : Replica → ReplicaWriteResult → Session ReplicaWriteResult
record_unverified replica result = do
  calling (set_replica_state replica.replica_id ReplicaState.failed)
  pure result

-- What is written to the metadata for a task that finished.
unfoldable pub record_write : Replica → ReplicaWriteResult → Session ReplicaWriteResult
unfolding record_verified record_unverified
record_write replica result =
    if result.verified
    then record_verified replica result result.checksum result.size_bytes
    else record_unverified replica result

-- One round of the loop over the results: the result that is kept, and what is left to raise.
unfoldable pub record_one : Replica → Written → Session (ReplicaWriteResult × List Failure)
unfolding record_write
record_one replica (finished result) = do kept ← record_write replica result; pure (kept, [])
record_one replica (crashed failure) = do
  calling (set_replica_state replica.replica_id ReplicaState.failed)
  pure (failed_result replica.node_id, failure ∷ [])

-- The loop, with `zip(…, strict=True)`.
unfoldable pub record_all :
    List Replica → List Written → Session (List ReplicaWriteResult × List Failure)
unfolding record_one
record_all [] [] = pure ([], [])
record_all (replica ∷ replicas) (written ∷ more) = do
  here ← record_one replica written
  rest ← record_all replicas more
  pure (here.0 ∷ rest.0, here.1 ++ rest.1)
record_all _ _ = raise value_error

-- `if unexpected: raise unexpected[0]`
abbrev pub raise_first : List Failure → Session (Unit {0})
raise_first [] = pure tt
raise_first (failure ∷ failures) = raise failure

abbrev pub node_ids : List ReplicaWriteResult → List Text
node_ids results = map (λ (r : ReplicaWriteResult). r.node_id) results

abbrev pub verified_ids : List ReplicaWriteResult → List Text
verified_ids results = node_ids (select (λ (r : ReplicaWriteResult). r.verified) results)

abbrev pub unverified_ids : List ReplicaWriteResult → List Text
unverified_ids results = node_ids (select (λ (r : ReplicaWriteResult). not r.verified) results)

-- Too few replicas: the version is FAILED, and INSUFFICIENT_REPLICAS is raised.
unfoldable pub give_up : ℕ → Session ReplicationResult
give_up version_id = do
  calling (fail_version version_id)
  raise (vault (VaultError.plain ErrorCode.insufficient_replicas 503))

unfoldable pub commit_written :
    ℕ → Option ℤ → List StorageNode → List ReplicaWriteResult → Session ReplicationResult
commit_written version_id expected nodes results = do
  calling (commit_version version_id expected)
  pure (record {
    version_id = version_id;
    selected_node_ids = map (λ (n : StorageNode). n.node_id) nodes;
    healthy_node_ids = verified_ids results;
    failed_node_ids = unverified_ids results;
    committed = true;
  })

-- What follows the loop.
unfoldable pub conclude :
    ℕ → ℕ → Option ℤ → List StorageNode → List ReplicaWriteResult → Session ReplicationResult
unfolding give_up commit_written
conclude version_id quorum expected nodes results =
    if ltb (length (verified_ids results)) quorum
    then give_up version_id
    else commit_written version_id expected nodes results

-- From the results of the writes on. `version` is the row found by `version_id`.
unfoldable pub settle :
    (Text → Client)
    → Version
    → ℕ
    → Option ℤ
    → List StorageNode
    → List Replica
    → Session ReplicationResult
unfolding record_all conclude
settle client_factory version quorum expected nodes replicas = do
  recorded ← record_all replicas (map (write_one client_factory version) nodes)
  raise_first recorded.1
  conclude version.version_id quorum expected nodes recorded.0

abbrev pub start_copies : List Replica → Session (List Replica)
start_copies replicas =
    calling (set_replica_states (map (λ (r : Replica). r.replica_id) replicas) ReplicaState.copying)

abbrev pub new_rows : Version → List StorageNode → Session (List Replica)
new_rows version nodes =
    calling (create_replicas version.version_id (map (λ (n : StorageNode). n.node_id) nodes))

-- From the choice of the nodes on.
unfoldable pub copy_to :
    (Text → Client) → Version → ℕ → Option ℤ → List StorageNode → Session ReplicationResult
unfolding settle
copy_to client_factory version quorum expected nodes = do
  replicas ← new_rows version nodes
  start_copies replicas
  settle client_factory version quorum expected nodes replicas

-- What is checked and read before anything is written: the quorum, the version and the nodes.
unfoldable pub plan :
    ReplicationPolicy
    → ℕ
    → Option ℤ
    → Option ℤ
    → Option ℤ
    → Session (ℕ × (Version × List StorageNode))
unfolding preparing_version
plan policy version_id replication_factor write_quorum expected = do
  numbers ← reading (λ db. chosen_quorum policy replication_factor write_quorum)
  reading (λ db. validate_expected_version expected)
  version ← preparing_version version_id
  nodes ←
      reading (
        select_nodes (pos policy.factor) version_id (pos version.size_bytes) (some (pos numbers.0)))
  pure (numbers.1, (version, nodes))

unfoldable pub replicate_version :
    ReplicationPolicy
    → (Text → Client)
    → ℕ
    → Option ℤ
    → Option ℤ
    → Option ℤ
    → Session ReplicationResult
unfolding plan copy_to
replicate_version policy client_factory version_id replication_factor write_quorum expected = do
  planned ← plan policy version_id replication_factor write_quorum expected
  copy_to client_factory planned.1.0 planned.0 expected planned.1.1
