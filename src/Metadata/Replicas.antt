-- ===== src/Metadata/Replicas.antt =====
-- metadata/manager.py: replicas of a version on nodes, and their lifecycle.
pub mod Outcomes
use ps.Prelude.{
  ℕ, ℤ, ◌+◌, Bool, true, false, not, ◌&&◌, ◌||◌, none, some, List, [], ◌∷◌, map, ◌==◌,
  if◌then◌else◌, any, select, is_some, length, nat_eq, text_eq, pair_eq,
}
use ps.Table.{save, remove, update_where}
use ps.Common.Text.{Text, strip}
use ps.Common.Constants.{ReplicaState, replica_state_eq}
use ps.Common.Errors.{VaultError, Result, ok, vault, value_error, raise_if, or_raise, ◌>>◌, ◌>>=◌}
use ps.Metadata.Models.{Replica, Database, replica_key, version_at, node_at, replica_at, replica_on}
use ps.Metadata.Checks.{non_negative, validate_checksum, is_blank, mem, flush_new}

-- `state in allowed.get(from, set())`, the table that both operations below write out.
abbrev pub replica_transition : ReplicaState → ReplicaState → Bool
replica_transition ReplicaState.pending ReplicaState.repairing = true
replica_transition ReplicaState.pending ReplicaState.copying = true
replica_transition ReplicaState.pending ReplicaState.failed = true
replica_transition ReplicaState.copying ReplicaState.failed = true
replica_transition ReplicaState.healthy ReplicaState.stale = true
replica_transition ReplicaState.healthy ReplicaState.corrupted = true
replica_transition ReplicaState.healthy ReplicaState.unavailable = true
replica_transition ReplicaState.stale ReplicaState.repairing = true
replica_transition ReplicaState.corrupted ReplicaState.repairing = true
replica_transition ReplicaState.unavailable ReplicaState.repairing = true
replica_transition ReplicaState.repairing ReplicaState.copying = true
replica_transition ReplicaState.repairing ReplicaState.failed = true
replica_transition _ _ = false

-- `Replica(version_id=…, node_id=…, status=PENDING)`
abbrev pub new_replica : ℕ → ℕ → Text → Replica
new_replica replica_id version_id node_id = record {
  replica_id = replica_id;
  version_id = version_id;
  node_id = node_id;
  status = ReplicaState.pending;
  checksum = none;
  size_bytes = none;
  last_verified_at = none;
}

unfoldable pub create_replica : ℕ → Text → Database → Result (Replica × Database)
create_replica version_id node_id db = do
  raise_if (is_blank node_id) value_error
  let normalized_node_id = strip node_id
  raise_if (not (is_some (version_at version_id db))) (vault VaultError.not_found)
  raise_if (not (is_some (node_at normalized_node_id db))) (vault VaultError.not_found)
  raise_if (is_some (replica_on version_id normalized_node_id db)) (vault VaultError.invalid_state)
  let replica = new_replica (db.uuids db.drawn) version_id normalized_node_id
  replicas ← flush_new replica_key replica db.replicas
  ok (replica, record db { replicas = replicas; drawn = db.drawn + 1 })

-- `len(xs) != len(set(xs))`
unfoldable pub has_duplicates : List Text → Bool
has_duplicates [] = false
has_duplicates (x ∷ xs) = mem x xs || has_duplicates xs

-- The rows for the targets, with the UUIDs from the given one on.
unfoldable pub new_replicas : (ℕ → ℕ) → ℕ → ℕ → List Text → List Replica
new_replicas uuids drawn version_id [] = []
new_replicas uuids drawn version_id (node_id ∷ node_ids) =
    new_replica (uuids drawn) version_id node_id
    ∷ new_replicas uuids (drawn + 1) version_id node_ids

-- `session.add_all(rows)` and the flush.
unfoldable pub flush_all : List Replica → List Replica → Result (List Replica)
flush_all [] rows = ok rows
flush_all (r ∷ rs) rows = flush_new replica_key r rows >>= flush_all rs

unfoldable pub create_replicas : ℕ → List Text → Database → Result (List Replica × Database)
unfolding has_duplicates new_replicas flush_all
create_replicas version_id node_ids db = do
  raise_if (length node_ids == 0 || any is_blank node_ids) value_error
  let normalized = map strip node_ids
  raise_if (has_duplicates normalized) value_error
  raise_if (not (is_some (version_at version_id db))) (vault VaultError.not_found)
  raise_if (any (λ node_id. not (is_some (node_at node_id db))) normalized)
      (vault VaultError.not_found)
  raise_if (any (λ node_id. is_some (replica_on version_id node_id db)) normalized)
      (vault VaultError.invalid_state)
  let replicas = new_replicas db.uuids db.drawn version_id normalized
  rows ← flush_all replicas db.replicas
  ok (replicas, record db { replicas = rows; drawn = db.drawn + length replicas })

abbrev pub with_status : ReplicaState → Replica → Replica
with_status state replica = record replica { status = state }

-- `len(set(ids))`
unfoldable pub distinct_count : List ℕ → ℕ
distinct_count [] = 0
distinct_count (x ∷ xs) = (if mem x xs then 0 else 1) + distinct_count xs

-- A replica that is not in the state yet and may not enter it.
abbrev pub is_refused : ReplicaState → Replica → Bool
is_refused state replica =
    not (replica.status == state) && not (replica_transition replica.status state)

unfoldable pub set_replica_states :
    List ℕ → ReplicaState → Database → Result (List Replica × Database)
unfolding distinct_count update_where
set_replica_states ids state db = if length ids == 0 then ok ([], db) else do
  raise_if (state == ReplicaState.healthy) (vault VaultError.invalid_state)
  let replicas = select (λ (r : Replica). mem r.replica_id ids) db.replicas
  raise_if (not (length replicas == distinct_count ids)) (vault VaultError.not_found)
  raise_if (any (is_refused state) replicas) (vault VaultError.invalid_state)
  ok (
    map (with_status state) replicas,
    record db {
      replicas =
          update_where (λ (r : Replica). mem r.replica_id ids) (with_status state) db.replicas;
    },
  )

unfoldable pub set_replica_state : ℕ → ReplicaState → Database → Result (Replica × Database)
set_replica_state replica_id state db = do
  replica ← or_raise (replica_at replica_id db) (vault VaultError.not_found)
  if replica.status == state then ok (replica, db) else do
    raise_if (not (replica_transition replica.status state)) (vault VaultError.invalid_state)
    raise_if (state == ReplicaState.healthy) (vault VaultError.invalid_state)
    let moved = with_status state replica
    ok (moved, record db { replicas = save replica_key moved db.replicas })

-- The row of a replica whose bytes have just been verified.
abbrev pub verified : Text → ℕ → ℕ → Replica → Replica
verified checksum size_bytes now replica = record replica {
  status = ReplicaState.healthy;
  checksum = some checksum;
  size_bytes = some size_bytes;
  last_verified_at = some now;
}

unfoldable pub record_replica_verification : ℕ → Text → ℤ → Database → Result (Replica × Database)
record_replica_verification replica_id checksum size_bytes db = do
  actual ← validate_checksum checksum
  size ← non_negative size_bytes
  replica ← or_raise (replica_at replica_id db) (vault VaultError.not_found)
  version ← or_raise (version_at replica.version_id db) (vault VaultError.not_found)
  raise_if (not (replica.status == ReplicaState.healthy)) (vault VaultError.invalid_state)
  raise_if (not (actual == version.checksum)) (vault VaultError.checksum_mismatch)
  raise_if (not (size == version.size_bytes)) (vault VaultError.invalid_state)
  let recorded = record replica {
    checksum = some actual;
    size_bytes = some size;
    last_verified_at = some (db.times db.times_read);
  }
  ok (
    recorded,
    record db { replicas = save replica_key recorded db.replicas; times_read = db.times_read + 1 },
  )

unfoldable pub mark_replica_healthy : ℕ → Text → ℤ → Database → Result (Replica × Database)
mark_replica_healthy replica_id checksum size_bytes db = do
  actual ← validate_checksum checksum
  size ← non_negative size_bytes
  replica ← or_raise (replica_at replica_id db) (vault VaultError.not_found)
  version ← or_raise (version_at replica.version_id db) (vault VaultError.not_found)
  raise_if (not (actual == version.checksum)) (vault VaultError.checksum_mismatch)
  raise_if (not (size == version.size_bytes)) (vault VaultError.invalid_state)
  raise_if
      (not (replica.status == ReplicaState.copying || replica.status == ReplicaState.repairing))
      (vault VaultError.invalid_state)
  let recorded = verified actual size (db.times db.times_read) replica
  ok (
    recorded,
    record db { replicas = save replica_key recorded db.replicas; times_read = db.times_read + 1 },
  )

-- The states from which a replica's row may be deleted.
abbrev pub is_removable : ReplicaState → Bool
is_removable ReplicaState.healthy = true
is_removable ReplicaState.corrupted = true
is_removable ReplicaState.stale = true
is_removable ReplicaState.unavailable = true
is_removable _ = false

unfoldable pub remove_replica : ℕ → Database → Result (Replica × Database)
remove_replica replica_id db = do
  replica ← or_raise (replica_at replica_id db) (vault VaultError.not_found)
  raise_if (not (is_removable replica.status)) (vault VaultError.invalid_state)
  ok (replica, record db { replicas = remove replica_key replica_id db.replicas })
