-- ===== src/Metadata/Replicas/Outcomes.antt =====
-- What an operation on replicas has found and written when it returns.
use ps.Prelude.{
  ℕ, ℤ, ◌+◌, ◌≡◌, ◌≢◌, ◌⊎◌, true, false, not, none, some, List, [], ◌∷◌, map, is_some, any, select,
  arith, length, ◌==◌, nat_eq, text_eq, pair_eq, text_beq_iff, nat_beq_iff,
}
use ps.Table.{add, save, remove, update_where}
use ps.Common.Text.{Text, strip}
use ps.Common.Constants.{ReplicaState, replica_state_eq}
use ps.Common.Errors.{ok}
use ps.Metadata.Models.{
  Version, StorageNode, Replica, Database, replica_key, version_at, node_at, replica_at, replica_on,
}
use ps.Metadata.Checks.{mem, non_negative, validate_checksum}
use ps.Metadata.Replicas.{
  replica_transition, create_replica, create_replicas, set_replica_state, set_replica_states,
  record_replica_verification, mark_replica_healthy, remove_replica, with_status, is_refused,
  is_removable, new_replica, new_replicas, flush_all, has_duplicates, verified,
}

pub create_replica-eq-ok :
    (version_id : ℕ) (node_id : Text) (db : Database) {r : Replica × Database}
    → create_replica version_id node_id db ≡ ok r
    → (v : Version) × (n : StorageNode) × (version_at version_id db ≡ some v)
      × (node_at (strip node_id) db ≡ some n)
      × (replica_on version_id (strip node_id) db ≡ none)
      × (replica_at r.0.replica_id db ≡ none)
      × (r.0 ≡ new_replica (db.uuids db.drawn) version_id (strip node_id))
      × (r.1 ≡ record db { replicas = add r.0 db.replicas; drawn = db.drawn + 1 })
unfolding create_replica
create_replica-eq-ok version_id node_id db h = ground arith

pub set_replica_state-eq-ok :
    (replica_id : ℕ) (wanted : ReplicaState) (db : Database) {r : Replica × Database}
    → set_replica_state replica_id wanted db ≡ ok r
    → (replica : Replica) × (replica_at replica_id db ≡ some replica)
      × (((replica.status ≡ wanted) × (r ≡ (replica, db)))
          ⊎ ((replica_transition replica.status wanted ≡ true)
              × (wanted ≢ ReplicaState.healthy)
              × (r ≡ (
                with_status wanted replica,
                record db { replicas = save replica_key (with_status wanted replica) db.replicas },
              ))))
unfolding set_replica_state
set_replica_state-eq-ok replica_id wanted db h = ground arith

pub set_replica_states-eq-ok :
    (ids : List ℕ) (wanted : ReplicaState) (db : Database) {r : List Replica × Database}
    → set_replica_states ids wanted db ≡ ok r
    → (r.1 ≡ db)
      ⊎ ((wanted ≢ ReplicaState.healthy)
          × (any (is_refused wanted) (select (λ (x : Replica). mem x.replica_id ids) db.replicas)
              ≡ false)
          × (r.1 ≡ record db {
            replicas =
                update_where
                  (λ (x : Replica). mem x.replica_id ids)
                  (with_status wanted)
                  db.replicas;
          }))
unfolding set_replica_states
set_replica_states-eq-ok [] wanted db h = ground arith
set_replica_states-eq-ok (i ∷ ids) wanted db h = ground arith

record_replica_verification_checked :
    (replica_id : ℕ) (checksum : Text) (size : ℤ) (db : Database) {r : Replica × Database}
    → record_replica_verification replica_id checksum size db ≡ ok r
    → (actual : Text) × (n : ℕ) × (replica : Replica) × (v : Version) × (validate_checksum checksum
        ≡ ok actual)
      × (non_negative size ≡ ok n)
      × (replica_at replica_id db ≡ some replica)
      × (version_at replica.version_id db ≡ some v)
      × (replica.status ≡ ReplicaState.healthy)
      × ((actual == v.checksum) ≡ true)
      × ((n == v.size_bytes) ≡ true)
      × (r.0 ≡ verified actual n (db.times db.times_read) replica)
      × (r.1 ≡ record db {
        replicas = save replica_key r.0 db.replicas;
        times_read = db.times_read + 1;
      })
unfolding record_replica_verification
record_replica_verification_checked replica_id checksum size db h = ground arith

pub record_replica_verification-eq-ok :
    (replica_id : ℕ) (checksum : Text) (size : ℤ) (db : Database) {r : Replica × Database}
    → record_replica_verification replica_id checksum size db ≡ ok r
    → (replica : Replica) × (v : Version) × (replica_at replica_id db ≡ some replica)
      × (version_at replica.version_id db ≡ some v)
      × (replica.status ≡ ReplicaState.healthy)
      × (r.0 ≡ verified v.checksum v.size_bytes (db.times db.times_read) replica)
      × (r.1 ≡ record db {
        replicas = save replica_key r.0 db.replicas;
        times_read = db.times_read + 1;
      })
record_replica_verification-eq-ok replica_id checksum size db h =
    let (actual, n, replica, v, _, _, found, version, status, same, fits, row, rest) =
      record_replica_verification_checked replica_id checksum size db h in
    let e : actual ≡ v.checksum = (text_beq_iff actual v.checksum).0 same in
    let f : n ≡ v.size_bytes = (nat_beq_iff n v.size_bytes).0 fits in
    (replica, v, found, version, status, rw (← e, ← f) row, rest)

mark_replica_healthy_checked :
    (replica_id : ℕ) (checksum : Text) (size : ℤ) (db : Database) {r : Replica × Database}
    → mark_replica_healthy replica_id checksum size db ≡ ok r
    → (actual : Text) × (n : ℕ) × (replica : Replica) × (v : Version) × (validate_checksum checksum
        ≡ ok actual)
      × (non_negative size ≡ ok n)
      × (replica_at replica_id db ≡ some replica)
      × (version_at replica.version_id db ≡ some v)
      × ((replica.status ≡ ReplicaState.copying) ⊎ (replica.status ≡ ReplicaState.repairing))
      × ((actual == v.checksum) ≡ true)
      × ((n == v.size_bytes) ≡ true)
      × (r.0 ≡ verified actual n (db.times db.times_read) replica)
      × (r.1 ≡ record db {
        replicas = save replica_key r.0 db.replicas;
        times_read = db.times_read + 1;
      })
unfolding mark_replica_healthy
mark_replica_healthy_checked replica_id checksum size db h = ground arith

pub mark_replica_healthy-eq-ok :
    (replica_id : ℕ) (checksum : Text) (size : ℤ) (db : Database) {r : Replica × Database}
    → mark_replica_healthy replica_id checksum size db ≡ ok r
    → (replica : Replica) × (v : Version) × (replica_at replica_id db ≡ some replica)
      × (version_at replica.version_id db ≡ some v)
      × ((replica.status ≡ ReplicaState.copying) ⊎ (replica.status ≡ ReplicaState.repairing))
      × (r.0 ≡ verified v.checksum v.size_bytes (db.times db.times_read) replica)
      × (r.1 ≡ record db {
        replicas = save replica_key r.0 db.replicas;
        times_read = db.times_read + 1;
      })
mark_replica_healthy-eq-ok replica_id checksum size db h =
    let (actual, n, replica, v, _, _, found, version, status, same, fits, row, rest) =
      mark_replica_healthy_checked replica_id checksum size db h in
    let e : actual ≡ v.checksum = (text_beq_iff actual v.checksum).0 same in
    let f : n ≡ v.size_bytes = (nat_beq_iff n v.size_bytes).0 fits in
    (replica, v, found, version, status, rw (← e, ← f) row, rest)

pub remove_replica-eq-ok :
    (replica_id : ℕ) (db : Database) {r : Replica × Database}
    → remove_replica replica_id db ≡ ok r
    → (replica_at replica_id db ≡ some r.0)
      × (is_removable r.0.status ≡ true)
      × (r.1 ≡ record db { replicas = remove replica_key replica_id db.replicas })
unfolding remove_replica
remove_replica-eq-ok replica_id db h = ground arith

pub create_replicas-eq-ok :
    (version_id : ℕ) (node_ids : List Text) (db : Database) {r : List Replica × Database}
    → create_replicas version_id node_ids db ≡ ok r
    → (v : Version) × (version_at version_id db ≡ some v)
      × (has_duplicates (map strip node_ids) ≡ false)
      × (any (λ n. not (is_some (node_at n db))) (map strip node_ids) ≡ false)
      × (any (λ n. is_some (replica_on version_id n db)) (map strip node_ids) ≡ false)
      × (r.0 ≡ new_replicas db.uuids db.drawn version_id (map strip node_ids))
      × (flush_all r.0 db.replicas ≡ ok r.1.replicas)
      × (r.1 ≡ record db { replicas = r.1.replicas; drawn = db.drawn + length r.0 })
unfolding create_replicas
create_replicas-eq-ok version_id node_ids db h = ground arith
