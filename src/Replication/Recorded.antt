-- ===== src/Replication/Recorded.antt =====
-- The loop over the results: each verified one makes one more replica of the version HEALTHY.
use ps.Prelude.{
  ℕ, pos, suc, ◌+◌, ◌≡◌, refl, subst, Bool, true, false, Option, none, some, List, [], ◌∷◌, ◌++◌,
  length, arith, nat_eq, if◌then◌else◌, All, All-weaken,
}
use ps.Common.Text.{Text}
use ps.Common.Constants.{ReplicaState}
use ps.Common.Errors.{Failure, Result, ok}
use ps.Metadata.Models.{Replica, Database}
use ps.Metadata.Replicas.{set_replica_state, mark_replica_healthy}
use ps.Metadata.Session.{◌>>=◌, ◌>>◌, pure, calling, >>=-returned, calling-returned}
use ps.Replication.Writes.{Written, finished, crashed, ReplicaWriteResult, failed_result}
use ps.Replication.Commit.{
  healthy_replica_count, record_verified, record_unverified, record_write, record_one, record_all,
  verified_ids,
}
use ps.Replication.Kept.{Keeps-record_one}
use ps.Replication.Counts.{
  OwnedBy, set_replica_state-OwnedBy, mark_replica_healthy-OwnedBy, set_replica_state_count,
  mark_replica_healthy_count,
}

-- 1 for a result that counts for the quorum.
abbrev pub counted : ReplicaWriteResult → ℕ
counted result = if result.verified then 1 else 0

module _ (v : ℕ) (r : Replica) (db : Database) (owned : OwnedBy v r.replica_id db.replicas) where
  set_failed_count :
      {A : Type 0} (value kept : A) (d : Database)
      → (calling (set_replica_state r.replica_id ReplicaState.failed) >> pure value) db
        ≡ (ok kept, d)
      → (kept ≡ value) × (healthy_replica_count v d.replicas ≡ healthy_replica_count v db.replicas)
  set_failed_count value kept d h =
      let (x, c, called, rest) =
        >>=-returned (calling (set_replica_state r.replica_id ReplicaState.failed))
          (λ done. pure value) db h in
      let count =
        set_replica_state_count v r.replica_id db
          (calling-returned (set_replica_state r.replica_id ReplicaState.failed) db called) in
      (ground arith, ground (arith, count))

  record_verified_count :
      (result kept : ReplicaWriteResult) (checksum : Option Text) (size : Option ℕ) (d : Database)
      → record_verified r result checksum size db ≡ (ok kept, d)
      → (kept ≡ result)
        × (healthy_replica_count v d.replicas ≡ suc (healthy_replica_count v db.replicas))
  unfolding record_verified
  record_verified_count result kept (some checksum) (some size) d h =
      let mark = mark_replica_healthy r.replica_id checksum (pos size) in
      let (x, c, called, rest) = >>=-returned (calling mark) (λ done. pure result) db h in
      let count =
        mark_replica_healthy_count v r.replica_id checksum (pos size) db
          (calling-returned mark db called) owned in
      (ground arith, ground (arith, count))
  record_verified_count result kept none size d h = cc
  record_verified_count result kept (some checksum) none d h = cc

  record_either_count :
      (result kept : ReplicaWriteResult) (d : Database) (b : Bool)
      → result.verified ≡ b
      → (if b
            then record_verified r result result.checksum result.size_bytes
            else record_unverified r result)
          db
        ≡ (ok kept, d)
      → (kept ≡ result)
        × (healthy_replica_count v d.replicas
            ≡ counted result + healthy_replica_count v db.replicas)
  unfolding record_unverified
  record_either_count result kept d true e h =
      let (same, count) = record_verified_count result kept result.checksum result.size_bytes d h in
      (same, ground (arith, count, e))
  record_either_count result kept d false e h =
      let (same, count) = set_failed_count result kept d h in (same, ground (arith, count, e))

  record_one_count :
      (w : Written) (kept : ReplicaWriteResult × List Failure) (d : Database)
      → record_one r w db ≡ (ok kept, d)
      → healthy_replica_count v d.replicas ≡ counted kept.0 + healthy_replica_count v db.replicas
  unfolding record_one record_write
  record_one_count (finished result) kept d h =
      let (x, c, wrote, rest) = >>=-returned (record_write r result) (λ x. pure (x, [])) db h in
      let (same, count) = record_either_count result x c result.verified refl wrote in
      ground (arith, same, count)
  record_one_count (crashed failure) kept d h =
      let (same, count) = set_failed_count (failed_result r.node_id, failure ∷ []) kept d h in
      ground (arith, same, count)

  -- Another replica of the version stays one.
  record_one-OwnedBy :
      (w : Written) (i : ℕ) (kept : ReplicaWriteResult × List Failure) (d : Database)
      → record_one r w db ≡ (ok kept, d)
      → OwnedBy v i db.replicas
      → OwnedBy v i d.replicas
  record_one-OwnedBy w i kept d h other =
      subst
        (λ (o : Result (ReplicaWriteResult × List Failure) × Database). OwnedBy v i o.1.replicas) h
        (Keeps-record_one (λ x. OwnedBy v i x.replicas) (set_replica_state-OwnedBy v i)
          (mark_replica_healthy-OwnedBy v i) r w db other)

length-verified_ids :
    (result : ReplicaWriteResult) (results : List ReplicaWriteResult)
    → length (verified_ids (result ∷ results)) ≡ counted result + length (verified_ids results)
length-verified_ids result results = ground arith

pub record_all_count :
    (v : ℕ) (rs : List Replica) (ws : List Written) (db : Database)
    (recorded : List ReplicaWriteResult × List Failure) (d : Database)
    → All (λ (r : Replica). OwnedBy v r.replica_id db.replicas) rs
    → record_all rs ws db ≡ (ok recorded, d)
    → healthy_replica_count v d.replicas
      ≡ length (verified_ids recorded.0) + healthy_replica_count v db.replicas
unfolding record_all
record_all_count v [] [] db recorded d owned h = ground arith
record_all_count v (r ∷ rs) (w ∷ ws) db recorded d owned h =
    let (here, c, first, more) =
      >>=-returned (record_one r w)
        (λ here. record_all rs ws >>= λ rest. pure (here.0 ∷ rest.0, here.1 ++ rest.1)) db h in
    let (rest, e, others, last) =
      >>=-returned (record_all rs ws) (λ rest. pure (here.0 ∷ rest.0, here.1 ++ rest.1)) c more in
    let one = record_one_count v r db owned.0 w here c first in
    let still =
      All-weaken (λ (x : Replica). OwnedBy v x.replica_id db.replicas)
        (λ (x : Replica). OwnedBy v x.replica_id c.replicas) rs owned.1
        (λ x. record_one-OwnedBy v r db owned.0 w x.replica_id here c first) in
    let tail = record_all_count v rs ws c rest e still others in
    ground (arith, one, tail, length-verified_ids here.0 rest.0, last)
record_all_count v [] (w ∷ ws) db recorded d owned h = cc
record_all_count v (r ∷ rs) [] db recorded d owned h = cc
