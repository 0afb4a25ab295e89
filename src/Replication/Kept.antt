-- ===== src/Replication/Kept.antt =====
-- What replication keeps, whether it returns or raises.
use ps.Prelude.{ℕ, ℤ, pos, ◌≡◌, subst, sym, Option, none, some, List, [], ◌∷◌, map, arith, nat_eq}
use ps.Common.Text.{Text}
use ps.Common.Constants.{ReplicaState, version_state_eq}
use ps.Common.Errors.{Failure}
use ps.Metadata.Models.{Version, StorageNode, Replica, Database}
use ps.Metadata.Objects.{commit_version, fail_version}
use ps.Metadata.Replicas.{
  create_replicas, set_replica_states, set_replica_state, mark_replica_healthy,
}
use ps.Metadata.Session.{◌>>◌, pure, calling, Keeps, Keeps->>=, Keeps-calling, Keeps-if}
use ps.Metadata.Consistency.{IsConsistent}
use ps.Metadata.Consistency.Preserved.Objects.{
  commit_version-IsConsistent, fail_version-IsConsistent,
}
use ps.Metadata.Consistency.Preserved.Replicas.{
  set_replica_states-IsConsistent, set_replica_state-IsConsistent,
  mark_replica_healthy-IsConsistent,
}
use ps.Metadata.Consistency.Preserved.Batch.{create_replicas-IsConsistent}
use ps.Replication.Policy.{ReplicationPolicy}
use ps.Replication.Writes.{Client, Written, finished, crashed, ReplicaWriteResult, write_one}
use ps.Replication.Commit.{
  preparing_version, record_verified, record_unverified, record_write, record_one, record_all,
  raise_first, give_up, commit_written, conclude, settle, new_rows, start_copies, copy_to, plan,
  replicate_version,
}

module _ {μ} (P : Database → Type μ)
    (set : (i : ℕ) (wanted : ReplicaState) → Keeps P (calling (set_replica_state i wanted)))
    (mark : (i : ℕ) (checksum : Text) (size : ℤ)
      → Keeps P (calling (mark_replica_healthy i checksum size))) where
  Keeps-record_verified :
      (r : Replica) (result : ReplicaWriteResult) (checksum : Option Text) (size : Option ℕ)
      → Keeps P (record_verified r result checksum size)
  unfolding record_verified
  Keeps-record_verified r result (some checksum) (some size) =
      Keeps->>= P (calling (mark_replica_healthy r.replica_id checksum (pos size)))
        (λ x. pure result) (mark r.replica_id checksum (pos size)) (λ x db p. p)
  Keeps-record_verified r result none size = λ db p. p
  Keeps-record_verified r result (some checksum) none = λ db p. p

  Keeps-record_write : (r : Replica) (result : ReplicaWriteResult) → Keeps P (record_write r result)
  unfolding record_write record_unverified
  Keeps-record_write r result =
      Keeps-if P result.verified (record_verified r result result.checksum result.size_bytes)
        (record_unverified r result)
        (Keeps-record_verified r result result.checksum result.size_bytes)
        (Keeps->>= P (calling (set_replica_state r.replica_id ReplicaState.failed))
          (λ x. pure result) (set r.replica_id ReplicaState.failed) (λ x db p. p))

  pub Keeps-record_one : (r : Replica) (w : Written) → Keeps P (record_one r w)
  unfolding record_one
  Keeps-record_one r (finished result) =
      Keeps->>= P (record_write r result) _ (Keeps-record_write r result) (λ x db p. p)
  Keeps-record_one r (crashed failure) =
      Keeps->>= P (calling (set_replica_state r.replica_id ReplicaState.failed)) _
        (set r.replica_id ReplicaState.failed) (λ x db p. p)

  pub Keeps-record_all : (rs : List Replica) (ws : List Written) → Keeps P (record_all rs ws)
  unfolding record_all
  Keeps-record_all [] [] = λ db p. p
  Keeps-record_all (r ∷ rs) (w ∷ ws) =
      Keeps->>= P (record_one r w) _ (Keeps-record_one r w)
        (λ here. Keeps->>= P (record_all rs ws) _ (Keeps-record_all rs ws) (λ rest db p. p))
  Keeps-record_all [] (w ∷ ws) = λ db p. p
  Keeps-record_all (r ∷ rs) [] = λ db p. p

pub Keeps-raise_first {μ} :
    (P : Database → Type μ) (failures : List Failure) → Keeps P (raise_first failures)
Keeps-raise_first P [] db p = p
Keeps-raise_first P (f ∷ fs) db p = p

pub plan_reads :
    (policy : ReplicationPolicy) (version_id : ℕ)
    (replication_factor write_quorum expected : Option ℤ) (db : Database)
    → (plan policy version_id replication_factor write_quorum expected db).1 ≡ db
unfolding plan preparing_version
plan_reads policy version_id replication_factor write_quorum expected db = ground arith

conclude-IsConsistent :
    (version_id quorum : ℕ) (expected : Option ℤ) (nodes : List StorageNode)
    (results : List ReplicaWriteResult)
    → Keeps IsConsistent (conclude version_id quorum expected nodes results)
unfolding conclude give_up commit_written
conclude-IsConsistent version_id quorum expected nodes results =
    Keeps-if IsConsistent _ _ _
      (Keeps->>= IsConsistent (calling (fail_version version_id)) _
        (Keeps-calling IsConsistent (fail_version version_id)
          (fail_version-IsConsistent version_id))
        (λ x db c. c))
      (Keeps->>= IsConsistent (calling (commit_version version_id expected)) _
        (Keeps-calling IsConsistent (commit_version version_id expected)
          (commit_version-IsConsistent version_id expected))
        (λ x db c. c))

settle-IsConsistent :
    (client_factory : Text → Client) (version : Version) (quorum : ℕ) (expected : Option ℤ)
    (nodes : List StorageNode) (replicas : List Replica)
    → Keeps IsConsistent (settle client_factory version quorum expected nodes replicas)
unfolding settle
settle-IsConsistent client_factory version quorum expected nodes replicas =
    let ws = map (write_one client_factory version) nodes in
    Keeps->>= IsConsistent (record_all replicas ws)
      (λ recorded.
        raise_first recorded.1 >> conclude version.version_id quorum expected nodes recorded.0)
      (Keeps-record_all IsConsistent
        (λ i wanted.
          Keeps-calling IsConsistent (set_replica_state i wanted)
            (set_replica_state-IsConsistent i wanted))
        (λ i checksum size.
          Keeps-calling IsConsistent (mark_replica_healthy i checksum size)
            (mark_replica_healthy-IsConsistent i checksum size))
        replicas ws)
      (λ recorded.
        Keeps->>= IsConsistent (raise_first recorded.1)
          (λ done. conclude version.version_id quorum expected nodes recorded.0)
          (Keeps-raise_first IsConsistent recorded.1)
          (λ done. conclude-IsConsistent version.version_id quorum expected nodes recorded.0))

copy_to-IsConsistent :
    (client_factory : Text → Client) (version : Version) (quorum : ℕ) (expected : Option ℤ)
    (nodes : List StorageNode)
    → Keeps IsConsistent (copy_to client_factory version quorum expected nodes)
unfolding copy_to
copy_to-IsConsistent client_factory version quorum expected nodes =
    let ids = map (λ (n : StorageNode). n.node_id) nodes in
    Keeps->>= IsConsistent (new_rows version nodes)
      (λ replicas.
        start_copies replicas >> settle client_factory version quorum expected nodes replicas)
      (Keeps-calling IsConsistent (create_replicas version.version_id ids)
        (create_replicas-IsConsistent version.version_id ids))
      (λ replicas.
        Keeps->>= IsConsistent (start_copies replicas)
          (λ copies. settle client_factory version quorum expected nodes replicas)
          (Keeps-calling IsConsistent
            (set_replica_states (map (λ (r : Replica). r.replica_id) replicas) ReplicaState.copying)
            (set_replica_states-IsConsistent (map (λ (r : Replica). r.replica_id) replicas)
              ReplicaState.copying))
          (λ copies. settle-IsConsistent client_factory version quorum expected nodes replicas))

-- Replication keeps the database consistent, whatever the storage nodes answer and whatever is
-- raised on the way.
pub replicate_version-IsConsistent :
    (policy : ReplicationPolicy) (client_factory : Text → Client) (version_id : ℕ)
    (replication_factor write_quorum expected : Option ℤ) (db : Database)
    → IsConsistent db
    → IsConsistent
        (replicate_version policy client_factory version_id replication_factor write_quorum expected
          db).1
unfolding replicate_version
replicate_version-IsConsistent policy client_factory version_id replication_factor write_quorum
      expected =
    Keeps->>= IsConsistent (plan policy version_id replication_factor write_quorum expected)
      (λ planned. copy_to client_factory planned.1.0 planned.0 expected planned.1.1)
      (λ db c.
        subst IsConsistent
          (sym (plan_reads policy version_id replication_factor write_quorum expected db)) c)
      (λ planned. copy_to-IsConsistent client_factory planned.1.0 planned.0 expected planned.1.1)
