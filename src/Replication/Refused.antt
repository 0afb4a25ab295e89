-- ===== src/Replication/Refused.antt =====
-- Replication that raises commits nothing.
use ps.Prelude.{
  ℕ, ℤ, ◌≡◌, ◌≢◌, refl, sym, ap, ◌∙◌, subst, Option, some, List, map, length, nat_eq, ltb, inl, inr,
}
use ps.Table.{find, key-find}
use ps.Common.Text.{Text}
use ps.Common.Constants.{ReplicaState, VersionState, ErrorCode}
use ps.Common.Errors.{VaultError, Failure, Result, err, vault}
use ps.Metadata.Models.{Version, StorageNode, Replica, Database, version_key, version_at}
use ps.Metadata.Objects.{commit_version, fail_version}
use ps.Metadata.Session.{
  ◌>>◌, raise, calling, >>=-raised, Raises, Raises-Keeps, Raises->>=, Raises-if,
}
use ps.Replication.Policy.{ReplicationPolicy}
use ps.Replication.Writes.{Client, ReplicaWriteResult, write_one}
use ps.Replication.Commit.{
  record_all, raise_first, conclude, give_up, commit_written, verified_ids, settle, new_rows,
  start_copies, copy_to, plan, replicate_version,
}
use ps.Replication.Quorum.{plan_found}
use ps.Replication.Kept.{Keeps-record_all, Keeps-raise_first, plan_reads}
use ps.Replication.Untouched.{
  Untouched, Uncommitted, create_replicas-Untouched, set_replica_states-Untouched,
  set_replica_state-Untouched, mark_replica_healthy-Untouched, fail_version-Uncommitted,
  calling-raised,
}

module _ (before : Database) (v : ℕ) (first : Version) (there : version_at v before ≡ some first)
    (open_ : first.state ≢ VersionState.committed) where
  Uncommitted-Untouched : (d : Database) → Untouched before d → Uncommitted before v d
  Uncommitted-Untouched d u = record {
    objects = u.objects;
    version = first;
    found = ap (find version_key v) u.versions ∙ there;
    not_committed = open_;
  }

  give_up-Raises : Raises (Untouched before) (Uncommitted before v) (give_up v)
  unfolding give_up
  give_up-Raises db d x u h =
      Raises->>= (Uncommitted before v) (Uncommitted before v) (λ c p. p) (calling (fail_version v))
        (λ done. raise (vault (VaultError.plain ErrorCode.insufficient_replicas 503)))
        (fail_version-Uncommitted before v)
        (λ a. Raises-Keeps (Uncommitted before v) (Uncommitted before v) (λ c p. p) _ (λ c p. p)) db
        d x (Uncommitted-Untouched db u) h

  commit_written-Raises :
      (expected : Option ℤ) (nodes : List StorageNode) (results : List ReplicaWriteResult)
      → Raises (Untouched before) (Uncommitted before v) (commit_written v expected nodes results)
  unfolding commit_written
  commit_written-Raises expected nodes results db d x u h =
      elim (>>=-raised (calling (commit_version v expected)) _ db h) [
        | inl e ↦
            Uncommitted-Untouched d
              (subst (Untouched before) (sym (calling-raised (commit_version v expected) db e)) u)
        | inr (_, _, _, e) ↦ cc
      ]

  conclude-Raises :
      (quorum : ℕ) (expected : Option ℤ) (nodes : List StorageNode)
      (results : List ReplicaWriteResult)
      → Raises (Untouched before) (Uncommitted before v) (conclude v quorum expected nodes results)
  unfolding conclude
  conclude-Raises quorum expected nodes results =
      Raises-if (Untouched before) (Uncommitted before v)
        (ltb (length (verified_ids results)) quorum) (give_up v)
        (commit_written v expected nodes results) give_up-Raises
        (commit_written-Raises expected nodes results)

  module _ (version : Version) (mine : version.version_id ≡ v) where
    settle-Raises :
        (client_factory : Text → Client) (quorum : ℕ) (expected : Option ℤ)
        (nodes : List StorageNode) (replicas : List Replica)
        → Raises
            (Untouched before)
            (Uncommitted before v)
            (settle client_factory version quorum expected nodes replicas)
    unfolding settle
    settle-Raises client_factory quorum expected nodes replicas =
        let ws = map (write_one client_factory version) nodes in
        Raises->>= (Untouched before) (Uncommitted before v) Uncommitted-Untouched
          (record_all replicas ws)
          (λ recorded.
            raise_first recorded.1 >> conclude version.version_id quorum expected nodes recorded.0)
          (Keeps-record_all (Untouched before) (set_replica_state-Untouched before)
            (mark_replica_healthy-Untouched before) replicas ws)
          (λ recorded.
            Raises->>= (Untouched before) (Uncommitted before v) Uncommitted-Untouched
              (raise_first recorded.1)
              (λ done. conclude version.version_id quorum expected nodes recorded.0)
              (Keeps-raise_first (Untouched before) recorded.1)
              (λ done. rw mine (conclude-Raises quorum expected nodes recorded.0)))

    copy_to-Raises :
        (client_factory : Text → Client) (quorum : ℕ) (expected : Option ℤ)
        (nodes : List StorageNode)
        → Raises
            (Untouched before)
            (Uncommitted before v)
            (copy_to client_factory version quorum expected nodes)
    unfolding copy_to
    copy_to-Raises client_factory quorum expected nodes =
        let ids = map (λ (n : StorageNode). n.node_id) nodes in
        Raises->>= (Untouched before) (Uncommitted before v) Uncommitted-Untouched
          (new_rows version nodes)
          (λ replicas.
            start_copies replicas >> settle client_factory version quorum expected nodes replicas)
          (create_replicas-Untouched before version.version_id ids)
          (λ replicas.
            Raises->>= (Untouched before) (Uncommitted before v) Uncommitted-Untouched
              (start_copies replicas)
              (λ copies. settle client_factory version quorum expected nodes replicas)
              (set_replica_states-Untouched before (map (λ (r : Replica). r.replica_id) replicas)
                ReplicaState.copying)
              (λ copies. settle-Raises client_factory quorum expected nodes replicas))

-- When replication raises, whatever it raises, no object has changed, so that readers see what
-- they saw before, and a version that was not committed is not committed.
pub replicate_version_refuses :
    (policy : ReplicationPolicy) (client_factory : Text → Client) (version_id : ℕ)
    (replication_factor write_quorum expected : Option ℤ) (db d : Database) (failure : Failure)
    (v : Version)
    → version_at version_id db ≡ some v
    → v.state ≢ VersionState.committed
    → replicate_version policy client_factory version_id replication_factor write_quorum expected db
      ≡ (err failure, d)
    → Uncommitted db version_id d
unfolding replicate_version
replicate_version_refuses policy client_factory version_id replication_factor write_quorum expected
      db d failure v there open_ h =
    let same = plan_reads policy version_id replication_factor write_quorum expected db in
    let here : Untouched db db = record { objects = refl; versions = refl } in
    elim (>>=-raised (plan policy version_id replication_factor write_quorum expected)
      (λ planned. copy_to client_factory planned.1.0 planned.0 expected planned.1.1) db h) [
        | inl e ↦ Uncommitted-Untouched db version_id v there open_ d (
            subst (Untouched db)
              (sym same ∙ ap (λ (o : Result (ℕ × (Version × List StorageNode)) × Database). o.1) e)
              here)
        | inr (planned, c, plans, e) ↦
            let (_, _, _, version) =
              plan_found policy version_id replication_factor write_quorum expected db c planned
                plans in
            copy_to-Raises db version_id v there open_ planned.1.0
              (key-find version_key version_id db.versions version) client_factory planned.0
              expected planned.1.1 c d failure
              (subst (Untouched db)
                (sym same
                  ∙ ap (λ (o : Result (ℕ × (Version × List StorageNode)) × Database). o.1) plans)
                here)
              e
      ]
