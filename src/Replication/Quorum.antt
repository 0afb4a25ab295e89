-- ===== src/Replication/Quorum.antt =====
-- A version that replication commits is on a write quorum of nodes.
use ps.Prelude.{
  ℕ, ℤ, ◌≤◌, ◌≡◌, refl, subst, Bool, true, false, Option, some, List, [], ◌∷◌, map, length, arith,
  nat_eq, text_eq, if◌then◌else◌, ltb, All, All-weaken,
}
use ps.Table.{key-find}
use ps.Common.Text.{Text}
use ps.Common.Constants.{VersionState, version_state_eq}
use ps.Common.Errors.{Failure, Result, ok}
use ps.Metadata.Models.{Version, StorageNode, Replica, Database, version_key, version_at}
use ps.Metadata.Objects.{commit_version, fail_version}
use ps.Metadata.Objects.Outcomes.{commit_version-eq-ok}
use ps.Metadata.Conflicts.{rows_written}
use ps.Metadata.Replicas.{create_replicas}
use ps.Metadata.Session.{◌>>◌, calling, >>=-returned, calling-returned}
use ps.Replication.Policy.{ReplicationPolicy, chosen_quorum}
use ps.Replication.Writes.{Client, ReplicaWriteResult, ReplicationResult, write_one}
use ps.Replication.Commit.{
  healthy_replica_count, record_all, raise_first, verified_ids, conclude, give_up, commit_written,
  settle, new_rows, start_copies, copy_to, plan, preparing_version, replicate_version,
}
use ps.Replication.Counts.{OwnedBy}
use ps.Replication.Recorded.{record_all_count}
use ps.Replication.Owned.{create_replicas-OwnedBy, start_copies-OwnedBy}

-- What the plan has found.
pub plan_found :
    (policy : ReplicationPolicy) (version_id : ℕ)
    (replication_factor write_quorum expected : Option ℤ) (db c : Database)
    (planned : ℕ × (Version × List StorageNode))
    → plan policy version_id replication_factor write_quorum expected db ≡ (ok planned, c)
    → (numbers : ℕ × ℕ) × (chosen_quorum policy replication_factor write_quorum ≡ ok numbers)
      × (numbers.1 ≡ planned.0)
      × (version_at version_id db ≡ some planned.1.0)
unfolding plan preparing_version
plan_found policy version_id replication_factor write_quorum expected db c planned h = ground arith

conclude_either :
    (v quorum : ℕ) (expected : Option ℤ) (nodes : List StorageNode)
    (results : List ReplicaWriteResult) (db : Database) (result : ReplicationResult) (d : Database)
    (few : Bool)
    → ltb (length (verified_ids results)) quorum ≡ few
    → (if few then give_up v else commit_written v expected nodes results) db ≡ (ok result, d)
    → (w : Version) × (commit_version v expected db ≡ ok (w, d))
      × (quorum ≤ length (verified_ids results))
      × (result.healthy_node_ids ≡ verified_ids results)
unfolding give_up commit_written
conclude_either v quorum expected nodes results db result d true e h =
    let (_, _, _, raised) = >>=-returned (calling (fail_version v)) _ db h in cc
conclude_either v quorum expected nodes results db result d false e h =
    let (w, c, called, rest) = >>=-returned (calling (commit_version v expected)) _ db h in
    (
      w,
      ground (arith, calling-returned (commit_version v expected) db called),
      ground arith,
      ground arith,
    )

raise_first_passed :
    (failures : List Failure) (c e : Database) → raise_first failures c ≡ (ok tt, e) → e ≡ c
raise_first_passed [] c e h = ground arith
raise_first_passed (f ∷ fs) c e h = cc

commit_version_replicas :
    (v : ℕ) (expected : Option ℤ) (db : Database) {r : Version × Database}
    → commit_version v expected db ≡ ok r
    → r.1.replicas ≡ db.replicas
commit_version_replicas v expected db {r} h = ground (arith, commit_version-eq-ok v expected db h)

-- What holds of a version and its replicas once replication has returned.
record Committed (v quorum : ℕ) (result : ReplicationResult) (d : Database) : Type 0 where
  quorum_met : quorum ≤ length result.healthy_node_ids
  counted : length result.healthy_node_ids ≤ healthy_replica_count v d.replicas
  version : Version
  found : version_at v d ≡ some version
  committed : version.state ≡ VersionState.committed

conclude-Committed :
    (v quorum : ℕ) (expected : Option ℤ) (nodes : List StorageNode)
    (results : List ReplicaWriteResult) (db : Database) (result : ReplicationResult) (d : Database)
    → conclude v quorum expected nodes results db ≡ (ok result, d)
    → length (verified_ids results) ≤ healthy_replica_count v db.replicas
    → Committed v quorum result d
unfolding conclude
conclude-Committed v quorum expected nodes results db result d h enough =
    let (w, committed, met, healthy) =
      conclude_either v quorum expected nodes results db result d
        (ltb (length (verified_ids results)) quorum) refl h in
    let same : d.replicas ≡ db.replicas = commit_version_replicas v expected db committed in
    let (_, _, found, state, id, _) = rows_written v expected db (w, d) committed in
    record {
      quorum_met = rw healthy met;
      counted = rw (healthy, same) enough;
      version = w;
      found = found;
      committed = state;
    }

settle-Committed :
    (client_factory : Text → Client) (version : Version) (quorum : ℕ) (expected : Option ℤ)
    (nodes : List StorageNode) (replicas : List Replica) (db : Database)
    (result : ReplicationResult) (d : Database)
    → All (λ (r : Replica). OwnedBy version.version_id r.replica_id db.replicas) replicas
    → settle client_factory version quorum expected nodes replicas db ≡ (ok result, d)
    → Committed version.version_id quorum result d
unfolding settle
settle-Committed client_factory version quorum expected nodes replicas db result d owned h =
    let v = version.version_id in
    let ws = map (write_one client_factory version) nodes in
    let (recorded, c, all, h1) =
      >>=-returned (record_all replicas ws)
        (λ recorded. raise_first recorded.1 >> conclude v quorum expected nodes recorded.0) db h in
    let (done, e, first, h2) =
      >>=-returned (raise_first recorded.1) (λ done. conclude v quorum expected nodes recorded.0) c
        h1 in
    let count = record_all_count v replicas ws db recorded c owned all in
    let same : e ≡ c = raise_first_passed recorded.1 c e first in
    conclude-Committed v quorum expected nodes recorded.0 e result d h2
      (rw same (omega (arith, count)))

copy_to-Committed :
    (client_factory : Text → Client) (version : Version) (quorum : ℕ) (expected : Option ℤ)
    (nodes : List StorageNode) (db : Database) (result : ReplicationResult) (d : Database)
    → copy_to client_factory version quorum expected nodes db ≡ (ok result, d)
    → Committed version.version_id quorum result d
unfolding copy_to
copy_to-Committed client_factory version quorum expected nodes db result d h =
    let v = version.version_id in
    let ids = map (λ (n : StorageNode). n.node_id) nodes in
    let (replicas, c, created, h1) =
      >>=-returned (new_rows version nodes)
        (λ replicas.
          start_copies replicas >> settle client_factory version quorum expected nodes replicas)
        db h in
    let (copies, e, started, h2) =
      >>=-returned (start_copies replicas)
        (λ copies. settle client_factory version quorum expected nodes replicas) c h1 in
    let owned =
      create_replicas-OwnedBy v ids db (calling-returned (create_replicas v ids) db created) in
    settle-Committed client_factory version quorum expected nodes replicas e result d
      (All-weaken (λ (r : Replica). OwnedBy v r.replica_id c.replicas)
        (λ (r : Replica). OwnedBy v r.replica_id e.replicas) replicas owned
        (λ r mine.
          subst (λ (o : Result (List Replica) × Database). OwnedBy v r.replica_id o.1.replicas)
            started (start_copies-OwnedBy v r.replica_id replicas c mine)))
      h2

-- When replication returns, the version is COMMITTED, the nodes that are reported as healthy are at
-- least the write quorum, and the database has at least that many HEALTHY replicas of the version.
pub replicate_version_commits :
    (policy : ReplicationPolicy) (client_factory : Text → Client) (version_id : ℕ)
    (replication_factor write_quorum expected : Option ℤ) (db : Database)
    (result : ReplicationResult) (d : Database)
    → replicate_version policy client_factory version_id replication_factor write_quorum expected db
      ≡ (ok result, d)
    → (numbers : ℕ × ℕ) × (w : Version) × (chosen_quorum policy replication_factor write_quorum
        ≡ ok numbers)
      × (numbers.1 ≤ length result.healthy_node_ids)
      × (length result.healthy_node_ids ≤ healthy_replica_count version_id d.replicas)
      × (version_at version_id d ≡ some w)
      × (w.state ≡ VersionState.committed)
unfolding replicate_version
replicate_version_commits policy client_factory version_id replication_factor write_quorum expected
      db result d h =
    let (planned, c0, plans, h1) =
      >>=-returned (plan policy version_id replication_factor write_quorum expected)
        (λ planned. copy_to client_factory planned.1.0 planned.0 expected planned.1.1) db h in
    let (numbers, asked, quorum, version) =
      plan_found policy version_id replication_factor write_quorum expected db c0 planned plans in
    let same : planned.1.0.version_id ≡ version_id =
      key-find version_key version_id db.versions version in
    let done =
      copy_to-Committed client_factory planned.1.0 planned.0 expected planned.1.1 c0 result d h1 in
    (
      numbers,
      done.version,
      asked,
      rw quorum done.quorum_met,
      rw (← same) done.counted,
      rw (← same) done.found,
      done.committed,
    )
