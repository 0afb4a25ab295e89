-- ===== src/Replication/Untouched.antt =====
-- What replication leaves alone until it commits: the objects, and the state of the version.
use ps.Prelude.{ℕ, ℤ, ◌≡◌, ◌≢◌, ap, ◌∙◌, subst, some, List, arith, nat_eq, absurd_eq}
use ps.Table.{find, save, find_self, find-save_self, key-find}
use ps.Common.Text.{Text}
use ps.Common.Constants.{ReplicaState, VersionState}
use ps.Common.Errors.{Failure, Result, err}
use ps.Metadata.Models.{Version, Database, version_key, version_at}
use ps.Metadata.Checks.{transaction}
use ps.Metadata.Objects.{fail_version}
use ps.Metadata.Objects.Outcomes.{fail_version-eq-ok}
use ps.Metadata.Replicas.{
  create_replicas, set_replica_states, set_replica_state, mark_replica_healthy,
}
use ps.Metadata.Replicas.Outcomes.{
  create_replicas-eq-ok, set_replica_states-eq-ok, set_replica_state-eq-ok,
  mark_replica_healthy-eq-ok,
}
use ps.Metadata.Session.{calling, Keeps, Keeps-calling}

-- The objects and the versions are those of the first database.
pub record Untouched (before d : Database) : Type 0 where
  pub objects : d.objects ≡ before.objects
  pub versions : d.versions ≡ before.versions

-- The objects are those of the first database, and the version is not committed.
pub record Uncommitted (before : Database) (v : ℕ) (d : Database) : Type 0 where
  pub objects : d.objects ≡ before.objects
  pub version : Version
  pub found : version_at v d ≡ some version
  pub not_committed : version.state ≢ VersionState.committed

Untouched-same :
    (before : Database) (db : Database) {A : Type 0} (r : A × Database)
    → r.1.objects ≡ db.objects
    → r.1.versions ≡ db.versions
    → Untouched before db
    → Untouched before r.1
Untouched-same before db r o v u = record { objects = o ∙ u.objects; versions = v ∙ u.versions }

module _ (before : Database) where
  pub create_replicas-Untouched :
      (v : ℕ) (ids : List Text) → Keeps (Untouched before) (calling (create_replicas v ids))
  create_replicas-Untouched v ids =
      Keeps-calling (Untouched before) (create_replicas v ids) (λ db r h.
        Untouched-same before db r (ground (arith, create_replicas-eq-ok v ids db h))
          (ground (arith, create_replicas-eq-ok v ids db h)))

  pub set_replica_states-Untouched :
      (ids : List ℕ) (wanted : ReplicaState)
      → Keeps (Untouched before) (calling (set_replica_states ids wanted))
  set_replica_states-Untouched ids wanted =
      Keeps-calling (Untouched before) (set_replica_states ids wanted) (λ db r h.
        Untouched-same before db r (ground (arith, set_replica_states-eq-ok ids wanted db h))
          (ground (arith, set_replica_states-eq-ok ids wanted db h)))

  pub set_replica_state-Untouched :
      (i : ℕ) (wanted : ReplicaState)
      → Keeps (Untouched before) (calling (set_replica_state i wanted))
  set_replica_state-Untouched i wanted =
      Keeps-calling (Untouched before) (set_replica_state i wanted) (λ db r h.
        Untouched-same before db r (ground (arith, set_replica_state-eq-ok i wanted db h))
          (ground (arith, set_replica_state-eq-ok i wanted db h)))

  pub mark_replica_healthy-Untouched :
      (i : ℕ) (checksum : Text) (size : ℤ)
      → Keeps (Untouched before) (calling (mark_replica_healthy i checksum size))
  mark_replica_healthy-Untouched i checksum size =
      Keeps-calling (Untouched before) (mark_replica_healthy i checksum size) (λ db r h.
        Untouched-same before db r (ground (arith, mark_replica_healthy-eq-ok i checksum size db h))
          (ground (arith, mark_replica_healthy-eq-ok i checksum size db h)))

module _ (before : Database) (v : ℕ) where
  pub fail_version-Uncommitted : Keeps (Uncommitted before v) (calling (fail_version v))
  fail_version-Uncommitted = Keeps-calling (Uncommitted before v) (fail_version v) (λ db r h u.
      let (w, found, _, e) = fail_version-eq-ok v db h in
      let id : w.version_id ≡ v = key-find version_key v db.versions found in
      let failed : Version = record w { state = VersionState.failed } in
      let saved =
        find-save_self version_key failed db.versions
          (λ p. absurd_eq p (find_self version_key v db.versions found)) in
      record {
        objects = ap (λ (o : Version × Database). o.1.objects) e ∙ u.objects;
        version = failed;
        found = rw e (
            subst (λ k. find version_key k (save version_key failed db.versions) ≡ some failed) id
              saved);
        not_committed = λ c. cc;
      })

pub calling-raised :
    {A : Type 0} (operation : Database → Result (A × Database)) (db : Database) {x : Failure}
    {d : Database}
    → calling operation db ≡ (err x, d)
    → d ≡ db
unfolding transaction
calling-raised operation db h = ground arith
