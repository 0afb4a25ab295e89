-- ===== src/Metadata/Conflicts.antt =====
-- Conditional writes: of several commits that expect the same current version one goes through.
use ps.Prelude.{
  ℕ, ◌<◌, ◌≡◌, refl, ap, ℤ, pos, Option, none, some, arith, true, false, nat_eq, text_eq, absurd_eq,
}
use ps.Table.{find, save, find_self, find-save_self, key-find, All-find}
use ps.Common.Constants.{
  ObjectState, VersionState, object_transition, object_state_eq, version_state_eq,
}
use ps.Common.Errors.{VaultError, ok, err, vault}
use ps.Metadata.Models.{Object, Version, Database, object_key, version_key, object_at, version_at}
use ps.Metadata.Checks.{expected_matches}
use ps.Metadata.Objects.{commit_version, is_outdated, committed, current}
use ps.Metadata.Objects.Outcomes.{commit_version-eq-ok}
use ps.Metadata.Consistency.{IsConsistent}

-- The rows that a commit leaves, as `commit_version` writes them.
pub rows_written :
    (version_id : ℕ) (expected : Option ℤ) (db : Database) (r : Version × Database)
    → commit_version version_id expected db ≡ ok r
    → (o : Object) × (object_at r.0.object_id db ≡ some o)
      × (version_at version_id r.1 ≡ some r.0)
      × (r.0.state ≡ VersionState.committed)
      × (r.0.version_id ≡ version_id)
      × (object_at r.0.object_id r.1 ≡ some (current o r.0))
rows_written version_id expected db r h =
    let (_, v, o, n, _, found, owner, number, _, preparing, newer, row, e) =
      commit_version-eq-ok version_id expected db h in
    let v_id : v.version_id ≡ version_id = key-find version_key version_id db.versions found in
    let o_id : o.object_id ≡ v.object_id = key-find object_key v.object_id db.objects owner in
    let here = find_self version_key version_id db.versions found in
    let there = find_self object_key v.object_id db.objects owner in
    let saved_version : find version_key v.version_id
          (save version_key (committed v db) db.versions)
        ≡ some (committed v db) =
      find-save_self version_key (committed v db) db.versions (λ p. absurd_eq p here) in
    let saved_object : find object_key o.object_id (save object_key (current o v) db.objects)
        ≡ some (current o v) =
      find-save_self object_key (current o v) db.objects (λ p. absurd_eq p there) in
    (o, ground arith, ground arith, ground arith, ground arith, ground arith)

-- What a commit leaves behind: the version, which was PREPARING, is COMMITTED with the number, the
-- checksum and the size that were prepared, and its object, whatever state it had, is ACTIVE, keeps
-- its name, and has the version as its current one.
pub commit_version_written :
    (version_id : ℕ) (expected : Option ℤ) (db : Database) (r : Version × Database)
    → commit_version version_id expected db ≡ ok r
    → ((v : Version) × (version_at version_id db ≡ some v)
        × (v.state ≡ VersionState.preparing)
        × (version_at version_id r.1 ≡ some r.0)
        × (r.0.state ≡ VersionState.committed)
        × (r.0.object_id ≡ v.object_id)
        × (r.0.version_number ≡ v.version_number)
        × (r.0.checksum ≡ v.checksum)
        × (r.0.size_bytes ≡ v.size_bytes))
      × ((o o' : Object) × (object_at r.0.object_id db ≡ some o)
          × (object_at r.0.object_id r.1 ≡ some o')
          × (o'.state ≡ ObjectState.active)
          × (o'.current_version_id ≡ some version_id)
          × (o'.name ≡ o.name))
commit_version_written version_id expected db r h =
    let (o, owner, there, _, id, object) = rows_written version_id expected db r h in
    let (_, v, _, _, _, found, _, _, _, preparing, _, row, _) =
      commit_version-eq-ok version_id expected db h in
    (
      (
        v,
        found,
        ground arith,
        there,
        ground arith,
        ground arith,
        ground arith,
        ground arith,
        ground arith,
      ),
      (o, current o r.0, owner, object, refl, ap some id, refl),
    )

newer_than_expected :
    (e k : ℕ) (n : Option ℕ)
    → expected_matches (some e) n ≡ true
    → is_outdated k n ≡ false
    → 0 < k
    → e < k
newer_than_expected e k none h newer positive = ground arith
newer_than_expected e k (some c) h newer positive = ground arith

-- In a consistent database a commit that expects the current version `e` gives the object a
-- current version with a higher number.
pub commit_version_advances :
    (version_id e : ℕ) (db : Database) (r : Version × Database)
    → IsConsistent db
    → commit_version version_id (some (pos e)) db ≡ ok r
    → e < r.0.version_number
commit_version_advances version_id e db r c h =
    let (x, v, o, n, valid, found, owner, number, matches, preparing, newer, row, _) =
      commit_version-eq-ok version_id (some (pos e)) db h in
    let positive =
      All-find version_key (λ (w : Version). 0 < w.version_number) version_id db.versions
        c.versions.numbered found in
    let same : x ≡ some e = ground arith in ground (arith, newer_than_expected e v.version_number n)

-- A commit that comes late: `commit_version` where the object has moved past the expected version.
stale_commit :
    (version_id e k : ℕ) (o : Object) (v w : Version) (db : Database)
    → version_at version_id db ≡ some w
    → object_at w.object_id db ≡ some o
    → o.current_version_id ≡ some v.version_id
    → version_at v.version_id db ≡ some v
    → v.version_number ≡ k
    → e < k
    → commit_version version_id (some (pos e)) db
      ≡ err (vault (VaultError.version_conflict (some e) (some k)))
unfolding commit_version
stale_commit version_id e k o v w db found owner points there number newer = ground arith

-- In a consistent database, two writers that expect the same current version of one object: after the commit of the first,
-- the commit of the second, whichever version it prepared, raises VERSION_CONFLICT and reports the
-- version of the first as current. So no conditional update is lost.
pub commit_version_excludes :
    (first second e : ℕ) (db : Database) (r : Version × Database) (w : Version)
    → IsConsistent db
    → commit_version first (some (pos e)) db ≡ ok r
    → version_at second r.1 ≡ some w
    → w.object_id ≡ r.0.object_id
    → commit_version second (some (pos e)) r.1
      ≡ err (vault (VaultError.version_conflict (some e) (some r.0.version_number)))
commit_version_excludes first second e db r w c h found mine =
    let (o, _, there, _, id, object) = rows_written first (some (pos e)) db r h in
    stale_commit second e r.0.version_number (current o r.0) r.0 w r.1 found (rw mine object) refl
      (find_self version_key first r.1.versions there) refl
      (commit_version_advances first e db r c h)

-- A commit makes the object ACTIVE even if it was DELETED, from where the table of object
-- transitions allows none: a version prepared before a deletion brings the object back.
pub commit_version_revives :
    (version_id : ℕ) (expected : Option ℤ) (db : Database) (r : Version × Database) (o : Object)
    → commit_version version_id expected db ≡ ok r
    → object_at r.0.object_id db ≡ some o
    → o.state ≡ ObjectState.deleted
    → (o' : Object) × (object_at r.0.object_id r.1 ≡ some o')
      × (o'.state ≡ ObjectState.active)
      × (object_transition o.state o'.state ≡ false)
commit_version_revives version_id expected db r o h before deleted =
    let (x, _, _, _, _, object) = rows_written version_id expected db r h in
    (current x r.0, object, refl, ground arith)
