-- ===== src/Metadata/Consistency/Commit.antt =====
-- A commit keeps the invariant: the version that becomes current is newer than the one before.
use ps.Prelude.{
  ℕ, ◌≤◌, ◌≡◌, ◌≢◌, refl, sym, ◌∙◌, Option, none, some, List, All-weaken, arith, false, nat_eq,
  text_eq, absurd_eq,
}
use ps.Table.{
  find, save, IsUnique-save, All-save, All-save_unique, All-find, find-save_self, find_self,
  key-find,
}
use ps.Common.Constants.{VersionState}
use ps.Common.Errors.{ok}
use ps.Metadata.Models.{Object, Version, Database, object_key, object_name, version_key}
use ps.Metadata.Checks.{number_or_zero}
use ps.Metadata.Objects.{current_version_number, is_outdated, committed, current}
use ps.Metadata.Versions.{Extends}
use ps.Metadata.Consistency.{ObjectsAreValid, IsLatest, PointsTo}
use ps.Metadata.Consistency.Objects.{IsLatest-save}

-- The number that `current_version_number` returns is the one of the invariant.
current_number_points :
    (o : Object) (c n number : Option ℕ) (db : Database)
    → o.current_version_id ≡ c
    → current_version_number o db ≡ ok n
    → PointsTo db.versions o c number
    → n ≡ number
current_number_points o none n number db e h points = ground arith
current_number_points o (some version_id) n number db e h (v, found, _, _, same) = ground arith

below_new : (m k : ℕ) (n : Option ℕ) → is_outdated k n ≡ false → m ≤ number_or_zero n → m ≤ k
below_new m k none h below = omega arith
below_new m k (some c) h below = ground arith

module _ (v : Version) (o : Object) (n : Option ℕ) (db : Database)
    (found : find version_key v.version_id db.versions ≡ some v)
    (owner : find object_key v.object_id db.objects ≡ some o)
    (number : current_version_number o db ≡ ok n) (preparing : v.state ≡ VersionState.preparing)
    (newer : is_outdated v.version_number n ≡ false)
    (grown : Extends db.versions (save version_key (committed v db) db.versions)) where
  after : List Version
  after = save version_key (committed v db) db.versions

  found_after : find version_key v.version_id after ≡ some (committed v db)
  unfolding after
  found_after =
      find-save_self version_key (committed v db) db.versions (λ e. absurd (absurd_eq e found))

  owner_id : o.object_id ≡ v.object_id
  owner_id = key-find object_key v.object_id db.objects owner

  IsLatest-current : IsLatest db.versions o → IsLatest after (current o v)
  unfolding after
  IsLatest-current (number', points, below) =
      let same : n ≡ number' =
        current_number_points o o.current_version_id n number' db refl number points in
      (
        some v.version_number,
        (committed v db, found_after, sym owner_id, refl, refl),
        All-save version_key
            (λ (w : Version).
              w.object_id ≡ o.object_id
              → w.state ≡ VersionState.committed
              → w.version_number ≤ v.version_number)
            (committed v db) db.versions (λ _ _. omega arith)
            (All-weaken
              (λ (w : Version).
                w.object_id ≡ o.object_id
                → w.state ≡ VersionState.committed
                → w.version_number ≤ number_or_zero number')
              (λ (w : Version).
                w.object_id ≡ o.object_id
                → w.state ≡ VersionState.committed
                → w.version_number ≤ v.version_number)
              db.versions below
              (λ w old mine done.
                below_new w.version_number v.version_number n newer (rw same (old mine done)))),
      )

  -- The commit of a version of another object changes nothing for `x`.
  IsLatest-other :
      (x : Object) → IsLatest db.versions x → x.object_id ≢ o.object_id → IsLatest after x
  unfolding after
  IsLatest-other x latest other =
      IsLatest-save (committed v db) db.versions x grown (λ mine _. other (sym mine ∙ sym owner_id))
        latest

  pub ObjectsAreValid-commit :
      ObjectsAreValid db.versions db.objects
      → ObjectsAreValid
          (save version_key (committed v db) db.versions)
          (save object_key (current o v) db.objects)
  unfolding after
  ObjectsAreValid-commit valid =
      let here : find object_key o.object_id db.objects ≡ some o =
        find_self object_key v.object_id db.objects owner in
      record {
        key = IsUnique-save object_key object_key (current o v) db.objects here refl valid.key;
        name = IsUnique-save object_key object_name (current o v) db.objects here refl valid.name;
        latest =
            All-save_unique object_key (IsLatest db.versions) (IsLatest after) (current o v)
              db.objects valid.key valid.latest
              (IsLatest-current (
                All-find object_key (IsLatest db.versions) o.object_id db.objects valid.latest
                  here))
              IsLatest-other;
      }
