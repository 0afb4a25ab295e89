-- ===== src/Metadata/Objects/Outcomes.antt =====
-- What an operation on objects and versions has found and written when it returns.
use ps.Prelude.{ℕ, ℤ, ◌+◌, ◌≡◌, ◌≢◌, ◌⊎◌, true, false, Option, none, some, arith, nat_eq, text_eq}
use ps.Table.{find, add, save}
use ps.Common.Text.{Text}
use ps.Common.Constants.{ObjectState, VersionState, object_transition}
use ps.Common.Validation.{normalize_object_name}
use ps.Common.Errors.{ok}
use ps.Metadata.Models.{
  Object, Version, Database, object_key, object_name, version_key, object_at, version_at,
}
use ps.Metadata.Checks.{expected_matches, validate_expected_version}
use ps.Metadata.Objects.{
  create_object, create_version, commit_version, transition_object_state, fail_version,
  current_version_number, max_version_number, is_outdated, committed, current,
}

pub fail_version-eq-ok :
    (version_id : ℕ) (db : Database) {r : Version × Database}
    → fail_version version_id db ≡ ok r
    → (v : Version) × (version_at version_id db ≡ some v)
      × (v.state ≢ VersionState.committed)
      × (r ≡ (
        record v { state = VersionState.failed },
        record db {
          versions = save version_key (record v { state = VersionState.failed }) db.versions;
        },
      ))
unfolding fail_version
fail_version-eq-ok version_id db h = ground arith

pub transition_object_state-eq-ok :
    (object_id : ℕ) (state : ObjectState) (db : Database) {r : Object × Database}
    → transition_object_state object_id state db ≡ ok r
    → (obj : Object) × (object_at object_id db ≡ some obj)
      × ((r ≡ (obj, db))
          ⊎ ((object_transition obj.state state ≡ true)
              × (r ≡ (
                record obj { state = state },
                record db { objects = save object_key (record obj { state = state }) db.objects },
              ))))
unfolding transition_object_state
transition_object_state-eq-ok object_id state db h = ground arith

pub create_object-eq-ok :
    (name : Text) (db : Database) {r : Object × Database}
    → create_object name db ≡ ok r
    → (find object_key r.0.object_id db.objects ≡ none)
      × (find object_name r.0.name db.objects ≡ none)
      × (normalize_object_name name ≡ ok r.0.name)
      × (r.0.current_version_id ≡ none)
      × (r.0.state ≡ ObjectState.active)
      × (r.1 ≡ record db { objects = add r.0 db.objects; drawn = db.drawn + 1 })
unfolding create_object
create_object-eq-ok name db h = ground arith

pub create_version-eq-ok :
    (object_id : ℕ) (size : ℤ) (checksum : Text) (expected : Option ℤ) (db : Database)
    {r : Version × Database}
    → create_version object_id size checksum expected db ≡ ok r
    → (obj : Object) × (object_at object_id db ≡ some obj)
      × (obj.state ≡ ObjectState.active)
      × (find version_key r.0.version_id db.versions ≡ none)
      × (r.0.object_id ≡ object_id)
      × (r.0.version_number ≡ max_version_number object_id db.versions + 1)
      × (r.0.state ≡ VersionState.preparing)
      × (r.1 ≡ record db { versions = add r.0 db.versions; drawn = db.drawn + 1 })
unfolding create_version
create_version-eq-ok object_id size checksum expected db h = ground arith

pub commit_version-eq-ok :
    (version_id : ℕ) (expected : Option ℤ) (db : Database) {r : Version × Database}
    → commit_version version_id expected db ≡ ok r
    → (e : Option ℕ) × (v : Version) × (o : Object) × (n : Option ℕ) × (validate_expected_version
          expected
        ≡ ok e)
      × (version_at version_id db ≡ some v)
      × (object_at v.object_id db ≡ some o)
      × (current_version_number o db ≡ ok n)
      × (expected_matches e n ≡ true)
      × (v.state ≡ VersionState.preparing)
      × (is_outdated v.version_number n ≡ false)
      × (r.0 ≡ committed v db)
      × (r.1 ≡ record db {
        versions = save version_key (committed v db) db.versions;
        objects = save object_key (current o v) db.objects;
        times_read = db.times_read + 1;
      })
unfolding commit_version
commit_version-eq-ok version_id expected db h = ground arith
