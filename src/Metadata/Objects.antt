-- ===== src/Metadata/Objects.antt =====
-- metadata/manager.py: objects and their versions.
pub mod Outcomes
use ps.Prelude.{
  ℕ, ℤ, ◌+◌, max, Bool, false, not, Option, none, some, List, [], ◌∷◌, ◌==◌, if◌then◌else◌, is_some,
  leb, nat_eq, text_eq,
}
use ps.Table.{find, save}
use ps.Common.Text.{Text}
use ps.Common.Constants.{
  ObjectState, VersionState, object_transition, object_state_eq, version_state_eq,
}
use ps.Common.Errors.{VaultError, Result, ok, err, vault, raise_if, or_raise, ◌>>◌, ◌>>=◌}
use ps.Common.Validation.{normalize_object_name}
use ps.Metadata.Models.{
  Object, Version, Database, object_key, object_name, version_key, object_at, version_at,
}
use ps.Metadata.Checks.{
  non_negative, validate_checksum, validate_expected_version, expected_matches, flush_new,
}

unfoldable pub get_object : Text → Database → Result (Option Object)
get_object name db = do
  normalized_name ← normalize_object_name name
  ok (find object_name normalized_name db.objects)

unfoldable pub get_object_or_raise : Text → Database → Result Object
unfolding get_object
get_object_or_raise name db = do
  found ← get_object name db
  or_raise found (vault VaultError.not_found)

unfoldable pub create_object : Text → Database → Result (Object × Database)
create_object name db = do
  normalized_name ← normalize_object_name name
  raise_if (is_some (find object_name normalized_name db.objects)) (vault VaultError.already_exists)
  let obj : Object = record {
    object_id = db.uuids db.drawn;
    name = normalized_name;
    current_version_id = none;
    state = ObjectState.active;
  }
  objects ← flush_new object_key obj db.objects
  ok (obj, record db { objects = objects; drawn = db.drawn + 1 })

abbrev pub lock_object : ℕ → Database → Result Object
lock_object object_id db = or_raise (object_at object_id db) (vault VaultError.not_found)

abbrev pub current_version_number : Object → Database → Result (Option ℕ)
current_version_number obj db = elim obj.current_version_id [
  | none ↦ ok none
  | some version_id ↦ elim (version_at version_id db) [
    | none ↦ err (vault VaultError.invalid_state)
    | some current ↦ ok (some current.version_number)
  ]
]

-- `int(max_version or 0)` for the versions of one object.
unfoldable pub max_version_number : ℕ → List Version → ℕ
max_version_number object_id [] = 0
max_version_number object_id (v ∷ vs) =
    let rest = max_version_number object_id vs in
    if v.object_id == object_id then max v.version_number rest else rest

unfoldable pub create_version : ℕ → ℤ → Text → Option ℤ → Database → Result (Version × Database)
create_version object_id size_bytes checksum expected_current_version db = do
  size ← non_negative size_bytes
  normalized_checksum ← validate_checksum checksum
  expected ← validate_expected_version expected_current_version
  obj ← lock_object object_id db
  raise_if (not (obj.state == ObjectState.active)) (vault VaultError.invalid_state)
  current_number ← current_version_number obj db
  raise_if (not (expected_matches expected current_number))
      (vault (VaultError.version_conflict expected current_number))
  let version : Version = record {
    version_id = db.uuids db.drawn;
    object_id = object_id;
    version_number = max_version_number object_id db.versions + 1;
    size_bytes = size;
    checksum = normalized_checksum;
    state = VersionState.preparing;
    committed_at = none;
  }
  versions ← flush_new version_key version db.versions
  ok (version, record db { versions = versions; drawn = db.drawn + 1 })

-- `current_number is not None and version_number <= current_number`
abbrev pub is_outdated : ℕ → Option ℕ → Bool
is_outdated version_number none = false
is_outdated version_number (some current_number) = leb version_number current_number

-- The rows that `commit_version` writes.
abbrev pub committed : Version → Database → Version
committed version db = record version {
  state = VersionState.committed;
  committed_at = some (db.times db.times_read);
}

abbrev pub current : Object → Version → Object
current obj version = record obj {
  current_version_id = some version.version_id;
  state = ObjectState.active;
}

unfoldable pub commit_version : ℕ → Option ℤ → Database → Result (Version × Database)
commit_version version_id expected_current_version db = do
  expected ← validate_expected_version expected_current_version
  version ← or_raise (version_at version_id db) (vault VaultError.not_found)
  obj ← lock_object version.object_id db
  current_number ← current_version_number obj db
  raise_if (not (expected_matches expected current_number))
      (vault (VaultError.version_conflict expected current_number))
  raise_if (not (version.state == VersionState.preparing)) (vault VaultError.invalid_state)
  raise_if (is_outdated version.version_number current_number)
      (vault (VaultError.version_conflict (some version.version_number) current_number))
  let new_version = committed version db
  ok (
    new_version,
    record db {
      versions = save version_key new_version db.versions;
      objects = save object_key (current obj version) db.objects;
      times_read = db.times_read + 1;
    },
  )

unfoldable pub transition_object_state : ℕ → ObjectState → Database → Result (Object × Database)
transition_object_state object_id state db = do
  obj ← lock_object object_id db
  if state == obj.state then ok (obj, db) else do
    raise_if (not (object_transition obj.state state)) (vault VaultError.invalid_state)
    let moved = record obj { state = state }
    ok (moved, record db { objects = save object_key moved db.objects })

unfoldable pub fail_version : ℕ → Database → Result (Version × Database)
fail_version version_id db = do
  version ← or_raise (version_at version_id db) (vault VaultError.not_found)
  raise_if (version.state == VersionState.committed) (vault VaultError.invalid_state)
  let failed = record version { state = VersionState.failed }
  ok (failed, record db { versions = save version_key failed db.versions })
