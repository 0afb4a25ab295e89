-- ===== src/Metadata/Consistency/Objects.antt =====
-- The table of objects stays valid: the current version is the newest that is committed.
use ps.Prelude.{
  ℕ, ◌≤◌, ◌≡◌, ◌≢◌, refl, Option, none, some, List, All, All-weaken, nat_eq, text_eq, absurd_eq,
}
use ps.Table.{find, add, save, IsUnique-add, IsUnique-save, All-add, All-save}
use ps.Common.Constants.{VersionState}
use ps.Metadata.Models.{Object, Version, object_key, object_name, version_key}
use ps.Metadata.Checks.{number_or_zero}
use ps.Metadata.Versions.{Extends}
use ps.Metadata.Consistency.{ObjectsAreValid, VersionsAreValid, HasObject, IsLatest, PointsTo}

-- A committed version of the object has at most this number.
abbrev IsBelow : Object → Option ℕ → Version → Type 0
IsBelow o number w =
    w.object_id ≡ o.object_id
    → w.state ≡ VersionState.committed
    → w.version_number ≤ number_or_zero number

PointsTo-Extends :
    (vs ws : List Version) (o : Object) (c number : Option ℕ)
    → Extends vs ws
    → PointsTo vs o c number
    → PointsTo ws o c number
PointsTo-Extends vs ws o none number grown p = p
PointsTo-Extends vs ws o (some version_id) number grown (v, found, owner, done, same) =
    let (w, found', _, fixed) = grown.at version_id v found in
    (v, rw (fixed done) at found', owner, done, same)

-- A version that is no committed one of the object may be added.
pub IsLatest-add :
    (w : Version) (vs : List Version) (o : Object)
    → Extends vs (add w vs)
    → w.state ≢ VersionState.committed
    → IsLatest vs o
    → IsLatest (add w vs) o
IsLatest-add w vs o grown open_ (number, points, below) = (
  number,
  PointsTo-Extends vs (add w vs) o o.current_version_id number grown points,
  All-add (IsBelow o number) w vs (λ _ done. absurd (open_ done)) below,
)

-- Or saved.
pub IsLatest-save :
    (w : Version) (vs : List Version) (o : Object)
    → Extends vs (save version_key w vs)
    → (w.object_id ≡ o.object_id → w.state ≡ VersionState.committed → ⊥)
    → IsLatest vs o
    → IsLatest (save version_key w vs) o
IsLatest-save w vs o grown apart (number, points, below) = (
  number,
  PointsTo-Extends vs (save version_key w vs) o o.current_version_id number grown points,
  All-save version_key (IsBelow o number) w vs (λ mine done. absurd (apart mine done)) below,
)

pub ObjectsAreValid-versions :
    (vs ws : List Version) (objects : List Object)
    → ((o : Object) → IsLatest vs o → IsLatest ws o)
    → ObjectsAreValid vs objects
    → ObjectsAreValid ws objects
ObjectsAreValid-versions vs ws objects f valid = record {
  key = valid.key;
  name = valid.name;
  latest = All-weaken (IsLatest vs) (IsLatest ws) objects valid.latest f;
}

-- No version belongs to an object that is not there yet.
no_versions_yet :
    (o : Object) (objects : List Object) (vs : List Version)
    → find object_key o.object_id objects ≡ none
    → All (HasObject objects) vs
    → All (IsBelow o none) vs
no_versions_yet o objects vs new owned =
    All-weaken (HasObject objects) (IsBelow o none) vs owned
      (λ w (owner, found) mine done. absurd (absurd_eq new (rw mine at found)))

pub ObjectsAreValid-add :
    (o : Object) (objects : List Object) (vs : List Version)
    → ObjectsAreValid vs objects
    → VersionsAreValid objects vs
    → find object_key o.object_id objects ≡ none
    → find object_name o.name objects ≡ none
    → o.current_version_id ≡ none
    → ObjectsAreValid vs (add o objects)
ObjectsAreValid-add o objects vs valid versions new_id new_name empty = record {
  key = IsUnique-add object_key o objects new_id valid.key;
  name = IsUnique-add object_name o objects new_name valid.name;
  latest =
      All-add (IsLatest vs) o objects
        (none, rw empty refl, no_versions_yet o objects vs new_id versions.owned) valid.latest;
}

-- A row that is saved with its name and its current version.
pub ObjectsAreValid-save :
    (o : Object) (objects : List Object) (vs : List Version) {old : Object}
    → ObjectsAreValid vs objects
    → find object_key o.object_id objects ≡ some old
    → o.object_id ≡ old.object_id
    → o.name ≡ old.name
    → IsLatest vs o
    → ObjectsAreValid vs (save object_key o objects)
ObjectsAreValid-save o objects vs valid found same_id same_name latest = record {
  key = IsUnique-save object_key object_key o objects found same_id valid.key;
  name = IsUnique-save object_key object_name o objects found same_name valid.name;
  latest = All-save object_key (IsLatest vs) o objects latest valid.latest;
}
