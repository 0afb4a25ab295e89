-- ===== src/Metadata/Consistency/Versions.antt =====
-- The table of versions stays valid.
use ps.Prelude.{
  ℕ, ◌+◌, ◌≤◌, ◌<◌, ◌≡◌, refl, Option, none, some, List, [], ◌∷◌, All-weaken, arith, nat_eq,
  pair_eq,
}
use ps.Table.{find, add, save, IsUnique-add, IsUnique-save, All-add, All-save, Grows}
use ps.Metadata.Models.{Object, Version, version_key, object_key}
use ps.Metadata.Objects.{max_version_number}
use ps.Metadata.Versions.{SameContent}
use ps.Metadata.Consistency.{VersionsAreValid, HasObject, version_slot}

abbrev IsNumbered : Version → Type 0
IsNumbered v = 0 < v.version_number

-- Every number of an object's versions is at most `max_version_number`.
pub number-le-max_version_number :
    (object_id n : ℕ) (versions : List Version) {v : Version}
    → find version_slot (object_id, n) versions ≡ some v
    → n ≤ max_version_number object_id versions
unfolding find max_version_number
number-le-max_version_number object_id n [] h = cc
number-le-max_version_number object_id n (x ∷ versions) {v} h =
    ground (arith, number-le-max_version_number object_id n versions {v = v})

next_version_is_free :
    (object_id n : ℕ) (versions : List Version)
    → n ≡ max_version_number object_id versions + 1
    → find version_slot (object_id, n) versions ≡ none
next_version_is_free object_id n versions e = go (find version_slot (object_id, n) versions) refl
  where
    go : (o : Option Version) → find version_slot (object_id, n) versions ≡ o → o ≡ none
    go none h = refl
    go (some v) h = absurd (omega (arith, number-le-max_version_number object_id n versions h))

pub VersionsAreValid-add :
    (v : Version) (objects : List Object) (versions : List Version)
    → VersionsAreValid objects versions
    → find version_key v.version_id versions ≡ none
    → v.version_number ≡ max_version_number v.object_id versions + 1
    → HasObject objects v
    → VersionsAreValid objects (add v versions)
VersionsAreValid-add v objects versions valid new_id next owned = record {
  key = IsUnique-add version_key v versions new_id valid.key;
  slot =
      IsUnique-add version_slot v versions
        (next_version_is_free v.object_id v.version_number versions next) valid.slot;
  numbered = All-add IsNumbered v versions (omega arith) valid.numbered;
  owned = All-add (HasObject objects) v versions owned valid.owned;
}

pub VersionsAreValid-save :
    (w : Version) (objects : List Object) (versions : List Version) {v : Version}
    → VersionsAreValid objects versions
    → find version_key w.version_id versions ≡ some v
    → w.version_id ≡ v.version_id
    → SameContent v w
    → 0 < v.version_number
    → HasObject objects v
    → VersionsAreValid objects (save version_key w versions)
VersionsAreValid-save w objects versions {v} valid found same_id same numbered owned = record {
  key = IsUnique-save version_key version_key w versions found same_id valid.key;
  slot =
      IsUnique-save version_key version_slot w versions found
        (λ i. (same.object_id i, same.version_number i)) valid.slot;
  numbered =
      All-save version_key IsNumbered w versions (rw same.version_number numbered) valid.numbered;
  owned = All-save version_key (HasObject objects) w versions (rw same.object_id owned) valid.owned;
}

pub VersionsAreValid-grow :
    (objects more : List Object) (versions : List Version)
    → Grows object_key objects more
    → VersionsAreValid objects versions
    → VersionsAreValid more versions
VersionsAreValid-grow objects more versions grown valid = record {
  key = valid.key;
  slot = valid.slot;
  numbered = valid.numbered;
  owned =
      All-weaken (HasObject objects) (HasObject more) versions valid.owned
        (λ v (o, found). grown v.object_id o found);
}
