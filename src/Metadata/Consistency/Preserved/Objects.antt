-- ===== src/Metadata/Consistency/Preserved/Objects.antt =====
-- The operations on objects and versions keep the invariant.
use ps.Prelude.{ℕ, ℤ, ◌≡◌, refl, sym, ◌∙◌, Option, some, inl, inr, nat_eq, text_eq, pair_eq}
use ps.Table.{find, find_self, All-find, Grows-refl, Grows-add, Grows-save}
use ps.Common.Text.{Text}
use ps.Common.Constants.{ObjectState, VersionState}
use ps.Common.Errors.{ok}
use ps.Metadata.Models.{Object, Version, Database, object_key, version_key, node_key}
use ps.Metadata.Objects
use ps.Metadata.Objects.Outcomes.{
  create_object-eq-ok, create_version-eq-ok, commit_version-eq-ok, transition_object_state-eq-ok,
  fail_version-eq-ok,
}
use ps.Metadata.Versions.{Extends-add}
use ps.Metadata.Versions.History.{commit_version-Extends, fail_version-Extends}
use ps.Metadata.Consistency.{IsConsistent, IsLatest, HasObject}
use ps.Metadata.Consistency.Versions.{
  VersionsAreValid-add, VersionsAreValid-save, VersionsAreValid-grow,
}
use ps.Metadata.Consistency.Objects.{
  ObjectsAreValid-add, ObjectsAreValid-save, ObjectsAreValid-versions, IsLatest-add, IsLatest-save,
}
use ps.Metadata.Consistency.Commit.{ObjectsAreValid-commit}
use ps.Metadata.Consistency.Replicas.{ReplicasAreValid-grow}

pub create_object-IsConsistent :
    (name : Text) (db : Database) (r : Object × Database)
    → Objects.create_object name db ≡ ok r
    → IsConsistent db
    → IsConsistent r.1
create_object-IsConsistent name db r h c =
    let (new_id, new_name, _, empty, _, e) = create_object-eq-ok name db h in
    rw e (record {
      objects =
          ObjectsAreValid-add r.0 db.objects db.versions c.objects c.versions new_id new_name empty;
      versions =
          VersionsAreValid-grow db.objects _ db.versions (Grows-add object_key r.0 db.objects)
            c.versions;
      nodes = c.nodes;
      replicas = c.replicas;
    })

pub create_version-IsConsistent :
    (object_id : ℕ) (size : ℤ) (checksum : Text) (expected : Option ℤ) (db : Database)
    (r : Version × Database)
    → Objects.create_version object_id size checksum expected db ≡ ok r
    → IsConsistent db
    → IsConsistent r.1
create_version-IsConsistent object_id size checksum expected db r h c =
    let (obj, found, _, new_id, owner, next, preparing, e) =
      create_version-eq-ok object_id size checksum expected db h in
    let grown = Extends-add r.0 db.versions in
    rw e (record {
      objects =
          ObjectsAreValid-versions db.versions _ db.objects
            (λ o. IsLatest-add r.0 db.versions o grown (λ done. cc (sym preparing ∙ done)))
            c.objects;
      versions =
          VersionsAreValid-add r.0 db.objects db.versions c.versions new_id (rw owner next)
            (obj, rw owner found);
      nodes = c.nodes;
      replicas =
          ReplicasAreValid-grow db.versions _ db.nodes db.nodes db.replicas grown
            (Grows-refl node_key db.nodes) c.replicas;
    })

pub fail_version-IsConsistent :
    (version_id : ℕ) (db : Database) (r : Version × Database)
    → Objects.fail_version version_id db ≡ ok r
    → IsConsistent db
    → IsConsistent r.1
fail_version-IsConsistent version_id db r h c =
    let (v, found, open_, e) = fail_version-eq-ok version_id db h in
    let here : find version_key v.version_id db.versions ≡ some v =
      find_self version_key version_id db.versions found in
    let grown = fail_version-Extends version_id db r h in
    let w : Version = record v { state = VersionState.failed } in
    rw e (record {
      objects =
          ObjectsAreValid-versions db.versions _ db.objects
            (λ o. IsLatest-save w db.versions o (rw e at grown) (λ _ done. cc)) c.objects;
      versions =
          VersionsAreValid-save w db.objects db.versions c.versions here refl
            (record { object_id = refl; version_number = refl; size_bytes = refl; checksum = refl })
            (All-find version_key _ v.version_id db.versions c.versions.numbered here)
            (All-find version_key (HasObject db.objects) v.version_id db.versions c.versions.owned
              here);
      nodes = c.nodes;
      replicas =
          ReplicasAreValid-grow db.versions _ db.nodes db.nodes db.replicas (rw e at grown)
            (Grows-refl node_key db.nodes) c.replicas;
    })

pub commit_version-IsConsistent :
    (version_id : ℕ) (expected : Option ℤ) (db : Database) (r : Version × Database)
    → Objects.commit_version version_id expected db ≡ ok r
    → IsConsistent db
    → IsConsistent r.1
commit_version-IsConsistent version_id expected db r h c =
    let (_, v, o, n, _, found, owner, number, _, preparing, newer, _, e) =
      commit_version-eq-ok version_id expected db h in
    let here : find version_key v.version_id db.versions ≡ some v =
      find_self version_key version_id db.versions found in
    let grown = commit_version-Extends version_id expected db r h in
    let w : Version = Objects.committed v db in
    rw e (record {
      objects =
          ObjectsAreValid-commit v o n db here owner number preparing newer (rw e at grown)
            c.objects;
      versions =
          VersionsAreValid-grow db.objects _ _
            (Grows-save object_key (Objects.current o v) db.objects)
            (VersionsAreValid-save w db.objects db.versions c.versions here refl
              (record {
                object_id = refl;
                version_number = refl;
                size_bytes = refl;
                checksum = refl;
              })
              (All-find version_key _ v.version_id db.versions c.versions.numbered here)
              (o, owner));
      nodes = c.nodes;
      replicas =
          ReplicasAreValid-grow db.versions _ db.nodes db.nodes db.replicas (rw e at grown)
            (Grows-refl node_key db.nodes) c.replicas;
    })

pub transition_object_state-IsConsistent :
    (object_id : ℕ) (wanted : ObjectState) (db : Database) (r : Object × Database)
    → Objects.transition_object_state object_id wanted db ≡ ok r
    → IsConsistent db
    → IsConsistent r.1
transition_object_state-IsConsistent object_id wanted db r h c =
    let (o, found, outcome) = transition_object_state-eq-ok object_id wanted db h in
    let here : find object_key o.object_id db.objects ≡ some o =
      find_self object_key object_id db.objects found in
    let latest =
      All-find object_key (IsLatest db.versions) o.object_id db.objects c.objects.latest here in
    let w : Object = record o { state = wanted } in
    elim outcome [
      | inl e ↦ rw e c
      | inr (_, e) ↦ rw e (record {
        objects = ObjectsAreValid-save w db.objects db.versions c.objects here refl refl latest;
        versions =
            VersionsAreValid-grow db.objects _ db.versions (Grows-save object_key w db.objects)
              c.versions;
        nodes = c.nodes;
        replicas = c.replicas;
      })
    ]
