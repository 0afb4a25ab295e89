-- ===== src/Gateway/Cleared.antt =====
-- What a deletion leaves.
use ps.Prelude.{
  nat_beq_iff, Option-cases, absurd_eq, ℕ, ◌≡◌, ◌⊎◌, inl, inr, refl, Bool, true, false, some, List,
  [], ◌∷◌, ◌==◌, select, map, nat_eq, All, arith, Bool-cases, subst, ap, ◌∙◌,
}
use ps.Table.{find, save, key-find, find-save_self}
use ps.Common.Text.{Text}
use ps.Common.Constants.{ErrorCode, ObjectState, object_state_eq}
use ps.Common.Errors.{
  VaultError, Failure, Result, ok, err, vault, node_error, value_error, type_error, integrity_error,
}
use ps.Metadata.Models.{
  Object, Version, Replica, Database, object_key, node_at, object_at, version_at,
}
use ps.Metadata.Objects.{transition_object_state}
use ps.Metadata.Session.{>>=-returned, calling-returned, reading, raise_when, calling}
use ps.Maintenance.Clients.{ClientFactory}
use ps.Gateway.Reads.{get_object}
use ps.Gateway.Covered.{select-remove_each, Covered-select}
use ps.Gateway.Deletes.{
  Deleted, belongs_to, replicas_of_object, count_answer, delete_one, delete_each, remove_rows,
  begin_deletion, delete_live, delete_object,
}

count_answer-all :
    (i : ℕ) (answer : Result (Unit {0})) (rest : Result Deleted) {done : Deleted}
    → count_answer i answer rest ≡ ok done
    → done.failed ≡ false
    → (d : Deleted) × (rest ≡ ok d) × (d.failed ≡ false) × (done.replica_ids ≡ i ∷ d.replica_ids)
count_answer-all i answer (err e) h whole = cc
count_answer-all i (ok tt) (ok d) h whole = (d, refl, ground arith, ground arith)
count_answer-all i (err (node_error e)) (ok d) h whole = ground arith
count_answer-all i (err (vault e)) (ok d) h whole = cc
count_answer-all i (err value_error) (ok d) h whole = cc
count_answer-all i (err type_error) (ok d) h whole = cc
count_answer-all i (err integrity_error) (ok d) h whole = cc

module _ (clients : ClientFactory) (now object_id : ℕ) (db : Database) where
  delete_each-all :
      (rs : List Replica) {done : Deleted}
      → delete_each clients now object_id db rs ≡ ok done
      → done.failed ≡ false
      → done.replica_ids ≡ map (λ (r : Replica). r.replica_id) rs
  unfolding delete_each
  delete_each-all [] h none_failed = ground arith
  delete_each-all (r ∷ rs) {done} h none_failed =
      let (d, e, whole, ids) =
        count_answer-all r.replica_id (delete_one clients now object_id (node_at r.node_id db) r)
          (delete_each clients now object_id db rs) h none_failed in
      ids ∙ ap (λ (t : List ℕ). r.replica_id ∷ t) (delete_each-all rs e whole)

-- The row is of some version of the object, whatever the state of that version.
abbrev pub IsOf : ℕ → Database → Replica → Type 0
IsOf object_id d r =
    (v : Version) × (version_at r.version_id d ≡ some v) × (v.object_id ≡ object_id)

none-IsOf :
    (object_id : ℕ) (d : Database) (rs : List Replica)
    → select (belongs_to object_id d) rs ≡ []
    → All (λ (r : Replica). ¬ IsOf object_id d r) rs
none-IsOf object_id d [] h = tt
none-IsOf object_id d (r ∷ rs) h = elim (Bool-cases (belongs_to object_id d r)) [
  | inl kept ↦ let there : r ∷ select (belongs_to object_id d) rs ≡ [] = rw kept at h in cc
  | inr dropped ↦
      let rest : select (belongs_to object_id d) rs ≡ [] = rw dropped at h in
      (
        λ (v, found, owner).
            let kept : belongs_to object_id d r ≡ true =
              rw found ((nat_beq_iff v.object_id object_id).1 owner) in
            cc,
        none-IsOf object_id d rs rest,
      )
]

-- What an object has when its replicas are gone: no row is of one of its versions.
pub record IsCleared (o : Object) (d : Database) : Type 0 where
  pub state : (x : Object) × (object_at o.object_id d ≡ some x) × (x.state ≡ ObjectState.deleted)
  pub replicas : All (λ (r : Replica). ¬ IsOf o.object_id d r) d.replicas

transition-deleted :
    (i : ℕ) (db : Database) {x : Object} {d : Database}
    → transition_object_state i ObjectState.deleted db ≡ ok (x, d)
    → ((y : Object) × (object_at i d ≡ some y) × (y.state ≡ ObjectState.deleted))
      × (d.replicas ≡ db.replicas)
      × (d.versions ≡ db.versions)
unfolding transition_object_state
transition-deleted i db {x} {d} h = elim (Option-cases (object_at i db)) [
  | inl missing ↦ ground arith
  | inr (o, found) ↦ elim (Bool-cases (ObjectState.deleted == o.state)) [
    | inl same ↦
        let e : d ≡ db = ground arith in ((o, rw e found, ground arith), rw e refl, rw e refl)
    | inr other ↦
        let moved : Object = record o { state = ObjectState.deleted } in
        let e : d ≡ record db { objects = save object_key moved db.objects } = ground arith in
        let key : o.object_id ≡ i = key-find object_key i db.objects found in
        let there =
          find-save_self object_key moved db.objects (λ p. absurd_eq (rw key at p) found) in
        let here =
          subst (λ k. find object_key k (save object_key moved db.objects) ≡ some moved) key
            there in
        ((moved, rw e here, refl), rw e refl, rw e refl)
  ]
]

module _ (object_id : ℕ) (a b : Database) where
  same-replicas_of_object :
      b.versions ≡ a.versions
      → b.replicas ≡ a.replicas
      → replicas_of_object object_id b ≡ replicas_of_object object_id a
  unfolding replicas_of_object
  same-replicas_of_object versions replicas = rw (versions, replicas) refl

raise_when-returned :
    (c : Bool) (e : Failure) (db : Database) {u : Unit {0}} {d : Database}
    → raise_when c e db ≡ (ok u, d)
    → (c ≡ false) × (d ≡ db)
raise_when-returned true e db h = cc
raise_when-returned false e db h = (refl, ground arith)

module _ (clients : ClientFactory) (now : ℕ) where
  rows_removed :
      (object_id : ℕ) (db : Database) {done : Deleted}
      → delete_each clients now object_id db (replicas_of_object object_id db) ≡ ok done
      → done.failed ≡ false
      → replicas_of_object object_id (remove_rows done.replica_ids db) ≡ []
  unfolding replicas_of_object
  rows_removed object_id db {done} h whole =
      let ids =
        delete_each-all clients now object_id db (replicas_of_object object_id db) h whole in
      rw ids (
        select-remove_each (belongs_to object_id db)
          (map (λ (r : Replica). r.replica_id) (replicas_of_object object_id db)) db.replicas
          (Covered-select (belongs_to object_id db) db.replicas))

  delete_live-IsCleared :
      (o : Object) (db : Database) {ids : List ℕ} {d : Database}
      → delete_live clients now o db ≡ (ok ids, d)
      → IsCleared o d
  unfolding delete_live replicas_of_object
  delete_live-IsCleared o db {ids} {d} h =
      let (_, d1, _, deleting) = >>=-returned (begin_deletion o) _ db h in
      let (done, d2, answers, removing) =
        >>=-returned
          (reading (λ (x : Database).
            delete_each clients now o.object_id x (replicas_of_object o.object_id x)))
          _ d1 deleting in
      let (_, d3, whole, closing) =
        >>=-returned
          (raise_when done.failed (vault (VaultError.plain ErrorCode.node_unavailable 503))) _
          (remove_rows done.replica_ids d2) removing in
      let (none_failed, same) = raise_when-returned done.failed _ _ whole in
      let (x, d4, ended, out) =
        >>=-returned (calling (transition_object_state o.object_id ObjectState.deleted)) _ d3
          closing in
      let (state, replicas, versions) =
        transition-deleted o.object_id d3
          (calling-returned (transition_object_state o.object_id ObjectState.deleted) d3 ended) in
      let last : d4 ≡ d = ap (λ (r : Result (List ℕ) × Database). r.1) out in
      let unread : d1 ≡ d2 = ap (λ (r : Result Deleted × Database). r.1) answers in
      let asked = ap (λ (r : Result Deleted × Database). r.0) answers in
      let gone = rows_removed o.object_id d1 asked none_failed in
      let then_gone : replicas_of_object o.object_id d3 ≡ [] = rw (same, ← unread) gone in
      subst (IsCleared o) last (record {
        state = state;
        replicas =
            none-IsOf o.object_id d4 d4.replicas
              (same-replicas_of_object o.object_id d3 d4 versions replicas ∙ then_gone);
      })

-- A deletion that returns has left no replica row whose version, in whatever state, is one of the
-- object, whose state is DELETED; if the object was DELETED before, nothing has changed.
pub delete_object_clears :
    (clients : ClientFactory) (now : ℕ) (name : Text) (db : Database) (ids : List ℕ) (d : Database)
    → delete_object clients now name db ≡ (ok ids, d)
    → (o : Object) × (get_object name db ≡ ok o)
      × (((o.state ≡ ObjectState.deleted) × (d ≡ db)) ⊎ IsCleared o d)
unfolding delete_object
delete_object_clears clients now name db ids d h =
    let (o, c, read, rest) = >>=-returned (reading (get_object name)) _ db h in
    let found : get_object name db ≡ ok o = ap (λ (r : Result Object × Database). r.0) read in
    let unread : db ≡ c = ap (λ (r : Result Object × Database). r.1) read in
    (
      o,
      found,
      elim (Bool-cases (o.state == ObjectState.deleted)) [
        | inl gone ↦ inl (ground arith, ground arith)
        | inr live ↦ inr (delete_live-IsCleared clients now o c (rw live at rest))
      ],
    )
