-- ===== src/Metadata/Lifecycle.antt =====
-- Replicas over time: what no request can undo.
pub mod Failed
use mathlib.Core.Option.{some-injective}
use ps.Prelude.{
  ◌≡◌, ◌≢◌, refl, sym, ap, ◌∙◌, ℕ, true, false, not, Bool, Option, none, some, List, [], ◌∷◌, arith,
  inl, inr, ◌==◌, if◌then◌else◌, any, select, Bool-cases, nat_eq, nat_beq_iff, absurd_eq,
  some_unique,
}
use ps.Table.{
  find, add, save, remove, update_where, find-add_old, find-save_ne, find-remove, key-find,
}
use ps.Common.Constants.{ReplicaState, replica_state_eq}
use ps.Metadata.Models.{Replica, replica_key}
use ps.Metadata.Checks.{mem}
use ps.Metadata.Replicas.{replica_transition, with_status, is_refused, is_removable}

-- The rows of FAILED replicas of the first table stand in the second as they were.
pub record KeepsFailed (rs ss : List Replica) : Type 0 where
  pub at :
      (id : ℕ) (r : Replica)
      → find replica_key id rs ≡ some r
      → r.status ≡ ReplicaState.failed
      → find replica_key id ss ≡ some r

pub KeepsFailed-refl : (rs : List Replica) → KeepsFailed rs rs
KeepsFailed-refl rs = record { at = λ id r h f. h }

pub KeepsFailed-trans :
    (rs ss ts : List Replica) → KeepsFailed rs ss → KeepsFailed ss ts → KeepsFailed rs ts
KeepsFailed-trans rs ss ts p q = record { at = λ id r h f. q.at id r (p.at id r h f) f }

pub KeepsFailed-add : (x : Replica) (rs : List Replica) → KeepsFailed rs (add x rs)
KeepsFailed-add x rs = record { at = λ id r h f. find-add_old replica_key id x rs h }

pub KeepsFailed-save :
    (w : Replica) (rs : List Replica) {x : Replica}
    → find replica_key w.replica_id rs ≡ some x
    → x.status ≢ ReplicaState.failed
    → KeepsFailed rs (save replica_key w rs)
KeepsFailed-save w rs {x} found alive = record {
  at = λ id r h f. elim (Bool-cases (w.replica_id == id)) [
    | inl hit ↦
        let e : w.replica_id ≡ id = (nat_beq_iff w.replica_id id).0 hit in
        absurd (ground (arith, alive))
    | inr miss ↦ find-save_ne replica_key id w rs (λ e. cc ((nat_beq_iff w.replica_id id).1 e)) ∙ h
  ];
}

pub KeepsFailed-remove :
    (k : ℕ) (rs : List Replica) {x : Replica}
    → find replica_key k rs ≡ some x
    → is_removable x.status ≡ true
    → KeepsFailed rs (remove replica_key k rs)
KeepsFailed-remove k rs {x} found removable = record {
  at = λ id r h f. ground (arith, find-remove replica_key id k rs, nat_beq_iff k id);
}

-- One row that the batch update may meet.
with_status_failed :
    (wanted : ReplicaState) (r : Replica)
    → is_refused wanted r ≡ false
    → r.status ≡ ReplicaState.failed
    → with_status wanted r ≡ r
with_status_failed wanted r h f = ground arith

with_status_at :
    (c : Bool) (wanted : ReplicaState) (r : Replica)
    → replica_key (if c then with_status wanted r else r) ≡ replica_key r
with_status_at true wanted r = refl
with_status_at false wanted r = refl

-- `find` one row further, where the row in front may have been rewritten.
find-front :
    (c : Bool) (wanted : ReplicaState) (id : ℕ) (x r : Replica) (rs ss : List Replica)
    → (c ≡ true → is_refused wanted x ≡ false)
    → find replica_key id (x ∷ rs) ≡ some r
    → r.status ≡ ReplicaState.failed
    → (find replica_key id rs ≡ some r → find replica_key id ss ≡ some r)
    → find replica_key id ((if c then with_status wanted x else x) ∷ ss) ≡ some r
unfolding find
find-front true wanted id x r rs ss fine found f rest = elim (Bool-cases (x.replica_id == id)) [
  | inl hit ↦
      let e : x ≡ r = some-injective x r (rw hit at found) in
      rw hit (
        ap some
          (with_status_failed wanted x (fine refl) (ap (λ (y : Replica). y.status) e ∙ f) ∙ e))
  | inr miss ↦ rw miss (rest (rw miss at found))
]
find-front false wanted id x r rs ss fine found f rest = elim (Bool-cases (x.replica_id == id)) [
  | inl hit ↦ rw hit (rw hit at found)
  | inr miss ↦ rw miss (rest (rw miss at found))
]

pub KeepsFailed-update :
    (ids : List ℕ) (wanted : ReplicaState) (rs : List Replica)
    → any (is_refused wanted) (select (λ (x : Replica). mem x.replica_id ids) rs) ≡ false
    → (id : ℕ) (r : Replica) → find replica_key id rs ≡ some r
    → r.status ≡ ReplicaState.failed
    → find replica_key id
        (update_where (λ (x : Replica). mem x.replica_id ids) (with_status wanted) rs)
      ≡ some r
unfolding update_where
KeepsFailed-update ids wanted [] h id r found f = found
KeepsFailed-update ids wanted (x ∷ rs) h id r found f =
    find-front (mem x.replica_id ids) wanted id x r rs
      (update_where (λ (y : Replica). mem y.replica_id ids) (with_status wanted) rs)
      (λ hit. ground arith) found f
      (λ there. KeepsFailed-update ids wanted rs (ground arith) id r there f)
