-- ===== src/Replication/Counts.antt =====
-- The number of HEALTHY replicas of a version, while the results of its writes are recorded.
use ps.Prelude.{
  ℕ, ℤ, suc, ◌≤◌, ◌≡◌, ◌≢◌, refl, sym, ap, ◌∙◌, none, some, List, [], ◌∷◌, arith, ◌==◌, nat_eq,
  nat_beq_iff, Bool-cases, inl, inr, some_unique, absurd_eq,
}
use ps.Table.{find, add, save, remove, IsUnique, find_self, find-save_self, find-save_ne}
use ps.Common.Text.{Text}
use ps.Common.Constants.{ReplicaState, replica_state_eq}
use ps.Common.Errors.{ok}
use ps.Metadata.Models.{Replica, Database, replica_key}
use ps.Metadata.Replicas.{set_replica_state, mark_replica_healthy, with_status}
use ps.Metadata.Replicas.Outcomes.{set_replica_state-eq-ok, mark_replica_healthy-eq-ok}
use ps.Metadata.Session.{calling, Keeps, Keeps-calling}
use ps.Replication.Commit.{healthy_replica_count}

pub count-save_healthy :
    (v : ℕ) (w : Replica) (rs : List Replica) {x : Replica}
    → find replica_key w.replica_id rs ≡ some x
    → x.status ≢ ReplicaState.healthy
    → w.version_id ≡ v
    → w.status ≡ ReplicaState.healthy
    → healthy_replica_count v (save replica_key w rs) ≡ suc (healthy_replica_count v rs)
unfolding healthy_replica_count find save
count-save_healthy v w [] found ill mine well = cc
count-save_healthy v w (y ∷ rs) {x} found ill mine well =
    elim (Bool-cases (y.replica_id == w.replica_id)) [
      | inl hit ↦ ground (arith, ill)
      | inr miss ↦
          ground (arith, count-save_healthy v w rs {x = x} (rw miss at found) ill mine well)
    ]

pub count-save_ill :
    (v : ℕ) (w : Replica) (rs : List Replica) {x : Replica}
    → find replica_key w.replica_id rs ≡ some x
    → x.status ≢ ReplicaState.healthy
    → w.status ≢ ReplicaState.healthy
    → healthy_replica_count v (save replica_key w rs) ≡ healthy_replica_count v rs
unfolding healthy_replica_count find save
count-save_ill v w [] found ill still = refl
count-save_ill v w (y ∷ rs) {x} found ill still = elim (Bool-cases (y.replica_id == w.replica_id)) [
  | inl hit ↦ ground (arith, ill, still)
  | inr miss ↦ ground (arith, count-save_ill v w rs {x = x} (rw miss at found) ill still)
]

pub count-add_ill :
    (v : ℕ) (w : Replica) (rs : List Replica)
    → w.status ≢ ReplicaState.healthy
    → healthy_replica_count v (add w rs) ≡ healthy_replica_count v rs
unfolding healthy_replica_count add
count-add_ill v w [] ill = ground (arith, ill)
count-add_ill v w (y ∷ rs) ill = ground (arith, count-add_ill v w rs ill)

-- A row that is removed was one at most.
count-remove_absent :
    (v i : ℕ) (rs : List Replica)
    → find replica_key i rs ≡ none
    → healthy_replica_count v (remove replica_key i rs) ≡ healthy_replica_count v rs
unfolding healthy_replica_count find remove
count-remove_absent v i [] h = refl
count-remove_absent v i (y ∷ rs) h = ground (arith, count-remove_absent v i rs)

pub count-le-remove :
    (v i : ℕ) (rs : List Replica)
    → IsUnique replica_key rs
    → healthy_replica_count v rs ≤ suc (healthy_replica_count v (remove replica_key i rs))
unfolding healthy_replica_count remove
count-le-remove v i [] u = omega arith
count-le-remove v i (y ∷ rs) u = elim (Bool-cases (y.replica_id == i)) [
  | inl hit ↦
      let same = count-remove_absent v i rs (rw (← (nat_beq_iff y.replica_id i).0 hit) u.0) in
      ground (arith, same)
  | inr miss ↦ ground (arith, count-le-remove v i rs u.1)
]

-- If there is a replica with the key, it is one of the version.
pub record OwnedBy (v i : ℕ) (rows : List Replica) : Type 0 where
  pub at : (x : Replica) → find replica_key i rows ≡ some x → x.version_id ≡ v

OwnedBy-save :
    (v i : ℕ) (w : Replica) (rows : List Replica) {y : Replica}
    → find replica_key w.replica_id rows ≡ some y
    → w.version_id ≡ y.version_id
    → OwnedBy v i rows
    → OwnedBy v i (save replica_key w rows)
OwnedBy-save v i w rows {y} found same owned = record {
  at = λ x h. elim (Bool-cases (w.replica_id == i)) [
    | inl hit ↦
        let e : w.replica_id ≡ i = (nat_beq_iff w.replica_id i).0 hit in
        let saved = find-save_self replica_key w rows (λ p. absurd_eq p found) in
        let here : w ≡ x = some_unique saved (rw (← e) at h) in
        ap (λ (z : Replica). z.version_id) (sym here) ∙ same ∙ owned.at y (rw e at found)
    | inr miss ↦
        owned.at x
          (sym (find-save_ne replica_key i w rows (λ e. cc ((nat_beq_iff w.replica_id i).1 e))) ∙ h)
  ];
}

pub set_replica_state-OwnedBy :
    (v j i : ℕ) (wanted : ReplicaState)
    → Keeps (λ db. OwnedBy v j db.replicas) (calling (set_replica_state i wanted))
set_replica_state-OwnedBy v j i wanted =
    Keeps-calling (λ db. OwnedBy v j db.replicas) (set_replica_state i wanted)
      (λ db r h owned.
        let (x, found, outcome) = set_replica_state-eq-ok i wanted db h in
        elim outcome [
          | inl (_, e) ↦ rw e owned
          | inr (_, _, e) ↦ rw e (
              OwnedBy-save v j (with_status wanted x) db.replicas {y = x}
                (find_self replica_key i db.replicas found) refl owned)
        ])

pub mark_replica_healthy-OwnedBy :
    (v j i : ℕ) (checksum : Text) (size : ℤ)
    → Keeps (λ db. OwnedBy v j db.replicas) (calling (mark_replica_healthy i checksum size))
mark_replica_healthy-OwnedBy v j i checksum size =
    Keeps-calling (λ db. OwnedBy v j db.replicas) (mark_replica_healthy i checksum size)
      (λ db r h owned.
        let (x, w, found, _, _, row, e) = mark_replica_healthy-eq-ok i checksum size db h in
        rw e (
          OwnedBy-save v j r.0 db.replicas {y = x}
            (rw row (find_self replica_key i db.replicas found))
            (ap (λ (z : Replica). z.version_id) row) owned))

pub set_replica_state_count :
    (v i : ℕ) (db : Database) {r : Replica × Database}
    → set_replica_state i ReplicaState.failed db ≡ ok r
    → healthy_replica_count v r.1.replicas ≡ healthy_replica_count v db.replicas
set_replica_state_count v i db {r} h =
    let (x, found, outcome) = set_replica_state-eq-ok i ReplicaState.failed db h in
    elim outcome [
      | inl (_, e) ↦ rw e refl
      | inr (allowed, _, e) ↦ rw e (
          count-save_ill v (with_status ReplicaState.failed x) db.replicas {x = x}
            (find_self replica_key i db.replicas found) (λ f. ground arith) (λ f. cc))
    ]

pub mark_replica_healthy_count :
    (v i : ℕ) (checksum : Text) (size : ℤ) (db : Database) {r : Replica × Database}
    → mark_replica_healthy i checksum size db ≡ ok r
    → OwnedBy v i db.replicas
    → healthy_replica_count v r.1.replicas ≡ suc (healthy_replica_count v db.replicas)
mark_replica_healthy_count v i checksum size db {r} h owned =
    let (x, w, found, _, repaired, row, e) = mark_replica_healthy-eq-ok i checksum size db h in
    let mine : r.0.version_id ≡ v = ap (λ (z : Replica). z.version_id) row ∙ owned.at x found in
    rw e (
      count-save_healthy v r.0 db.replicas {x = x}
        (rw row (find_self replica_key i db.replicas found)) (λ f. ground arith) mine
        (ap (λ (z : Replica). z.status) row))
