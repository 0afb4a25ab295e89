-- ===== src/Gateway/Covered.antt =====
-- The rows of replicas that `delete_object` of gateway/service.py removes.
use ps.Prelude.{
  nat_beq_iff, All-weaken, ℕ, ◌≡◌, inl, inr, refl, Bool, true, false, List, [], ◌∷◌, ◌==◌, select,
  map, nat_eq, All, arith, Bool-cases, subst, sym,
}
use ps.Table.{remove}
use ps.Common.Constants.{object_state_eq}
use ps.Metadata.Models.{Replica, replica_key}
use ps.Metadata.Checks.{mem}
use ps.Gateway.Deletes.{remove_each}

-- Each replica of the object is among those to remove.
abbrev pub Covered : (Replica → Bool) → List ℕ → Replica → Type 0
Covered p ids r = p r ≡ true → mem r.replica_id ids ≡ true

still : (j i : ℕ) (ids : List ℕ) → (j == i) ≡ false → mem j (i ∷ ids) ≡ true → mem j ids ≡ true
still j i ids other m = elim (Bool-cases (i == j)) [
  | inl same ↦ let e : i ≡ j = (nat_beq_iff i j).0 same in cc (other, (nat_beq_iff j i).1 (sym e))
  | inr e ↦ ground arith
]

module _ (p : Replica → Bool) where
  Covered-remove :
      (i : ℕ) (ids : List ℕ) (rs : List Replica)
      → All (Covered p (i ∷ ids)) rs
      → All (Covered p ids) (remove replica_key i rs)
  unfolding remove
  Covered-remove i ids [] all = tt
  Covered-remove i ids (r ∷ rs) all = elim (Bool-cases (r.replica_id == i)) [
    | inl same ↦ rw same (Covered-remove i ids rs all.1)
    | inr other ↦
        rw other ((λ h. still r.replica_id i ids other (all.0 h)), Covered-remove i ids rs all.1)
  ]

  none_left : (rs : List Replica) → All (Covered p []) rs → select p rs ≡ []
  none_left [] all = refl
  none_left (r ∷ rs) all = elim (Bool-cases (p r)) [
    | inl h ↦ let m = all.0 h in cc
    | inr h ↦ rw h (none_left rs all.1)
  ]

  pub select-remove_each :
      (ids : List ℕ) (rs : List Replica)
      → All (Covered p ids) rs
      → select p (remove_each ids rs) ≡ []
  select-remove_each [] rs all = none_left rs all
  select-remove_each (i ∷ ids) rs all =
      select-remove_each ids (remove replica_key i rs) (Covered-remove i ids rs all)

  Covered-more : (i : ℕ) (ids : List ℕ) (r : Replica) → Covered p ids r → Covered p (i ∷ ids) r
  Covered-more i ids r covered h = let m = covered h in ground arith

  abbrev pub CoveredBy : List Replica → List Replica → Type 0
  CoveredBy rs kept = All (Covered p (map (λ (r : Replica). r.replica_id) kept)) rs

  pub Covered-select :
      (rs : List Replica) → All (Covered p (map (λ (r : Replica). r.replica_id) (select p rs))) rs
  Covered-select [] = tt
  Covered-select (r ∷ rs) =
      let ids = map (λ (x : Replica). x.replica_id) (select p rs) in
      elim (Bool-cases (p r)) [
        | inl h ↦
            let all : All (Covered p (r.replica_id ∷ ids)) (r ∷ rs) = (
              λ e. rw ((nat_beq_iff r.replica_id r.replica_id).1 refl) refl,
              All-weaken (Covered p ids) (Covered p (r.replica_id ∷ ids)) rs (Covered-select rs)
                  (λ x. Covered-more r.replica_id ids x),
            ) in
            let kept : r ∷ select p rs ≡ select p (r ∷ rs) = rw h refl in
            subst (CoveredBy (r ∷ rs)) kept all
        | inr h ↦
            let all : All (Covered p ids) (r ∷ rs) = ((λ e. cc), Covered-select rs) in
            let dropped : select p rs ≡ select p (r ∷ rs) = rw h refl in
            subst (CoveredBy (r ∷ rs)) dropped all
      ]
