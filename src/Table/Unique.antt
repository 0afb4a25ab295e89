-- ===== src/Table/Unique.antt =====
-- A key that no two rows share, and the operations that keep it so.
use mathlib.Core.Option.{some-injective}
use ps.Prelude.{
  ◌≡◌, ◌≢◌, refl, ap, subst, ◌∙◌, sym, inl, inr, Bool, true, false, find_first, All, none, some,
  List, [], ◌∷◌, arith, Eq, ◌==◌, if◌then◌else◌, Bool-cases,
}
use ps.Table.Defs.{find, add, save, remove, update_where}
use ps.Table.Laws.{find-add}

module _ {ℓ κ} {R : Type ℓ} {K : Type κ} ⦃e : Eq K⦄ (key : R → K) where
  abbrev pub IsUnique : List R → Type (ℓ ⊔ κ)
  IsUnique [] = Unit
  IsUnique (r ∷ rs) = (find key (key r) rs ≡ none) × IsUnique rs

module _ {ℓ κ} {R : Type ℓ} {K : Type κ} ⦃e : Eq K⦄ (key : R → K) where
  pub IsUnique-add :
      (r : R) (rs : List R) → find key (key r) rs ≡ none → IsUnique key rs → IsUnique key (add r rs)
  unfolding find add
  IsUnique-add r [] new u = (refl, tt)
  IsUnique-add r (x ∷ rs) new u = ground (
    arith,
    IsUnique-add r rs,
    find-add key (key x) r rs,
    e.beq_iff (key r) (key x),
    e.beq_iff (key x) (key r),
  )

module _ {ℓ κ μ} {R : Type ℓ} {K : Type κ} {L : Type μ} ⦃e : Eq K⦄ ⦃d : Eq L⦄ (key : R → K)
    (other : R → L) where
  -- Rows that are removed by one key leave another key unique.
  find-remove_other :
      (l : L) (k : K) (rs : List R) → find other l rs ≡ none → find other l (remove key k rs) ≡ none
  unfolding find remove
  find-remove_other l k [] h = refl
  find-remove_other l k (x ∷ rs) h = ground (arith, find-remove_other l k rs)

  pub IsUnique-remove : (k : K) (rs : List R) → IsUnique other rs → IsUnique other (remove key k rs)
  unfolding remove
  IsUnique-remove k [] u = tt
  IsUnique-remove k (x ∷ rs) u =
      ground (arith, IsUnique-remove k rs u.1, find-remove_other (other x) k rs u.0)

  -- Under two unique keys the row that is found by one and removed by the other is gone.
  pub find-remove_found :
      (l : L) (rs : List R) {r : R}
      → IsUnique other rs
      → find other l rs ≡ some r
      → find other l (remove key (key r) rs) ≡ none
  unfolding find remove
  find-remove_found l [] u h = cc
  find-remove_found l (x ∷ rs) {r} u h = elim (Bool-cases (other x == l)) [
    | inl hit ↦
        let same : x ≡ r = some-injective x r (rw hit at h) in
        rw ((e.beq_iff (key x) (key r)).1 (ap key same)) (
          find-remove_other l (key r) rs
            (subst (λ m. find other m rs ≡ none) ((d.beq_iff (other x) l).0 hit) u.0))
    | inr miss ↦
        let rest = find-remove_found l rs {r = r} u.1 (rw miss at h) in
        elim (Bool-cases (key x == key r)) [
          | inl gone ↦ rw gone rest
          | inr kept ↦ rw (kept, miss) rest
        ]
  ]

  tail-none : (l : L) (x : R) (rs : List R) → find other l (x ∷ rs) ≡ none → find other l rs ≡ none
  unfolding find
  tail-none l x rs h = ground arith

  head-none : (l : L) (x : R) (rs : List R) → find other l (x ∷ rs) ≡ none → (other x == l) ≡ false
  unfolding find
  head-none l x rs h = ground arith

  find-cons_none :
      (l : L) (x : R) (rs : List R)
      → (other x == l) ≡ false
      → find other l rs ≡ none
      → find other l (x ∷ rs) ≡ none
  unfolding find
  find-cons_none l x rs miss h = rw miss h

  -- A row that is saved with its other key unchanged leaves that key unique.
  find-save_other :
      (l : L) (r : R) (rs : List R) {x : R}
      → find key (key r) rs ≡ some x
      → other r ≡ other x
      → find other l rs ≡ none
      → find other l (save key r rs) ≡ none
  unfolding find save
  find-save_other l r [] found same h = refl
  find-save_other l r (y ∷ rs) {x} found same h = elim (Bool-cases (key y == key r)) [
    | inl hit ↦
        let e' : y ≡ x = some-injective y x (rw hit at found) in
        rw hit (
          find-cons_none l r rs
            (ap (λ (m : L). m == l) (same ∙ ap other (sym e')) ∙ head-none l y rs h)
            (tail-none l y rs h))
    | inr miss ↦ rw miss (
        find-cons_none l y (save key r rs) (head-none l y rs h)
          (find-save_other l r rs (rw miss at found) same (tail-none l y rs h)))
  ]

  pub IsUnique-save :
      (r : R) (rs : List R) {x : R}
      → find key (key r) rs ≡ some x
      → other r ≡ other x
      → IsUnique other rs
      → IsUnique other (save key r rs)
  unfolding find save
  IsUnique-save r [] found same u = tt
  IsUnique-save r (y ∷ rs) {x} found same u = elim (Bool-cases (key y == key r)) [
    | inl hit ↦ let e' : y ≡ x = some-injective y x (rw hit at found) in rw hit (rw (same, ← e') u)
    | inr miss ↦
        let rest = rw miss at found in
        rw miss (find-save_other (other y) r rs rest same u.0, IsUnique-save r rs rest same u.1)
  ]

module _ {ℓ κ} {R : Type ℓ} {K : Type κ} ⦃e : Eq K⦄ (key : R → K) where
  -- A row that a query finds has a key that is there.
  find_first-key :
      (p : R → Bool) (rs : List R) {r : R} → find_first p rs ≡ some r → find key (key r) rs ≢ none
  unfolding find
  find_first-key p [] h = cc
  find_first-key p (x ∷ rs) {r} h = elim (Bool-cases (p x)) [
    | inl hit ↦ λ n.
        let same : x ≡ r = some-injective x r (rw hit at h) in
        cc (head-none key key (key r) x rs n, (e.beq_iff (key x) (key r)).1 (ap key same))
    | inr miss ↦ λ n. find_first-key p rs {r = r} (rw miss at h) (tail-none key key (key r) x rs n)
  ]

  -- Under a unique key a row that a query finds is found by its key.
  pub find-find_first :
      (p : R → Bool) (rs : List R) {r : R}
      → IsUnique key rs
      → find_first p rs ≡ some r
      → find key (key r) rs ≡ some r
  unfolding find
  find-find_first p [] u h = cc
  find-find_first p (x ∷ rs) {r} u h = elim (Bool-cases (p x)) [
    | inl hit ↦
        let same : x ≡ r = some-injective x r (rw hit at h) in
        rw ((e.beq_iff (key x) (key r)).1 (ap key same)) (ap some same)
    | inr miss ↦
        let rest : find_first p rs ≡ some r = rw miss at h in
        elim (Bool-cases (key x == key r)) [
          | inl clash ↦ absurd (
              find_first-key p rs rest
                (subst (λ k. find key k rs ≡ none) ((e.beq_iff (key x) (key r)).0 clash) u.0))
          | inr free ↦ rw free (find-find_first p rs u.1 rest)
        ]
  ]

  pub find-eq-find_first : (k : K) (rs : List R) → find key k rs ≡ find_first (λ r. key r == k) rs
  unfolding find
  find-eq-find_first k [] = refl
  find-eq-find_first k (x ∷ rs) = ground (arith, find-eq-find_first k rs)

pub find_first-holds {ℓ} :
    {R : Type ℓ} (p : R → Bool) (rs : List R) {r : R} → find_first p rs ≡ some r → p r ≡ true
find_first-holds p [] h = cc
find_first-holds p (x ∷ rs) {r} h = elim (Bool-cases (p x)) [
  | inl hit ↦ subst (λ y. p y ≡ true) (some-injective x r (rw hit at h)) hit
  | inr miss ↦ find_first-holds p rs (rw miss at h)
]

module _ {ℓ κ μ} {R : Type ℓ} {K : Type κ} {L : Type μ} ⦃e : Eq K⦄ ⦃d : Eq L⦄ (key : R → K)
    (other : R → L) where
  -- Under a unique key a row that is found by another column is found by its key.
  pub find_unique :
      (l : L) (rs : List R) {r : R}
      → IsUnique key rs
      → find other l rs ≡ some r
      → find key (key r) rs ≡ some r
  find_unique l rs u h =
      find-find_first key (λ r. other r == l) rs u (sym (find-eq-find_first other l rs) ∙ h)

module _ {ℓ κ} {R : Type ℓ} {K : Type κ} ⦃e : Eq K⦄ (key : R → K) where
  -- What is not found is the key of no row.
  pub All-absent : (k : K) (rs : List R) → find key k rs ≡ none → All (λ r. key r ≢ k) rs
  unfolding find
  All-absent k [] h = tt
  All-absent k (x ∷ rs) h =
      (ground (arith, e.beq_iff (key x) k), All-absent k rs (tail-none key key k x rs h))

module _ {ℓ κ μ ν} {R : Type ℓ} {K : Type κ} ⦃e : Eq K⦄ (key : R → K) (P : R → Type μ)
    (Q : R → Type ν) where
  pub All-weaken_absent :
      (k : K) (rs : List R)
      → All P rs
      → All (λ r. key r ≢ k) rs
      → ((r : R) → P r → key r ≢ k → Q r)
      → All Q rs
  All-weaken_absent k [] all absent f = tt
  All-weaken_absent k (x ∷ rs) all absent f =
      (f x all.0 absent.0, All-weaken_absent k rs all.1 absent.1 f)

  -- Under a unique key only the saved row has the key that it is saved by.
  pub All-save_unique :
      (r : R) (rs : List R)
      → IsUnique key rs
      → All P rs
      → Q r
      → ((x : R) → P x → key x ≢ key r → Q x)
      → All Q (save key r rs)
  unfolding save
  All-save_unique r [] u all q f = tt
  All-save_unique r (x ∷ rs) u all q f = elim (Bool-cases (key x == key r)) [
    | inl hit ↦
        let same : key x ≡ key r = (e.beq_iff (key x) (key r)).0 hit in
        rw hit
          (q, All-weaken_absent (key r) rs all.1 (All-absent key (key r) rs (rw same at u.0)) f)
    | inr miss ↦
        let differ : key x ≢ key r = λ p. cc ((e.beq_iff (key x) (key r)).1 p) in
        rw miss (f x all.0 differ, All-save_unique r rs u.1 all.1 q f)
  ]

module _ {ℓ κ} {R : Type ℓ} {L : Type κ} ⦃d : Eq L⦄ (other : R → L) (p : R → Bool) (f : R → R)
    (same : (r : R) → other (f r) ≡ other r) where
  find-update_where-none :
      (l : L) (rs : List R) → find other l rs ≡ none → find other l (update_where p f rs) ≡ none
  unfolding find update_where
  find-update_where-none l [] h = refl
  find-update_where-none l (x ∷ rs) h = ground (arith, find-update_where-none l rs, same x)

  other-if : (x : R) → other (if p x then f x else x) ≡ other x
  other-if x = ground (arith, same x)

  pub IsUnique-update_where :
      (rs : List R) → IsUnique other rs → IsUnique other (update_where p f rs)
  unfolding update_where
  IsUnique-update_where [] u = tt
  IsUnique-update_where (x ∷ rs) u =
      (rw (other-if x) (find-update_where-none (other x) rs u.0), IsUnique-update_where rs u.1)
