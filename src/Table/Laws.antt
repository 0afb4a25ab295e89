-- ===== src/Table/Laws.antt =====
-- What a lookup finds after each operation, and predicates on all rows.
use mathlib.Core.Path.{subst}
use mathlib.Core.Option.{some-injective}
use ps.Prelude.{
  ◌≡◌, refl, sym, ◌≢◌, Bool, none, some, List, [], ◌∷◌, arith, Eq, ◌==◌, if◌then◌else◌, or_else,
  All, All-if, Bool-cases, inl, inr,
}
use ps.Table.Defs.{find, add, save, remove, update_where}

module _ {ℓ κ} {R : Type ℓ} {K : Type κ} ⦃e : Eq K⦄ (key : R → K) where
  pub key-find : (k : K) (rs : List R) {r : R} → find key k rs ≡ some r → key r ≡ k
  unfolding find
  key-find k [] h = cc
  key-find k (x ∷ rs) {r} h = ground (arith, key-find k rs {r = r}, e.beq_iff (key x) k)

  -- A row that is found by some key is found by its own.
  pub find_self :
      (k : K) (rs : List R) {r : R} → find key k rs ≡ some r → find key (key r) rs ≡ some r
  find_self k rs {r} h = subst (λ j. find key j rs ≡ some r) (sym (key-find k rs h)) h

  pub find-add :
      (k : K) (r : R) (rs : List R)
      → find key k (add r rs) ≡ or_else (find key k rs) (if key r == k then some r else none)
  unfolding find add
  find-add k r [] = refl
  find-add k r (x ∷ rs) = ground (arith, find-add k r rs)

  pub find-add_old :
      (k : K) (r : R) (rs : List R) {x : R}
      → find key k rs ≡ some x
      → find key k (add r rs) ≡ some x
  find-add_old k r rs h = ground (arith, find-add k r rs)

  pub find-add-none :
      (k : K) (r : R) (rs : List R)
      → key r ≢ k
      → find key k rs ≡ none
      → find key k (add r rs) ≡ none
  find-add-none k r rs other h = ground (arith, find-add k r rs, e.beq_iff (key r) k)

  pub find-save_self :
      (r : R) (rs : List R) → find key (key r) rs ≢ none → find key (key r) (save key r rs) ≡ some r
  unfolding find save
  find-save_self r [] h = absurd (h refl)
  find-save_self r (x ∷ rs) h = ground (arith, find-save_self r rs, e.beq_iff (key r) (key r))

  pub find-save_ne :
      (k : K) (r : R) (rs : List R) → key r ≢ k → find key k (save key r rs) ≡ find key k rs
  unfolding find save
  find-save_ne k r [] h = refl
  find-save_ne k r (x ∷ rs) h = ground (
    arith,
    find-save_ne k r rs h,
    e.beq_iff (key r) k,
    e.beq_iff (key x) k,
    e.beq_iff (key x) (key r),
  )

  pub find-remove :
      (j k : K) (rs : List R)
      → find key j (remove key k rs) ≡ (if k == j then none else find key j rs)
  unfolding find remove
  find-remove j k [] = ground arith
  find-remove j k (x ∷ rs) =
      ground (arith, find-remove j k rs, e.beq_iff (key x) k, e.beq_iff (key x) j, e.beq_iff k j)

module _ {ℓ κ μ} {R : Type ℓ} {K : Type κ} ⦃e : Eq K⦄ (key : R → K) (P : R → Type μ) where
  pub All-find : (k : K) (rs : List R) {r : R} → All P rs → find key k rs ≡ some r → P r
  unfolding find
  All-find k [] all h = cc
  All-find k (x ∷ rs) {r} all h = elim (Bool-cases (key x == k)) [
    | inl same ↦ subst P (some-injective x r (rw same at h)) all.0
    | inr other ↦ All-find k rs all.1 (rw other at h)
  ]

  pub All-save : (r : R) (rs : List R) → P r → All P rs → All P (save key r rs)
  unfolding save
  All-save r [] p all = tt
  All-save r (x ∷ rs) p all =
      All-if P (key x == key r) (r ∷ rs) (x ∷ save key r rs) (p, all.1)
        (all.0, All-save r rs p all.1)

  pub All-remove : (k : K) (rs : List R) → All P rs → All P (remove key k rs)
  unfolding remove
  All-remove k [] all = tt
  All-remove k (x ∷ rs) all =
      let rest = All-remove k rs all.1 in
      All-if P (key x == k) (remove key k rs) (x ∷ remove key k rs) rest (all.0, rest)

module _ {ℓ μ} {R : Type ℓ} (P : R → Type μ) where
  pub All-add : (r : R) (rs : List R) → P r → All P rs → All P (add r rs)
  unfolding add
  All-add r [] p all = (p, tt)
  All-add r (x ∷ rs) p all = (all.0, All-add r rs p all.1)

  pub All-update_where :
      (p : R → Bool) (f : R → R) (rs : List R)
      → All (λ r. P (if p r then f r else r)) rs
      → All P (update_where p f rs)
  unfolding update_where
  All-update_where p f [] all = tt
  All-update_where p f (x ∷ rs) all = (all.0, All-update_where p f rs all.1)
