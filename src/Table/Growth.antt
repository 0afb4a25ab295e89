-- ===== src/Table/Growth.antt =====
-- A table that keeps a row for every key that it has had.
use ps.Prelude.{◌≡◌, ◌∙◌, inl, inr, some, List, Eq, ◌==◌, Bool-cases, absurd_eq}
use ps.Table.Defs.{find, add, save}
use ps.Table.Laws.{find-add_old, find-save_self, find-save_ne}

module _ {ℓ κ} {R : Type ℓ} {K : Type κ} ⦃e : Eq K⦄ (key : R → K) where
  abbrev pub Grows : List R → List R → Type (ℓ ⊔ κ)
  Grows rs ss = (k : K) (r : R) → find key k rs ≡ some r → (s : R) × (find key k ss ≡ some s)

module _ {ℓ κ} {R : Type ℓ} {K : Type κ} ⦃e : Eq K⦄ (key : R → K) where
  pub Grows-refl : (rs : List R) → Grows key rs rs
  Grows-refl rs k r h = (r, h)

  pub Grows-add : (r : R) (rs : List R) → Grows key rs (add r rs)
  Grows-add r rs k x h = (x, find-add_old key k r rs h)

  pub Grows-save : (r : R) (rs : List R) → Grows key rs (save key r rs)
  Grows-save r rs k x h = elim (Bool-cases (key r == k)) [
    | inl hit ↦
        let same : key r ≡ k = (e.beq_iff (key r) k).0 hit in
        (r, rw (← same) (find-save_self key r rs (λ p. absurd_eq (rw same at p) h)))
    | inr miss ↦ (x, find-save_ne key k r rs (λ p. cc ((e.beq_iff (key r) k).1 p)) ∙ h)
  ]
