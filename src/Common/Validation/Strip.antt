-- ===== src/Common/Validation/Strip.antt =====
-- What `strip` takes off a text, and what it leaves.
use ps.Prelude.{
  ℕ, ◌<◌, ◌≡◌, refl, ap, ◌∙◌, Bool, true, false, [], ◌∷◌, ◌++◌, All, length, arith, Bool-cases, inl,
  inr,
}
use ps.Common.Text.{Text, is_space, lstrip_by, rstrip_by, keep, strip}

module _ (p : ℕ → Bool) where
  -- The first character of a text, if any, is none of the characters to strip.
  abbrev pub Starts : Text → Type 0
  Starts [] = Unit
  Starts (c ∷ s) = p c ≡ false

  pub Starts-lstrip_by : (s : Text) → Starts (lstrip_by p s)
  unfolding lstrip_by
  Starts-lstrip_by [] = tt
  Starts-lstrip_by (c ∷ s) = elim (Bool-cases (p c)) [
    | inl e ↦ rw e (Starts-lstrip_by s)
    | inr e ↦ rw e e
  ]

  pub Starts-rstrip_by : (s : Text) → Starts s → Starts (rstrip_by p s)
  unfolding rstrip_by
  Starts-rstrip_by [] h = tt
  Starts-rstrip_by (c ∷ s) h = Starts-keep c (rstrip_by p s) h
    where
      Starts-keep : (d : ℕ) (t : Text) → p d ≡ false → Starts (keep p d t)
      Starts-keep d [] e = rw e e
      Starts-keep d (x ∷ t) e = e

  lstrip_by-Starts : (s : Text) → Starts s → lstrip_by p s ≡ s
  unfolding lstrip_by
  lstrip_by-Starts [] h = refl
  lstrip_by-Starts (c ∷ s) h = rw h refl

  rstrip_by-rstrip_by : (s : Text) → rstrip_by p (rstrip_by p s) ≡ rstrip_by p s
  unfolding rstrip_by
  rstrip_by-rstrip_by [] = refl
  rstrip_by-rstrip_by (c ∷ s) = keep-again c (rstrip_by p s) (rstrip_by-rstrip_by s)
    where
      keep-again : (d : ℕ) (t : Text) → rstrip_by p t ≡ t → rstrip_by p (keep p d t) ≡ keep p d t
      keep-again d [] e = ground arith
      keep-again d (x ∷ t) e = ap (keep p d) e

  strip_by-strip_by :
      (s : Text)
      → rstrip_by p (lstrip_by p (rstrip_by p (lstrip_by p s))) ≡ rstrip_by p (lstrip_by p s)
  strip_by-strip_by s =
      rw
        (lstrip_by-Starts (rstrip_by p (lstrip_by p s))
          (Starts-rstrip_by (lstrip_by p s) (Starts-lstrip_by s)))
        (rstrip_by-rstrip_by (lstrip_by p s))

module _ (p : ℕ → Bool) where
  -- The last character of a text, if any, is none of the characters to strip.
  abbrev pub Ends : Text → Type 0
  Ends [] = Unit
  Ends (c ∷ []) = p c ≡ false
  Ends (c ∷ d ∷ s) = Ends (d ∷ s)

  pub lstrip_by-split :
      (s : Text) → (front : Text) × (All (λ c. p c ≡ true) front) × (s ≡ front ++ lstrip_by p s)
  unfolding lstrip_by
  lstrip_by-split [] = ([], tt, refl)
  lstrip_by-split (c ∷ s) = elim (Bool-cases (p c)) [
    | inl e ↦
        let (front, all, whole) = lstrip_by-split s in
        (c ∷ front, (e, all), rw e (ap (λ (t : Text). c ∷ t) whole))
    | inr e ↦ ([], tt, rw e refl)
  ]

  keep-split :
      (c : ℕ) (t back : Text)
      → All (λ x. p x ≡ true) back
      → (rest : Text) × (All (λ x. p x ≡ true) rest) × (c ∷ (t ++ back) ≡ keep p c t ++ rest)
  keep-split c [] back all = elim (Bool-cases (p c)) [
    | inl e ↦ (c ∷ back, (e, all), rw e refl)
    | inr e ↦ (back, all, rw e refl)
  ]
  keep-split c (d ∷ t) back all = (back, all, refl)

  pub rstrip_by-split :
      (s : Text) → (back : Text) × (All (λ c. p c ≡ true) back) × (s ≡ rstrip_by p s ++ back)
  unfolding rstrip_by
  rstrip_by-split [] = ([], tt, refl)
  rstrip_by-split (c ∷ s) =
      let (back, all, whole) = rstrip_by-split s in
      let (rest, rest_all, e) = keep-split c (rstrip_by p s) back all in
      (rest, rest_all, ap (λ (t : Text). c ∷ t) whole ∙ e)

  Ends-keep : (c : ℕ) (t : Text) → Ends t → Ends (keep p c t)
  Ends-keep c [] h = elim (Bool-cases (p c)) [ inl e ↦ rw e tt | inr e ↦ rw e e ]
  Ends-keep c (d ∷ t) h = h

  pub Ends-rstrip_by : (s : Text) → Ends (rstrip_by p s)
  unfolding rstrip_by
  Ends-rstrip_by [] = tt
  Ends-rstrip_by (c ∷ s) = Ends-keep c (rstrip_by p s) (Ends-rstrip_by s)

  lstrip_by-append :
      (front s : Text) → All (λ c. p c ≡ true) front → Starts p s → lstrip_by p (front ++ s) ≡ s
  unfolding lstrip_by
  lstrip_by-append [] s all starts = lstrip_by-Starts p s starts
  lstrip_by-append (c ∷ front) s (e, all) starts = rw e (lstrip_by-append front s all starts)

  rstrip_by-All : (s : Text) → All (λ c. p c ≡ true) s → rstrip_by p s ≡ []
  unfolding rstrip_by
  rstrip_by-All [] all = refl
  rstrip_by-All (c ∷ s) (e, all) = rw (rstrip_by-All s all, e) refl

  rstrip_by-append :
      (s back : Text) → Ends s → All (λ c. p c ≡ true) back → rstrip_by p (s ++ back) ≡ s
  unfolding rstrip_by
  rstrip_by-append [] back ends all = rstrip_by-All back all
  rstrip_by-append (c ∷ []) back ends all = rw (rstrip_by-All back all, ends) refl
  rstrip_by-append (c ∷ d ∷ s) back ends all =
      ap (keep p c) (rstrip_by-append (d ∷ s) back ends all)

  Starts-append : (s t : Text) → Starts p s → 0 < length s → Starts p (s ++ t)
  Starts-append [] t starts long = absurd (omega arith)
  Starts-append (c ∷ s) t starts long = starts

  pub between :
      (front s back : Text)
      → All (λ c. p c ≡ true) front
      → Starts p s
      → Ends s
      → All (λ c. p c ≡ true) back
      → 0 < length s
      → rstrip_by p (lstrip_by p (front ++ (s ++ back))) ≡ s
  between front s back before starts ends after long =
      ap (rstrip_by p)
        (lstrip_by-append front (s ++ back) before (Starts-append s back starts long))
      ∙ rstrip_by-append s back ends after

pub strip-strip : (s : Text) → strip (strip s) ≡ strip s
unfolding strip
strip-strip s = strip_by-strip_by is_space s
