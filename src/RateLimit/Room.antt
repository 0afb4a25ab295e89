-- ===== src/RateLimit/Room.antt =====
-- How many clients the limiter remembers when only some names call.
use ps.Prelude.{
  ℕ, suc, ◌+◌, ◌≤◌, ◌≡◌, refl, Bool, true, false, ◌||◌, List, [], ◌∷◌, length, arith, text_eq, ◌==◌,
  text_beq_iff, if◌then◌else◌, Bool-cases, inl, inr,
}
use ps.Common.Text.{Text}
use ps.Metadata.Checks.{mem}
use ps.RateLimit.{Client, put_events}

-- Whether the limiter has an entry for a client.
abbrev pub is_known : Text → List Client → Bool
is_known k [] = false
is_known k (c ∷ cs) = (c.client_key == k) || is_known k cs

-- How many of the names the limiter has no entry for.
abbrev pub unknown : List Text → List Client → ℕ
unknown [] cs = 0
unknown (n ∷ names) cs = if is_known n cs then unknown names cs else suc (unknown names cs)

is_known-put :
    (j k : Text) (events : List ℕ) (cs : List Client)
    → is_known j (put_events k events cs) ≡ ((k == j) || is_known j cs)
unfolding put_events
is_known-put j k events [] = refl
is_known-put j k events (c ∷ cs) =
    ground (arith, is_known-put j k events cs, text_beq_iff c.client_key k)

length-put_if :
    (k : Text) (events : List ℕ) (cs : List Client)
    → length (put_events k events cs) ≡ (if is_known k cs then length cs else suc (length cs))
unfolding put_events
length-put_if k events [] = refl
length-put_if k events (c ∷ cs) = ground (arith, length-put_if k events cs)

unknown-put :
    (names : List Text) (k : Text) (events : List ℕ) (cs : List Client)
    → unknown names (put_events k events cs) ≤ unknown names cs
unknown-put [] k events cs = omega arith
unknown-put (n ∷ names) k events cs =
    ground (arith, unknown-put names k events cs, is_known-put n k events cs)

unknown-put_new :
    (names : List Text) (k : Text) (events : List ℕ) (cs : List Client)
    → mem k names ≡ true
    → is_known k cs ≡ false
    → suc (unknown names (put_events k events cs)) ≤ unknown names cs
unknown-put_new [] k events cs h new = cc
unknown-put_new (n ∷ names) k events cs h new = ground (
  arith,
  unknown-put_new names k events cs,
  unknown-put names k events cs,
  is_known-put n k events cs,
  text_beq_iff n k,
  text_beq_iff k n,
)

-- The entries and the names without one do not become more when one of the names calls.
pub room-put :
    (names : List Text) (k : Text) (events : List ℕ) (cs : List Client)
    → mem k names ≡ true
    → length (put_events k events cs) + unknown names (put_events k events cs)
      ≤ length cs + unknown names cs
room-put names k events cs h = elim (Bool-cases (is_known k cs)) [
  | inl known ↦
      let same : length (put_events k events cs) ≡ length cs =
        rw known at (length-put_if k events cs) in
      omega (arith, unknown-put names k events cs)
  | inr new ↦
      let more : length (put_events k events cs) ≡ suc (length cs) =
        rw new at (length-put_if k events cs) in
      omega (arith, unknown-put_new names k events cs h new)
]
