-- ===== src/Common/Text.antt =====
-- Python's `str` as its list of code points, with the methods of `str` that the control plane calls.
use ps.Prelude.{ℕ, ◌+◌, Bool, ◌&&◌, ◌||◌, List, [], ◌∷◌, ltb, leb, nat_beq, if◌then◌else◌}

abbrev pub Text : Type 0
Text = List ℕ

-- The code points for which `str.isspace` holds, which `str.strip` takes off.
unfoldable pub is_space : ℕ → Bool
is_space c =
    (leb 9 c && leb c 13)
    || (leb 28 c && leb c 32)
    || nat_beq c 133
    || nat_beq c 160
    || nat_beq c 5760
    || (leb 8192 c && leb c 8202)
    || nat_beq c 8232
    || nat_beq c 8233
    || nat_beq c 8239
    || nat_beq c 8287
    || nat_beq c 12288

module _ (p : ℕ → Bool) where
  unfoldable pub lstrip_by : Text → Text
  lstrip_by [] = []
  lstrip_by (c ∷ s) = if p c then lstrip_by s else c ∷ s

  -- What is kept of a character in front of a text that is already stripped.
  abbrev pub keep : ℕ → Text → Text
  keep c [] = if p c then [] else c ∷ []
  keep c (d ∷ s) = c ∷ d ∷ s

  unfoldable pub rstrip_by : Text → Text
  rstrip_by [] = []
  rstrip_by (c ∷ s) = keep c (rstrip_by s)

-- `value.strip()`
unfoldable pub strip : Text → Text
unfolding lstrip_by rstrip_by
strip s = rstrip_by is_space (lstrip_by is_space s)

-- `value.lower()` on ASCII letters. Every other code point stays, so that a text of digits and the
-- letters from a to f comes only from such a text in either case.
unfoldable pub lower_char : ℕ → ℕ
lower_char c = if leb 65 c && leb c 90 then c + 32 else c

unfoldable pub lower : Text → Text
unfolding lower_char
lower [] = []
lower (c ∷ s) = lower_char c ∷ lower s

-- `a < b` on texts, by code points.
unfoldable pub text_ltb : Text → Text → Bool
text_ltb [] [] = Bool.false
text_ltb [] (d ∷ t) = Bool.true
text_ltb (c ∷ s) [] = Bool.false
text_ltb (c ∷ s) (d ∷ t) = ltb c d || (nat_beq c d && text_ltb s t)
