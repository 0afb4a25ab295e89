-- ===== src/Common/Validation.antt =====
-- common/validation.py
pub mod Names
pub mod Strip
mod Tests
use ps.Prelude.{
  ℕ, ◌≡◌, Bool, true, false, ◌||◌, List, [], ◌∷◌, any, length, ltb, leb, nat_beq, if◌then◌else◌,
}
use ps.Common.Text.{Text, strip}
use ps.Common.Errors.{Result, ok, err, value_error, raise_if, ◌>>◌, ◌>>=◌}

abbrev pub max_object_name_length : ℕ
max_object_name_length = 255

abbrev pub is_empty : Text → Bool
is_empty [] = true
is_empty (c ∷ s) = false

-- `ord(character) < 0x20 or ord(character) == 0x7F`
abbrev pub is_control : ℕ → Bool
is_control c = ltb c 0x20 || nat_beq c 0x7f

unfoldable pub normalize_object_name : Text → Result Text
unfolding strip
normalize_object_name value = do
  let normalized = strip value
  raise_if (is_empty normalized) value_error
  raise_if (ltb max_object_name_length (length normalized)) value_error
  raise_if (any is_control normalized) value_error
  ok normalized
