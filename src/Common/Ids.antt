-- ===== src/Common/Ids.antt =====
-- common/ids.py: identifiers of requests. The UUID that `uuid4` returns is an argument.
pub mod Requests
mod Tests
use ps.Prelude.{
  ℕ, zero, suc, ◌+◌, ◌/◌, ◌%◌, Bool, not, ◌&&◌, ◌||◌, Option, none, some, List, [], ◌∷◌, ◌++◌, any,
  length, if◌then◌else◌, ltb, leb, nat_beq,
}
use ps.Common.Text.{Text, strip}
use ps.Common.Errors.{Result, ok, value_error, raise_if, ◌>>◌, ◌>>=◌}
use ps.Common.Validation.{is_empty}

-- `uuid.hex`: the number in 32 hexadecimal digits.
abbrev pub hex_digit : ℕ → ℕ
hex_digit d = if ltb d 10 then 48 + d else 87 + d

unfoldable pub hex : ℕ → ℕ → Text
hex zero n = []
hex (suc digits) n = hex digits (n / 16) ++ (hex_digit (n % 16) ∷ [])

-- `[A-Za-z0-9_.:-]`; the code point of `:` follows that of `9`.
unfoldable pub is_id_char : ℕ → Bool
is_id_char c =
    (leb 65 c && leb c 90)
    || (leb 97 c && leb c 122)
    || (leb 48 c && leb c 58)
    || nat_beq c 95
    || nat_beq c 46
    || nat_beq c 45

-- `_REQUEST_ID_RE.fullmatch(value) is not None`
unfoldable pub is_request_id : Text → Bool
is_request_id value =
    not (is_empty value) && leb (length value) 64 && not (any (λ c. not (is_id_char c)) value)

-- `f"req_{uuid4().hex}"`
unfoldable pub new_request_id : ℕ → Text
unfolding hex
new_request_id uuid = b'r' ∷ b'e' ∷ b'q' ∷ b'_' ∷ hex 32 uuid

unfoldable pub validate_request_id : Text → Result Text
validate_request_id value = do raise_if (not (is_request_id value)) value_error; ok value

-- `value.strip() if isinstance(value, str) else ""`
abbrev pub candidate_id : Option Text → Text
candidate_id none = []
candidate_id (some value) = strip value

unfoldable pub normalize_request_id : Option Text → ℕ → Text
normalize_request_id value uuid =
    if is_request_id (candidate_id value) then candidate_id value else new_request_id uuid
