-- ===== src/Common/Ids/Requests.antt =====
-- Every request identifier that `normalize_request_id` makes is a valid one.
use ps.Prelude.{
  ℕ, zero, suc, ◌/◌, ◌%◌, ◌<◌, ◌≡◌, refl, Bool, true, false, not, Option, [], ◌∷◌, ◌++◌, any,
  length, length-append, arith,
}
use ps.Common.Text.{Text}
use ps.Common.Errors.{ok}
use ps.Common.Ids.{
  hex, hex_digit, is_id_char, is_request_id, new_request_id, validate_request_id,
  normalize_request_id,
}

hex_digit-is_id_char : (d : ℕ) → d < 16 → is_id_char (hex_digit d) ≡ true
unfolding is_id_char
hex_digit-is_id_char d h = ground arith

length-hex : (digits n : ℕ) → length (hex digits n) ≡ digits
unfolding hex
length-hex zero n = refl
length-hex (suc digits) n = omega (
  arith,
  length-append (hex digits (n / 16)) (hex_digit (n % 16) ∷ []),
  length-hex digits (n / 16),
)

any-append :
    (p : ℕ → Bool) (s t : Text) → any p s ≡ false → any p t ≡ false → any p (s ++ t) ≡ false
any-append p [] t hs ht = ht
any-append p (c ∷ s) t hs ht = ground (arith, any-append p s t)

any-hex : (digits n : ℕ) → any (λ c. not (is_id_char c)) (hex digits n) ≡ false
unfolding hex
any-hex zero n = refl
any-hex (suc digits) n =
    any-append (λ c. not (is_id_char c)) (hex digits (n / 16)) (hex_digit (n % 16) ∷ [])
      (any-hex digits (n / 16)) (ground (arith, hex_digit-is_id_char (n % 16)))

new_request_id-is_request_id : (uuid : ℕ) → is_request_id (new_request_id uuid) ≡ true
unfolding new_request_id is_request_id is_id_char
new_request_id-is_request_id uuid = ground (arith, any-hex 32 uuid, length-hex 32 uuid)

-- Whatever a client sends as its request identifier, the normalized one is valid: validation
-- returns it unchanged.
pub normalize_request_id_valid :
    (value : Option Text) (uuid : ℕ)
    → validate_request_id (normalize_request_id value uuid) ≡ ok (normalize_request_id value uuid)
unfolding validate_request_id normalize_request_id
normalize_request_id_valid value uuid = ground (arith, new_request_id-is_request_id uuid)
