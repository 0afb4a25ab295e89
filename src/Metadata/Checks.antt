-- ===== src/Metadata/Checks.antt =====
-- metadata/manager.py: the checks that several operations share, and the transaction around each.
use ps.Prelude.{
  ◌≡◌, refl, ℕ, ℤ, pos, negsuc, Bool, true, not, ◌&&◌, ◌||◌, Option, none, some, List, Eq, ◌==◌,
  if◌then◌else◌, any, is_some, length, leb, nat_eq,
}
use ps.Table.{find, add}
use ps.Common.Text.{Text, strip, lower}
use ps.Common.Errors.{Result, ok, err, value_error, integrity_error, raise_if, ◌>>◌}
use ps.Common.Validation.{is_empty}
use ps.Metadata.Models.{Database}

-- `with self._transaction()`: what raises leaves the tables as they were.
unfoldable pub transaction {ℓ} :
    {A : Type ℓ} → (Database → Result (A × Database)) → Database → Result A × Database
transaction operation db = elim (operation db) [ ok r ↦ (ok r.0, r.1) | err e ↦ (err e, db) ]

-- What holds before, and after each way in which the operation returns, holds after the transaction.
pub transaction_rule {ℓ κ} :
    {A : Type ℓ} (P : Database → Type κ) (operation : Database → Result (A × Database))
    (db : Database)
    → P db
    → ((r : A × Database) → operation db ≡ ok r → P r.1)
    → P (transaction operation db).1
unfolding transaction
transaction_rule {A} P operation db before after = go (operation db) after
  where
    go :
        (o : Result (A × Database))
        → ((r : A × Database) → o ≡ ok r → P r.1)
        → P (elim o as (λ _. Result A × Database) [ ok r ↦ (ok r.0, r.1) | err e ↦ (err e, db) ]).1
    go (ok r) f = f r refl
    go (err e) f = before

abbrev pub non_negative : ℤ → Result ℕ
non_negative (pos n) = ok n
non_negative (negsuc n) = err value_error

-- `ch in "0123456789abcdef"`
abbrev pub is_hex : ℕ → Bool
is_hex c = (leb 48 c && leb c 57) || (leb 97 c && leb c 102)

unfoldable pub validate_checksum : Text → Result Text
unfolding lower
validate_checksum checksum = do
  raise_if (not (length checksum == 64)) value_error
  let normalized = lower checksum
  raise_if (any (λ ch. not (is_hex ch)) normalized) value_error
  ok normalized

abbrev pub validate_expected_version : Option ℤ → Result (Option ℕ)
validate_expected_version none = ok none
validate_expected_version (some (pos n)) = ok (some n)
validate_expected_version (some (negsuc n)) = err value_error

-- A brand-new object has logical current version 0.
abbrev pub number_or_zero : Option ℕ → ℕ
number_or_zero none = 0
number_or_zero (some n) = n

abbrev pub expected_matches : Option ℕ → Option ℕ → Bool
expected_matches none current = true
expected_matches (some expected) current = number_or_zero current == expected

-- `not value.strip()`
abbrev pub is_blank : Text → Bool
is_blank value = is_empty (strip value)

-- `x in xs`
abbrev pub mem {ℓ} : {A : Type ℓ} ⦃e : Eq A⦄ → A → List A → Bool
mem x xs = any (λ y. y == x) xs

-- `session.add(row)` and the flush that follows, which the table's primary key may refuse.
abbrev pub flush_new {ℓ κ} :
    {R : Type ℓ} {K : Type κ} ⦃e : Eq K⦄ → (R → K) → R → List R → Result (List R)
flush_new key r rows =
    if is_some (find key (key r) rows) then err integrity_error else ok (add r rows)
