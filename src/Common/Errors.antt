-- ===== src/Common/Errors.antt =====
-- common/errors.py, and results that may be an exception. Messages are not modelled.
use ps.Prelude.{ℕ, ◌≡◌, refl, Bool, true, false, Option, none, some}
use ps.Common.Constants.{ErrorCode}

-- `class VaultError`, with a constructor for each class that extends it and for itself.
pub data VaultError : Type 0 where
  not_found already_exists invalid_state unauthorized : VaultError
  version_conflict : Option ℕ → Option ℕ → VaultError
  checksum_mismatch payload_too_large : VaultError
  plain : ErrorCode → ℕ → VaultError

abbrev pub code : VaultError → ErrorCode
code VaultError.not_found = ErrorCode.object_not_found
code VaultError.already_exists = ErrorCode.object_already_exists
code VaultError.invalid_state = ErrorCode.invalid_request
code VaultError.unauthorized = ErrorCode.unauthorized
code (VaultError.version_conflict expected actual) = ErrorCode.version_conflict
code VaultError.checksum_mismatch = ErrorCode.checksum_mismatch
code VaultError.payload_too_large = ErrorCode.payload_too_large
code (VaultError.plain c s) = c

abbrev pub status_code : VaultError → ℕ
status_code VaultError.not_found = 404
status_code VaultError.already_exists = 409
status_code VaultError.invalid_state = 409
status_code VaultError.unauthorized = 401
status_code (VaultError.version_conflict expected actual) = 409
status_code VaultError.checksum_mismatch = 409
status_code VaultError.payload_too_large = 413
status_code (VaultError.plain c s) = s

-- replication/node_client.py: the classes that extend `StorageNodeClientError`.
pub data NodeError : Type 0 where
  unavailable invalid_request object_missing object_exists : NodeError
  insufficient_capacity protocol integrity : NodeError

-- What is raised: a domain error, an error of the client of a storage node, Python's `ValueError`
-- or `TypeError`, or the database's refusal of a row.
pub data Failure : Type 0 where
  vault : VaultError → Failure
  node_error : NodeError → Failure
  value_error type_error integrity_error : Failure

pub data Result {ℓ} (A : Type ℓ) : Type ℓ where
  err : Failure → Result A
  ok : A → Result A

-- `if condition: raise failure`
abbrev pub raise_if : Bool → Failure → Result (Unit {0})
raise_if true failure = err failure
raise_if false failure = ok tt

-- `if found is None: raise failure`
abbrev pub or_raise {ℓ} : {A : Type ℓ} → Option A → Failure → Result A
or_raise none failure = err failure
or_raise (some a) failure = ok a

-- What follows a step is skipped when the step raises.
infixl 5 ◌>>=◌ ◌>>◌
abbrev pub ◌>>=◌ {ℓ κ} : {A : Type ℓ} {B : Type κ} → Result A → (A → Result B) → Result B
err failure >>= next = err failure
ok value >>= next = next value

abbrev pub ◌>>◌ {κ} : {B : Type κ} → Result (Unit {0}) → Result B → Result B
step >> next = step >>= λ done. next

-- Inversion of a step that did not raise.
pub >>=-eq-ok {ℓ κ} :
    {A : Type ℓ} {B : Type κ} (step : Result A) (next : A → Result B) {b : B}
    → (step >>= next) ≡ ok b
    → (a : A) × (step ≡ ok a) × (next a ≡ ok b)
>>=-eq-ok (err failure) next h = cc
>>=-eq-ok (ok value) next h = (value, refl, h)
