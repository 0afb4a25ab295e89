-- ===== src/Common/Ids/Tests.antt =====
-- An identifier that has to be replaced.
use ps.Prelude.{◌≡◌, some, [], ◌∷◌}
use ps.Common.Errors.{ok}
use ps.Common.Ids.{validate_request_id, normalize_request_id}
use ps.Common.Ids.Requests.{normalize_request_id_valid}

normalize_request_id_valid_example :
    validate_request_id (normalize_request_id (some (b'a' ∷ b'/' ∷ [])) 5)
    ≡ ok (normalize_request_id (some (b'a' ∷ b'/' ∷ [])) 5)
normalize_request_id_valid_example = normalize_request_id_valid (some (b'a' ∷ b'/' ∷ [])) 5
