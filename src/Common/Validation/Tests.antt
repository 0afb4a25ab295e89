-- ===== src/Common/Validation/Tests.antt =====
-- A name that is accepted.
use ps.Prelude.{◌≡◌, ◌↔◌, refl, [], ◌∷◌}
use ps.Common.Text.{Text, strip, lstrip_by, rstrip_by, is_space}
use ps.Common.Errors.{ok}
use ps.Common.Validation.{normalize_object_name}
use ps.Common.Validation.Names.{IsNameIn, normalize_object_name_accepts}

abbrev padded : Text
padded = b' ' ∷ b'a' ∷ b' ' ∷ b'b' ∷ 10 ∷ []

abbrev bare : Text
bare = b'a' ∷ b' ' ∷ b'b' ∷ []

normalize_object_name_accepts_example :
    (normalize_object_name padded ≡ ok bare) ↔ IsNameIn padded bare
normalize_object_name_accepts_example = normalize_object_name_accepts padded bare

bare-accepted : normalize_object_name padded ≡ ok bare
unfolding normalize_object_name strip lstrip_by rstrip_by is_space
bare-accepted = refl

bare-IsNameIn : IsNameIn padded bare
bare-IsNameIn = (normalize_object_name_accepts padded bare).0 bare-accepted
