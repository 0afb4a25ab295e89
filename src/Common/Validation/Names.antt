-- ===== src/Common/Validation/Names.antt =====
-- The names that `normalize_object_name` accepts.
use ps.Prelude.{
  ◌≤◌, ◌<◌, ◌≡◌, ◌≢◌, ◌↔◌, refl, ap, ◌∙◌, subst, true, false, [], ◌∷◌, ◌++◌, All, any, length,
  arith,
}
use ps.Common.Text.{Text, is_space, lstrip_by, strip}
use ps.Common.Validation.Strip.{
  Starts, Ends, Starts-lstrip_by, Starts-rstrip_by, Ends-rstrip_by, lstrip_by-split,
  rstrip_by-split, between,
}
use ps.Common.Errors.{ok}
use ps.Common.Validation.{is_empty, is_control, normalize_object_name}

-- The name in the value: what stands between white space, not empty, of at most 255 characters,
-- none of them below 32 or 127, and with no white space at its ends.
pub record IsNameIn (value name : Text) : Type 0 where
  pub front : Text
  pub back : Text
  pub front_space : All (λ c. is_space c ≡ true) front
  pub back_space : All (λ c. is_space c ≡ true) back
  pub whole : value ≡ front ++ (name ++ back)
  pub starts : Starts is_space name
  pub ends : Ends is_space name
  pub long : 0 < length name
  pub short : length name ≤ 255
  pub printable : All (λ c. (32 ≤ c) × (c ≢ 127)) name

printable-any : (s : Text) → any is_control s ≡ false → All (λ c. (32 ≤ c) × (c ≢ 127)) s
printable-any [] h = tt
printable-any (c ∷ s) h = ((ground arith, ground arith), printable-any s (ground arith))

any-printable : (s : Text) → All (λ c. (32 ≤ c) × (c ≢ 127)) s → any is_control s ≡ false
any-printable [] all = refl
any-printable (c ∷ s) ((low, other), all) = let rest = any-printable s all in ground arith

long-is_empty : (s : Text) → is_empty s ≡ false → 0 < length s
long-is_empty [] h = cc
long-is_empty (c ∷ s) h = omega arith

is_empty-long : (s : Text) → 0 < length s → is_empty s ≡ false
is_empty-long [] h = absurd (omega arith)
is_empty-long (c ∷ s) h = refl

normalize_object_name-eq-ok :
    (value name : Text)
    → normalize_object_name value ≡ ok name
    → (strip value ≡ name)
      × (is_empty name ≡ false)
      × (length name ≤ 255)
      × (any is_control name ≡ false)
unfolding normalize_object_name
normalize_object_name-eq-ok value name h = ground arith

accepted :
    (value name : Text)
    → strip value ≡ name
    → is_empty name ≡ false
    → length name ≤ 255
    → any is_control name ≡ false
    → normalize_object_name value ≡ ok name
unfolding normalize_object_name
accepted value name e full short printable = ground arith

-- `normalize_object_name` accepts a value just if a name stands in it between white space, and then
-- it returns that name: not empty, at most 255 characters, none of them a control character (below
-- 32, or 127), with no white space at its ends.
pub normalize_object_name_accepts :
    (value name : Text) → (normalize_object_name value ≡ ok name) ↔ IsNameIn value name
unfolding strip
normalize_object_name_accepts value name = (
  λ h.
      let (stripped, full, short, printable) = normalize_object_name-eq-ok value name h in
      let (front, front_space, first) = lstrip_by-split is_space value in
      let (back, back_space, last) = rstrip_by-split is_space (lstrip_by is_space value) in
      record {
        front = front;
        back = back;
        front_space = front_space;
        back_space = back_space;
        whole =
            first ∙ ap (λ (t : Text). front ++ t) (last ∙ ap (λ (t : Text). t ++ back) stripped);
        starts = subst (Starts is_space) stripped (
            Starts-rstrip_by is_space (lstrip_by is_space value) (Starts-lstrip_by is_space value));
        ends = subst (Ends is_space) stripped (Ends-rstrip_by is_space (lstrip_by is_space value));
        long = long-is_empty name full;
        short = short;
        printable = printable-any name printable;
      },
  λ n.
      accepted value name
        (ap strip n.whole
          ∙ between is_space n.front name n.back n.front_space n.starts n.ends n.back_space n.long)
        (is_empty-long name n.long) n.short (any-printable name n.printable),
)
