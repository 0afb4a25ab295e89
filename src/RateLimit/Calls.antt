-- ===== src/RateLimit/Calls.antt =====
-- Calls of `allow` one after another, and a reference that remembers every call that was granted.
use ps.Prelude.{
  ℕ, ◌≤◌, ◌≡◌, refl, Bool, true, Option, none, some, List, [], ◌∷◌, ◌++◌, length, arith,
  if◌then◌else◌, ltb, text_eq, ◌==◌, select,
}
use ps.Common.Text.{Text}
use ps.Common.Errors.{ok, err, value_error}
use ps.Common.Validation.{is_empty}
use ps.Metadata.Checks.{mem}
use ps.RateLimit.{Limiter, allow}
use ps.RateLimit.Events.{is_live}

-- A call of `allow`: the client, and the time.
abbrev pub Call : Type 0
Call = Text × ℕ

-- What the limiter answers to calls one after another: nothing where it raises.
unfoldable pub answers : Limiter → List Call → List (Option Bool)
answers l [] = []
answers l (call ∷ calls) = elim (allow call.0 call.1 l) [
  | ok r ↦ some r.0.0 ∷ answers r.1 calls
  | err e ↦ none ∷ answers l calls
]

pub answers-ok :
    (call : Call) (calls : List Call) (l : Limiter) (r : (Bool × ℕ) × Limiter)
    → allow call.0 call.1 l ≡ ok r
    → answers l (call ∷ calls) ≡ some r.0.0 ∷ answers r.1 calls
unfolding answers
answers-ok call calls l r h = ground arith

pub answers-err :
    (call : Call) (calls : List Call) (l : Limiter)
    → allow call.0 call.1 l ≡ err value_error
    → answers l (call ∷ calls) ≡ none ∷ answers l calls
unfolding answers
answers-err call calls l h = ground arith

-- The times of the calls of a client.
abbrev pub times_of : Text → List Call → List ℕ
times_of k [] = []
times_of k (call ∷ calls) = if call.0 == k then call.1 ∷ times_of k calls else times_of k calls

module _ (limit window : ℕ) where
  -- Fewer than `limit` calls of the client were granted in the window that ends with the call.
  abbrev pub is_granted : List Call → Call → Bool
  is_granted granted call =
      ltb (length (select (is_live window call.1) (times_of call.0 granted))) limit

  abbrev pub answer : List Call → Call → Option Bool
  answer granted call = if is_empty call.0 then none else some (is_granted granted call)

  abbrev pub granted_after : List Call → Call → List Call
  granted_after granted call =
      if is_empty call.0
      then granted
      else (if is_granted granted call then granted ++ (call ∷ []) else granted)

  -- The reference, which forgets nothing.
  unfoldable pub expected : List Call → List Call → List (Option Bool)
  expected granted [] = []
  expected granted (call ∷ calls) =
      answer granted call ∷ expected (granted_after granted call) calls

-- The calls come in order of time, from clients of a list.
abbrev pub Ordered : ℕ → List Text → List Call → Type 0
Ordered last names [] = Unit
Ordered last names (call ∷ calls) =
    (last ≤ call.1) × (mem call.0 names ≡ true) × Ordered call.1 names calls

pub times_of-append :
    (k : Text) (granted : List Call) (call : Call)
    → times_of k (granted ++ (call ∷ []))
      ≡ (if call.0 == k then times_of k granted ++ (call.1 ∷ []) else times_of k granted)
times_of-append k [] call = refl
times_of-append k (c ∷ granted) call = ground (arith, times_of-append k granted call)
