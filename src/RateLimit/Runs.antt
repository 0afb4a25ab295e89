-- ===== src/RateLimit/Runs.antt =====
-- A run of calls of `allow`, from a new limiter.
use ps.Prelude.{
  ℕ, ◌+◌, ◌≤◌, ◌<◌, ◌≡◌, ◌∙◌, refl, ap, Bool, true, false, Option, none, some, List, [], ◌∷◌, ◌++◌,
  length, arith, if◌then◌else◌, leb, nat_eq, text_eq, ◌==◌, text_beq_iff, Bool-cases, inl, inr,
}
use ps.Common.Text.{Text}
use ps.Common.Errors.{ok, err, value_error}
use ps.Common.Validation.{is_empty}
use ps.Metadata.Checks.{mem}
use ps.RateLimit.{Limiter, events_of, put_events, drop_expired, bounded, decide, allow, new_limiter}
use ps.RateLimit.Bounded.{length-put_any}
use ps.RateLimit.Events.{Tracks}
use ps.RateLimit.Calls.{
  Call, answers, answers-ok, answers-err, times_of, is_granted, granted_after, expected, Ordered,
  times_of-append,
}
use ps.RateLimit.Room.{unknown, room-put}
use ps.RateLimit.Window.{allow_decides, allow-Tracks}

-- The limiter has the settings, room for all of the names, and tracks every client up to some time.
record Follows (limit window : ℕ) (names : List Text) (last : ℕ) (granted : List Call) (l : Limiter)
    : Type 0 where
  same_limit : l.limit ≡ limit
  same_window : l.window ≡ window
  room : length l.clients + unknown names l.clients ≤ l.max_clients
  tracks : (k : Text) → (s : ℕ) × (s ≤ last) × Tracks k l s (times_of k granted)

module _ (limit window : ℕ) (names : List Text) (limited : 0 < limit) (open_ : 0 < window) where
  times_of-after :
      (k : Text) (granted : List Call) (call : Call)
      → is_empty call.0 ≡ false
      → times_of k (granted_after limit window granted call) ≡ (
          if call.0 == k
          then (if is_granted limit window granted call
              then times_of k granted ++ (call.1 ∷ [])
              else times_of k granted)
          else times_of k granted)
  times_of-after k granted call named = ground (arith, times_of-append k granted call)

  allow_named :
      (call : Call) (l : Limiter)
      → is_empty call.0 ≡ false
      → (r : (Bool × ℕ) × Limiter) × (allow call.0 call.1 l ≡ ok r)
  unfolding allow
  allow_named call l named = (
    if l.limit == 0
        then ((true, 0), l)
        else decide call.0 call.1 l (drop_expired l.window call.1 (events_of call.0 l.clients)),
    rw named refl,
  )

  allow_blank :
      (call : Call) (l : Limiter) → is_empty call.0 ≡ true → allow call.0 call.1 l ≡ err value_error
  unfolding allow
  allow_blank call l blank = rw blank refl

  -- Without an eviction a call writes the entry of its client.
  writes :
      (call : Call) (l : Limiter) (r : (Bool × ℕ) × Limiter)
      → 0 < l.limit
      → length (put_events call.0 [] l.clients) ≤ l.max_clients
      → allow call.0 call.1 l ≡ ok r
      → (r.1.limit ≡ l.limit)
        × (r.1.window ≡ l.window)
        × (r.1.max_clients ≡ l.max_clients)
        × ((events : List ℕ) × (r.1.clients ≡ put_events call.0 events l.clients))
  unfolding allow decide bounded
  writes call l r positive fits e =
      let live = drop_expired l.window call.1 (events_of call.0 l.clients) in
      let size = length-put_any call.0 (live ++ (call.1 ∷ [])) [] l.clients in
      elim (Bool-cases (leb l.limit (length live))) [
        | inl full ↦ (ground arith, ground arith, ground arith, (live, ground arith))
        | inr free ↦ (
          ground arith,
          ground arith,
          ground arith,
          (live ++ (call.1 ∷ []), ground (arith, size)),
        )
      ]

  Tracks-after :
      (last : ℕ) (granted : List Call) (call : Call) (l : Limiter) (r : (Bool × ℕ) × Limiter)
      → Follows limit window names last granted l
      → last ≤ call.1
      → is_empty call.0 ≡ false
      → length (put_events call.0 [] l.clients) ≤ l.max_clients
      → allow call.0 call.1 l ≡ ok r
      → r.0.0 ≡ is_granted limit window granted call
      → (k : Text)
      → (s : ℕ) × (s ≤ call.1)
        × Tracks k r.1 s (times_of k (granted_after limit window granted call))
  Tracks-after last granted call l r f later named fits e answered k =
      let (s, before, tracks) = f.tracks k in
      let after = times_of-after k granted call named in
      elim (allow-Tracks call.0 k call.1 s l (times_of k granted) r (rw f.same_limit limited)
        (rw f.same_window open_) fits tracks (omega arith) e) [
          | inl (same, kept) ↦
              (call.1, omega arith, rw (after, (text_beq_iff call.0 k).1 same, ← answered) kept)
          | inr (other, kept) ↦
              let miss : (call.0 == k) ≡ false = ground (arith, text_beq_iff call.0 k) in
              (s, omega arith, rw (after, miss) kept)
        ]

  -- One call: the answer is the reference's, and the limiter follows the reference.
  Follows-call :
      (last : ℕ) (granted : List Call) (call : Call) (l : Limiter) (r : (Bool × ℕ) × Limiter)
      → Follows limit window names last granted l
      → last ≤ call.1
      → mem call.0 names ≡ true
      → is_empty call.0 ≡ false
      → allow call.0 call.1 l ≡ ok r
      → (r.0.0 ≡ is_granted limit window granted call)
        × Follows limit window names call.1 (granted_after limit window granted call) r.1
  Follows-call last granted call l r f later member named e =
      let (s, before, tracks) = f.tracks call.0 in
      let fits : length (put_events call.0 [] l.clients) ≤ l.max_clients =
        omega (arith, room-put names call.0 [] l.clients member, f.room) in
      let (same_limit, same_window, same_max, (events, clients)) =
        writes call l r (rw f.same_limit limited) fits e in
      let answered : r.0.0 ≡ is_granted limit window granted call =
        rw (← f.same_limit, ← f.same_window)
          (allow_decides call.0 call.1 s l (times_of call.0 granted) r (rw f.same_limit limited)
            (rw f.same_window open_) tracks (omega arith) e) in
      let bound = room-put names call.0 events l.clients member in
      (
        answered,
        record {
          same_limit = same_limit ∙ f.same_limit;
          same_window = same_window ∙ f.same_window;
          room = rw (clients, same_max) (omega (arith, bound, f.room));
          tracks = Tracks-after last granted call l r f later named fits e answered;
        },
      )

  Follows-later :
      (last now : ℕ) (granted : List Call) (l : Limiter)
      → Follows limit window names last granted l
      → last ≤ now
      → Follows limit window names now granted l
  Follows-later last now granted l f later = record {
    same_limit = f.same_limit;
    same_window = f.same_window;
    room = f.room;
    tracks = λ k. let (s, before, tracks) = f.tracks k in (s, omega arith, tracks);
  }

  answers-expected :
      (calls : List Call) (last : ℕ) (granted : List Call) (l : Limiter)
      → Follows limit window names last granted l
      → Ordered last names calls
      → answers l calls ≡ expected limit window granted calls
  unfolding answers expected
  answers-expected [] last granted l f ordered = refl
  answers-expected (call ∷ calls) last granted l f (later, member, ordered) =
      elim (Bool-cases (is_empty call.0)) [
        | inl blank ↦
            let refused : allow call.0 call.1 l ≡ err value_error = allow_blank call l blank in
            answers-err call calls l refused
            ∙ rw blank (
                ap (λ (os : List (Option Bool)). none ∷ os)
                  (answers-expected calls call.1 granted l
                    (Follows-later last call.1 granted l f later) ordered))
        | inr named ↦
            let (r, made) = allow_named call l named in
            let (answered, follows) =
              Follows-call last granted call l r f later member named made in
            let rest =
              answers-expected calls call.1 (granted_after limit window granted call) r.1 follows
                ordered in
            answers-ok call calls l r made
            ∙ rw named (
                ap (λ (b : Bool). some b ∷ answers r.1 calls) answered
                ∙ ap (λ (os : List (Option Bool)). some (is_granted limit window granted call) ∷ os)
                    (rw named at rest))
      ]

unknown_all : (names : List Text) → unknown names [] ≡ length names
unknown_all [] = refl
unknown_all (n ∷ names) = omega (arith, unknown_all names)

new-Tracks :
    (k : Text) (limit window ticks max_clients : ℕ)
    → Tracks k
        (record {
          limit = limit;
          window = window;
          ticks = ticks;
          max_clients = max_clients;
          clients = [];
        })
        0
        []
unfolding events_of
new-Tracks k limit window ticks max_clients = record {
  ascending = tt;
  past = tt;
  held = refl;
  within = omega arith;
}

-- A new limiter with a positive limit and window answers calls that come in order of time as the
-- reference does, which remembers all grants, as long as they come from at most `max_clients`
-- different clients: each is granted exactly if fewer than `limit` calls of its client were granted in
-- the window that ends with it, and a blank client raises.
pub run_decides :
    (limit window ticks max_clients : ℕ) (names : List Text) (calls : List Call) (l : Limiter)
    → 0 < limit
    → length names ≤ max_clients
    → Ordered 0 names calls
    → new_limiter limit window ticks max_clients ≡ ok l
    → answers l calls ≡ expected limit window [] calls
unfolding new_limiter
run_decides limit window ticks max_clients names calls l limited few ordered made =
    let open_ : 0 < window = ground arith in
    let start : l ≡ record {
      limit = limit;
      window = window;
      ticks = ticks;
      max_clients = max_clients;
      clients = [];
    } =
      ground arith in
    rw start (
      answers-expected limit window names limited open_ calls 0 [] _
        (record {
          same_limit = refl;
          same_window = refl;
          room = omega (arith, unknown_all names);
          tracks = λ k. (0, omega arith, new-Tracks k limit window ticks max_clients);
        })
        ordered)
