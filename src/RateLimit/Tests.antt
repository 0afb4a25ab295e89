-- ===== src/RateLimit/Tests.antt =====
-- A limiter that grants two requests in ten seconds, of a thousand ticks each.
use ps.Prelude.{
  ℕ, ◌+◌, ◌*◌, ◌≤◌, ◌≡◌, refl, true, false, some, List, [], ◌∷◌, length, select, ltb, arith,
  text_beq,
}
use ps.Common.Text.{Text}
use ps.Common.Errors.{ok}
use ps.RateLimit.{
  Client, Limiter, allow, decide, bounded, evict_one_empty_client, remove_empty, events_of,
  put_events, drop_expired, retry_after,
}
use ps.RateLimit.{new_limiter}
use ps.RateLimit.Events.{Tracks, is_live}
use ps.RateLimit.Window.{allow_decides}
use ps.RateLimit.Calls.{Call, answers, expected, Ordered}
use ps.RateLimit.Runs.{run_decides}
use ps.RateLimit.Retry.{retry_after_suffices}
use ps.RateLimit.Bounded.{allow_is_bounded}

abbrev client : Text
client = b'c' ∷ []

abbrev limiter : List ℕ → Limiter
limiter events = record {
  limit = 2;
  window = 10000;
  ticks = 1000;
  max_clients = 3;
  clients = record { client_key = client; events = events } ∷ [];
}

-- One request in ten ticks, and one client at a time.
abbrev narrow : List Client → Limiter
narrow clients = record { limit = 1; window = 10; ticks = 1; max_clients = 1; clients = clients }

abbrev only : ℕ → ℕ → List Client
only name now = record { client_key = name ∷ []; events = now ∷ [] } ∷ []

-- The client b evicts the client a, who is granted two requests in one window.
eviction :
    (allow (b'a' ∷ []) 0 (narrow []) ≡ ok ((true, 0), narrow (only b'a' 0)))
    × (allow (b'b' ∷ []) 1 (narrow (only b'a' 0)) ≡ ok ((true, 0), narrow (only b'b' 1)))
    × (allow (b'a' ∷ []) 2 (narrow (only b'b' 1)) ≡ ok ((true, 0), narrow (only b'a' 2)))
unfolding allow decide bounded evict_one_empty_client remove_empty events_of put_events drop_expired
    retry_after text_beq
eviction = (refl, refl, refl)

abbrev used : Limiter
used = limiter (2500 ∷ 3000 ∷ [])

abbrev history : List ℕ
history = 100 ∷ 2500 ∷ 3000 ∷ []

tracked : Tracks client used 11000 history
unfolding events_of text_beq
tracked = record {
  ascending = ((omega arith, (omega arith, tt)), ((omega arith, tt), (tt, tt)));
  past = (omega arith, (omega arith, (omega arith, tt)));
  held = refl;
  within = omega arith;
}

refusal : allow client 11500 used ≡ ok ((false, 1), used)
unfolding allow decide events_of put_events drop_expired retry_after text_beq
refusal = refl

granting : allow client 12500 used ≡ ok ((true, 0), limiter (3000 ∷ 12500 ∷ []))
unfolding allow decide bounded events_of put_events drop_expired retry_after text_beq
granting = refl

allow_decides_example : true ≡ ltb (length (select (is_live 10000 12500) history)) 2
allow_decides_example =
    allow_decides client 12500 11000 used history ((true, 0), limiter (3000 ∷ 12500 ∷ []))
      (omega arith) (omega arith) tracked (omega arith) granting

-- Two clients, each with one request in ten ticks.
abbrev calls : List Call
calls = (b'a' ∷ [], 0) ∷ (b'b' ∷ [], 1) ∷ (b'a' ∷ [], 2) ∷ (b'a' ∷ [], 10) ∷ (b'b' ∷ [], 10) ∷ []

abbrev fresh : Limiter
fresh = record { limit = 1; window = 10; ticks = 1; max_clients = 2; clients = [] }

calls-Ordered : Ordered 0 ((b'a' ∷ []) ∷ (b'b' ∷ []) ∷ []) calls
unfolding text_beq
calls-Ordered = (
  omega arith,
  refl,
  (omega arith, refl, (omega arith, refl, (omega arith, refl, (omega arith, refl, tt)))),
)

run_decides_example :
    answers fresh calls ≡ some true ∷ some true ∷ some false ∷ some true ∷ some false ∷ []
unfolding expected text_beq new_limiter
run_decides_example =
    run_decides 1 10 1 2 ((b'a' ∷ []) ∷ (b'b' ∷ []) ∷ []) calls fresh (omega arith) (omega arith)
      calls-Ordered refl

retry_after_suffices_example :
    (l : Limiter) × (allow client (11500 + 1 * 1000) used ≡ ok ((true, 0), l))
retry_after_suffices_example =
    retry_after_suffices client 11500 11000 used history 1 used (omega arith) (omega arith) tracked
      (omega arith) refusal

allow_is_bounded_example :
    (used.max_clients ≡ 3) × (length (limiter (3000 ∷ 12500 ∷ [])).clients ≤ 3)
allow_is_bounded_example =
    allow_is_bounded client 12500 used ((true, 0), limiter (3000 ∷ 12500 ∷ [])) (omega arith)
      (omega arith) granting
