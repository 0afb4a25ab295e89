-- ===== src/RateLimit.antt =====
-- common/rate_limit.py: the sliding-window rate limiter of the gateway. A time is a number of
-- ticks of the monotonic clock, `ticks` of them a second: the rounding of Python's floats is not
-- modelled. The lock around `allow` makes its calls a sequence.
pub mod Events
pub mod Window
pub mod Retry
pub mod Bounded
pub mod Calls
pub mod Room
pub mod Runs
mod Tests
use ps.Prelude.{
  ℕ, zero, suc, ◌+◌, ◌-◌, ◌/◌, Bool, true, false, Option, none, some, List, [], ◌∷◌, ◌++◌,
  if◌then◌else◌, length, max, ltb, leb, nat_beq, text_eq, ◌==◌,
}
use ps.Common.Text.{Text}
use ps.Common.Errors.{Result, ok, err, value_error, raise_if, ◌>>◌, ◌>>=◌}
use ps.Common.Validation.{is_empty}

-- An entry of `_events`, a dict in the order of insertion.
pub record Client : Type 0 where
  pub client_key : Text
  pub events : List ℕ

pub record Limiter : Type 0 where
  pub limit : ℕ
  pub window : ℕ
  pub ticks : ℕ
  pub max_clients : ℕ
  pub clients : List Client

-- `__init__`, for a limit and a bound that are not negative
unfoldable pub new_limiter : ℕ → ℕ → ℕ → ℕ → Result Limiter
new_limiter limit window ticks max_clients = do
  raise_if (nat_beq window 0) value_error
  raise_if (ltb max_clients 1) value_error
  ok (record {
    limit = limit;
    window = window;
    ticks = ticks;
    max_clients = max_clients;
    clients = [];
  })

-- `_events.setdefault(client_key, deque())` as it is read: what the client has.
unfoldable pub events_of : Text → List Client → List ℕ
events_of k [] = []
events_of k (c ∷ cs) = if c.client_key == k then c.events else events_of k cs

-- The dict with the events of a client replaced, at the end if it had none.
unfoldable pub put_events : Text → List ℕ → List Client → List Client
put_events k events [] = record { client_key = k; events = events } ∷ []
put_events k events (c ∷ cs) =
    if c.client_key == k
    then record { client_key = k; events = events } ∷ cs
    else c ∷ put_events k events cs

-- `while events and events[0] <= timestamp - window: events.popleft()`
unfoldable pub drop_expired : ℕ → ℕ → List ℕ → List ℕ
drop_expired window now [] = []
drop_expired window now (t ∷ ts) =
    let rest = drop_expired window now ts in if leb (t + window) now then rest else t ∷ ts

-- `ceil(n / ticks)`
abbrev pub ceil_div : ℕ → ℕ → ℕ
ceil_div n ticks = (n + (ticks - 1)) / ticks

-- `max(1, ceil(window_seconds - (timestamp - events[0])))`
unfoldable pub retry_after : Limiter → ℕ → List ℕ → ℕ
retry_after l now [] = 1
retry_after l now (t ∷ ts) = max 1 (ceil_div ((l.window + t) - now) l.ticks)

-- `_evict_one_empty_client`: the first client without events, else the first of all.
unfoldable pub remove_empty : List Client → Option (List Client)
remove_empty [] = none
remove_empty (c ∷ cs) =
    let rest = remove_empty cs in
    if nat_beq (length c.events) 0
    then some cs
    else elim rest [ none ↦ none | some rest' ↦ some (c ∷ rest') ]

abbrev pub without_first : List Client → List Client
without_first [] = []
without_first (c ∷ cs) = cs

unfoldable pub evict_one_empty_client : List Client → List Client
unfolding remove_empty
evict_one_empty_client cs = elim (remove_empty cs) [ none ↦ without_first cs | some rest ↦ rest ]

-- The clients after an event was appended.
unfoldable pub bounded : ℕ → List Client → List Client
unfolding evict_one_empty_client
bounded max_clients clients =
    if ltb max_clients (length clients) then evict_one_empty_client clients else clients

-- What follows the removal of the expired events.
unfoldable pub decide : Text → ℕ → Limiter → List ℕ → (Bool × ℕ) × Limiter
unfolding put_events retry_after bounded
decide client_key now l events =
    if leb l.limit (length events)
    then (
      (false, retry_after l now events),
      record l { clients = put_events client_key events l.clients },
    )
    else (
      (true, 0),
      record l {
        clients = bounded l.max_clients (put_events client_key (events ++ (now ∷ [])) l.clients);
      },
    )

-- `allow` at the time `now`.
unfoldable pub allow : Text → ℕ → Limiter → Result ((Bool × ℕ) × Limiter)
unfolding events_of drop_expired decide
allow client_key now l = do
  raise_if (is_empty client_key) value_error
  ok (
      if nat_beq l.limit 0
      then ((true, 0), l)
      else decide client_key now l (drop_expired l.window now (events_of client_key l.clients)))
