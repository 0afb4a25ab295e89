-- ===== src/RateLimit/Retry.antt =====
-- The time that a refused client is told to wait.
use native.Mathlib.Nat.{lt-div-mul-add, mul-le-mul_right}
use ps.Prelude.{
  ℕ, ◌+◌, ◌-◌, ◌*◌, ◌≤◌, ◌<◌, ◌≡◌, ap, ◌∙◌, true, false, List, [], ◌∷◌, ◌++◌, length, arith,
  text_eq, max,
}
use ps.Common.Text.{Text}
use ps.Common.Errors.{ok}
use ps.Common.Validation.{is_empty}
use ps.RateLimit.Bounded.{length-drop_expired}
use ps.RateLimit.{
  Limiter, events_of, put_events, drop_expired, bounded, decide, allow, ceil_div, retry_after,
}
use ps.RateLimit.Events.{length-select_later, events_of-put, Tracks, live-now}

ceil-enough : (n ticks : ℕ) → 0 < ticks → n ≤ ceil_div n ticks * ticks
ceil-enough n ticks h = omega (arith, lt-div-mul-add {a = n + (ticks - 1)} {b = ticks} h)

waited-enough : (n s ticks : ℕ) → 0 < ticks → ceil_div n ticks ≤ s → n ≤ s * ticks
waited-enough n s ticks h le = omega (arith, ceil-enough n ticks h, mul-le-mul_right ticks le)

-- After the wait at least the oldest event has expired.
drop-waited :
    (l : Limiter) (now : ℕ) (ts : List ℕ)
    → 0 < l.ticks
    → 0 < length ts
    → length (drop_expired l.window (now + retry_after l now ts * l.ticks) ts) < length ts
unfolding drop_expired retry_after
drop-waited l now [] ticking h = omega arith
drop-waited l now (t ∷ ts) ticking h =
    let c = ceil_div ((l.window + t) - now) l.ticks in
    let enough = waited-enough ((l.window + t) - now) (max 1 c) l.ticks ticking (omega arith) in
    let shorter = length-drop_expired l.window (now + max 1 c * l.ticks) ts in ground arith

refused-eq-ok :
    (client_key : Text) (now : ℕ) (l : Limiter) {seconds : ℕ} {l' : Limiter}
    → allow client_key now l ≡ ok ((false, seconds), l')
    → (is_empty client_key ≡ false)
      × (l.limit ≤ length (drop_expired l.window now (events_of client_key l.clients)))
      × (seconds ≡ retry_after l now (drop_expired l.window now (events_of client_key l.clients)))
      × (l' ≡ record l {
        clients =
            put_events client_key
              (drop_expired l.window now (events_of client_key l.clients))
              l.clients;
      })
unfolding allow decide
refused-eq-ok client_key now l e = ground arith

granted :
    (client_key : Text) (now : ℕ) (l : Limiter)
    → is_empty client_key ≡ false
    → length (drop_expired l.window now (events_of client_key l.clients)) < l.limit
    → allow client_key now l
      ≡ ok (
        (true, 0),
        record l {
          clients = bounded l.max_clients (
              put_events client_key
                (drop_expired l.window now (events_of client_key l.clients) ++ (now ∷ []))
                l.clients);
        },
      )
unfolding allow decide
granted client_key now l named h = ground arith

-- A client that the limiter tracks, was refused, and waits as long as it was told is granted its
-- next request.
pub retry_after_suffices :
    (client_key : Text) (now last : ℕ) (l : Limiter) (history : List ℕ) (seconds : ℕ) (l' : Limiter)
    → 0 < l.limit
    → 0 < l.ticks
    → Tracks client_key l last history
    → last ≤ now
    → allow client_key now l ≡ ok ((false, seconds), l')
    → (l'' : Limiter) × (allow client_key (now + seconds * l.ticks) l' ≡ ok ((true, 0), l''))
retry_after_suffices client_key now last l history seconds l' limited ticking tracks later refused =
    let (named, full, wait, e) = refused-eq-ok client_key now l refused in
    let live = drop_expired l.window now (events_of client_key l.clients) in
    let here : events_of client_key l'.clients ≡ live =
      ap (λ (x : Limiter). events_of client_key x.clients) e
      ∙ events_of-put client_key live l.clients in
    let shorter = drop-waited l now live ticking (omega arith) in
    let few : length live ≤ l.limit =
      rw (live-now client_key now last l history tracks later)
        (omega (arith, tracks.within, length-select_later l.window last now history later)) in
    let window : l'.window ≡ l.window = ap (λ (x : Limiter). x.window) e in
    let limit : l'.limit ≡ l.limit = ap (λ (x : Limiter). x.limit) e in
    (
      _,
      granted client_key (now + seconds * l.ticks) l' named
          (rw (here, window, limit, wait) (omega (arith, shorter, few))),
    )
