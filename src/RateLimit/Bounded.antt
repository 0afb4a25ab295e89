-- ===== src/RateLimit/Bounded.antt =====
-- The number of clients that the limiter remembers.
use ps.Prelude.{
  ℕ, suc, ◌≤◌, ◌<◌, ◌≡◌, refl, Bool, some, List, [], ◌∷◌, ◌++◌, length, arith, text_eq,
  Option-cases, inl, inr,
}
use ps.Common.Text.{Text}
use ps.Common.Errors.{ok}
use ps.RateLimit.{
  Client, Limiter, events_of, put_events, drop_expired, remove_empty, evict_one_empty_client,
  bounded, decide, allow,
}

length-put :
    (k : Text) (events : List ℕ) (cs : List Client)
    → length (put_events k events cs) ≤ suc (length cs)
unfolding put_events
length-put k events [] = omega arith
length-put k events (c ∷ cs) = ground (arith, length-put k events cs)

pub length-put_any :
    (k : Text) (events others : List ℕ) (cs : List Client)
    → length (put_events k events cs) ≡ length (put_events k others cs)
unfolding put_events
length-put_any k events others [] = refl
length-put_any k events others (c ∷ cs) = ground (arith, length-put_any k events others cs)

-- A client that has events is in the dict already.
length-put_known :
    (k : Text) (events : List ℕ) (cs : List Client)
    → 0 < length (events_of k cs)
    → length (put_events k events cs) ≡ length cs
unfolding put_events events_of
length-put_known k events [] h = ground arith
length-put_known k events (c ∷ cs) h = ground (arith, length-put_known k events cs)

pub length-drop_expired :
    (window now : ℕ) (ts : List ℕ) → length (drop_expired window now ts) ≤ length ts
unfolding drop_expired
length-drop_expired window now [] = omega arith
length-drop_expired window now (t ∷ ts) = ground (arith, length-drop_expired window now ts)

remove_empty-length :
    (cs : List Client) {rest : List Client}
    → remove_empty cs ≡ some rest
    → suc (length rest) ≡ length cs
unfolding remove_empty
remove_empty-length [] h = cc
remove_empty-length (c ∷ cs) h = elim (Option-cases (remove_empty cs)) [
  | inl e ↦ ground arith
  | inr (rest', e) ↦ ground (arith, remove_empty-length cs e)
]

length-evict :
    (c : Client) (cs : List Client) → length (evict_one_empty_client (c ∷ cs)) ≡ length cs
unfolding evict_one_empty_client
length-evict c cs = elim (Option-cases (remove_empty (c ∷ cs))) [
  | inl e ↦ ground arith
  | inr (rest, e) ↦ ground (arith, remove_empty-length (c ∷ cs) e)
]

length-bounded :
    (max_clients : ℕ) (cs : List Client)
    → 0 < max_clients
    → length cs ≤ suc max_clients
    → length (bounded max_clients cs) ≤ max_clients
unfolding bounded
length-bounded max_clients [] positive h = ground arith
length-bounded max_clients (c ∷ cs) positive h = ground (arith, length-evict c cs)

-- A limiter with a positive bound that remembers at most `max_clients` clients still does after
-- `allow`, whatever it answers.
pub allow_is_bounded :
    (client_key : Text) (now : ℕ) (l : Limiter) (r : (Bool × ℕ) × Limiter)
    → 0 < l.max_clients
    → length l.clients ≤ l.max_clients
    → allow client_key now l ≡ ok r
    → (r.1.max_clients ≡ l.max_clients) × (length r.1.clients ≤ l.max_clients)
unfolding allow decide
allow_is_bounded client_key now l r positive h e =
    let events = drop_expired l.window now (events_of client_key l.clients) in
    ground (
      arith,
      length-put client_key (events ++ (now ∷ [])) l.clients,
      length-put_known client_key events l.clients,
      length-drop_expired l.window now (events_of client_key l.clients),
      length-bounded l.max_clients (put_events client_key (events ++ (now ∷ [])) l.clients),
    )
