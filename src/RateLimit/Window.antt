-- ===== src/RateLimit/Window.antt =====
-- The answers of the limiter against the history of a client's accepted requests.
use ps.Prelude.{
  ℕ, ◌≤◌, ◌<◌, ◌≡◌, ◌≢◌, ◌⊎◌, ◌∙◌, ◌==◌, subst, text_beq_iff, Bool, List, [], ◌∷◌, ◌++◌, length,
  arith, if◌then◌else◌, ltb, text_eq, Bool-cases, inl, inr, All, All-weaken, All-if, select,
  length-append,
}
use ps.Common.Text.{Text}
use ps.Common.Errors.{ok}
use ps.RateLimit.Bounded.{length-put_any}
use ps.RateLimit.{Limiter, events_of, put_events, drop_expired, bounded, decide, allow}
use ps.RateLimit.Events.{
  is_live, Ascending, length-select_later, select-append, All-append, Ascending-append,
  events_of-put, events_of-put_ne, Tracks, live-now,
}

module _ (client_key : Text) (now last : ℕ) (l : Limiter) (history : List ℕ)
    (r : (Bool × ℕ) × Limiter) (limited : 0 < l.limit) (open_ : 0 < l.window)
    (tracks : Tracks client_key l last history) (later : last ≤ now) where
  -- With a positive limit and window, and if the limiter tracks the client up to a time that is not
  -- after the request (of a history in order of time, its deque holds all that the client was granted
  -- in the window that ends at that time, at most `limit` requests, which an eviction of the client
  -- breaks), the request is granted exactly if fewer than `limit` requests of the client were granted
  -- in the window that ends with it.
  pub allow_decides :
      allow client_key now l ≡ ok r
      → r.0.0 ≡ ltb (length (select (is_live l.window now) history)) l.limit
  unfolding allow decide
  allow_decides e = ground (arith, live-now client_key now last l history tracks later)

  -- What the state holds for the client after the answer, if the clients with it are not too many.
  holds :
      length (put_events client_key [] l.clients) ≤ l.max_clients
      → allow client_key now l ≡ ok r
      → (r.1.limit ≡ l.limit)
        × (r.1.window ≡ l.window)
        × (events_of client_key r.1.clients
            ≡ select (is_live l.window now) (if r.0.0 then history ++ (now ∷ []) else history))
        × (length (select (is_live l.window now) (if r.0.0 then history ++ (now ∷ []) else history))
            ≤ l.limit)
  unfolding allow decide bounded
  holds room e =
      let live = select (is_live l.window now) history in
      ground (
        arith,
        live-now client_key now last l history tracks later,
        tracks.within,
        length-select_later l.window last now history later,
        length-append live (now ∷ []),
        length-put_any client_key (live ++ (now ∷ [])) [] l.clients,
        events_of-put client_key live l.clients,
        events_of-put client_key (live ++ (now ∷ [])) l.clients,
        select-append (is_live l.window now) history (now ∷ []),
      )

  past-extended : All (λ t. t ≤ now) (if r.0.0 then history ++ (now ∷ []) else history)
  past-extended =
      let before =
        All-weaken (λ t. t ≤ last) (λ t. t ≤ now) history tracks.past (λ t h. omega arith) in
      All-if (λ t. t ≤ now) r.0.0 (history ++ (now ∷ [])) history
        (All-append (λ t. t ≤ now) history now before (omega arith)) before

  Ascending-extended : Ascending (if r.0.0 then history ++ (now ∷ []) else history)
  Ascending-extended = elim (Bool-cases r.0.0) [
    | inl e ↦ rw e (
        Ascending-append history now tracks.ascending
          (All-weaken (λ t. t ≤ last) (λ t. t ≤ now) history tracks.past (λ t h. omega arith)))
    | inr e ↦ rw e tracks.ascending
  ]

  -- After its answer to the client the limiter tracks it up to the time of the call.
  own-Tracks :
      length (put_events client_key [] l.clients) ≤ l.max_clients
      → allow client_key now l ≡ ok r
      → Tracks client_key r.1 now (if r.0.0 then history ++ (now ∷ []) else history)
  own-Tracks room e =
      let (limit, window, held, within) = holds room e in
      record {
        ascending = Ascending-extended;
        past = past-extended;
        held = rw window held;
        within = rw (window, limit) within;
      }

-- A call of another client leaves the events of the client where they are.
other_kept :
    (caller client_key : Text) (now : ℕ) (l : Limiter) (r : (Bool × ℕ) × Limiter)
    → caller ≢ client_key
    → length (put_events caller [] l.clients) ≤ l.max_clients
    → allow caller now l ≡ ok r
    → (r.1.limit ≡ l.limit)
      × (r.1.window ≡ l.window)
      × (events_of client_key r.1.clients ≡ events_of client_key l.clients)
unfolding allow decide bounded
other_kept caller client_key now l r other room e =
    let live = drop_expired l.window now (events_of caller l.clients) in
    ground (
      arith,
      length-put_any caller (live ++ (now ∷ [])) [] l.clients,
      events_of-put_ne client_key caller live l.clients,
      events_of-put_ne client_key caller (live ++ (now ∷ [])) l.clients,
    )

-- Whoever calls next, and while the clients with the caller are not too many, so that none is
-- evicted: after a call of the client itself the limiter tracks it up to that call, and after a call
-- of another client it tracks the client as before.
pub allow-Tracks :
    (caller client_key : Text) (now last : ℕ) (l : Limiter) (history : List ℕ)
    (r : (Bool × ℕ) × Limiter)
    → 0 < l.limit
    → 0 < l.window
    → length (put_events caller [] l.clients) ≤ l.max_clients
    → Tracks client_key l last history
    → last ≤ now
    → allow caller now l ≡ ok r
    → ((caller ≡ client_key)
        × Tracks client_key r.1 now (if r.0.0 then history ++ (now ∷ []) else history))
      ⊎ ((caller ≢ client_key) × Tracks client_key r.1 last history)
allow-Tracks caller client_key now last l history r limited open_ room tracks later e =
    elim (Bool-cases (caller == client_key)) [
      | inl hit ↦
          let same : caller ≡ client_key = (text_beq_iff caller client_key).0 hit in
          inl (
            same,
            own-Tracks client_key now last l history r limited open_ tracks later
                (subst (λ k. length (put_events k [] l.clients) ≤ l.max_clients) same room)
                (subst (λ k. allow k now l ≡ ok r) same e),
          )
      | inr miss ↦
          let other : caller ≢ client_key =
            λ same. let hit = (text_beq_iff caller client_key).1 same in cc in
          let (limit, window, held) = other_kept caller client_key now l r other room e in
          inr (
            other,
            record {
              ascending = tracks.ascending;
              past = tracks.past;
              held = rw window (held ∙ tracks.held);
              within = rw (window, limit) tracks.within;
            },
          )
    ]
