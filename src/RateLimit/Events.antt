-- ===== src/RateLimit/Events.antt =====
-- The deque of a client as the live part of its history.
use ps.Prelude.{
  ℕ, ◌+◌, ◌≤◌, ◌≡◌, ◌≢◌, refl, ap, ◌∙◌, Bool, true, List, [], ◌∷◌, ◌++◌, length, arith, ltb,
  text_eq, Bool-cases, inl, inr, All, select, text_beq_iff,
}
use ps.Common.Text.{Text}
use ps.RateLimit.{Client, Limiter, events_of, put_events, drop_expired}

-- An event that a window ending now still holds.
abbrev pub is_live : ℕ → ℕ → ℕ → Bool
is_live window now t = ltb now (t + window)

abbrev pub Ascending : List ℕ → Type 0
Ascending [] = Unit
Ascending (t ∷ ts) = All (λ u. t ≤ u) ts × Ascending ts

pub select-All :
    (window now t : ℕ) (ts : List ℕ)
    → is_live window now t ≡ true
    → All (λ u. t ≤ u) ts
    → select (is_live window now) ts ≡ ts
select-All window now t [] h all = refl
select-All window now t (u ∷ ts) h all = ground (arith, select-All window now t ts h all.1)

-- The loop that drops expired events is a filter, since the events are in order.
pub drop-select :
    (window now : ℕ) (ts : List ℕ)
    → Ascending ts
    → drop_expired window now ts ≡ select (is_live window now) ts
unfolding drop_expired
drop-select window now [] h = refl
drop-select window now (t ∷ ts) h = elim (Bool-cases (is_live window now t)) [
  | inl e ↦ ground (arith, select-All window now t ts e h.0)
  | inr e ↦ ground (arith, drop-select window now ts h.1)
]

pub select-select :
    (window before now : ℕ) (ts : List ℕ)
    → before ≤ now
    → select (is_live window now) (select (is_live window before) ts)
      ≡ select (is_live window now) ts
select-select window before now [] h = refl
select-select window before now (t ∷ ts) h = ground (arith, select-select window before now ts)

pub length-select_later :
    (window before now : ℕ) (ts : List ℕ)
    → before ≤ now
    → length (select (is_live window now) ts) ≤ length (select (is_live window before) ts)
length-select_later window before now [] h = omega arith
length-select_later window before now (t ∷ ts) h =
    ground (arith, length-select_later window before now ts)

pub select-append :
    (p : ℕ → Bool) (xs ys : List ℕ) → select p (xs ++ ys) ≡ select p xs ++ select p ys
select-append p [] ys = refl
select-append p (x ∷ xs) ys = ground (arith, select-append p xs ys)

pub All-select_le :
    (p : ℕ → Bool) (t : ℕ) (ts : List ℕ) → All (λ u. t ≤ u) ts → All (λ u. t ≤ u) (select p ts)
All-select_le p t [] h = tt
All-select_le p t (u ∷ ts) h = elim (Bool-cases (p u)) [
  | inl e ↦ rw e (h.0, All-select_le p t ts h.1)
  | inr e ↦ rw e (All-select_le p t ts h.1)
]

pub Ascending-select : (p : ℕ → Bool) (ts : List ℕ) → Ascending ts → Ascending (select p ts)
Ascending-select p [] h = tt
Ascending-select p (t ∷ ts) h = elim (Bool-cases (p t)) [
  | inl e ↦ rw e (All-select_le p t ts h.0, Ascending-select p ts h.1)
  | inr e ↦ rw e (Ascending-select p ts h.1)
]

pub All-append {κ} :
    (P : ℕ → Type κ) (xs : List ℕ) (y : ℕ) → All P xs → P y → All P (xs ++ (y ∷ []))
All-append P [] y all p = (p, tt)
All-append P (x ∷ xs) y all p = (all.0, All-append P xs y all.1 p)

pub Ascending-append :
    (ts : List ℕ) (now : ℕ) → Ascending ts → All (λ u. u ≤ now) ts → Ascending (ts ++ (now ∷ []))
Ascending-append [] now h all = (tt, tt)
Ascending-append (t ∷ ts) now h all =
    (All-append (λ u. t ≤ u) ts now h.0 all.0, Ascending-append ts now h.1 all.1)

pub events_of-put :
    (k : Text) (events : List ℕ) (cs : List Client) → events_of k (put_events k events cs) ≡ events
unfolding events_of put_events
events_of-put k events [] = ground (arith, text_beq_iff k k)
events_of-put k events (c ∷ cs) = ground (arith, events_of-put k events cs, text_beq_iff k k)

pub events_of-put_ne :
    (j k : Text) (events : List ℕ) (cs : List Client)
    → k ≢ j
    → events_of j (put_events k events cs) ≡ events_of j cs
unfolding events_of put_events
events_of-put_ne j k events [] h = ground (arith, text_beq_iff k j)
events_of-put_ne j k events (c ∷ cs) h = ground (
  arith,
  events_of-put_ne j k events cs,
  text_beq_iff k j,
  text_beq_iff c.client_key k,
  text_beq_iff c.client_key j,
)

-- The limiter holds the live part of what a client was granted up to a time: its history, in
-- order, of which the window ending at that time has at most `limit`.
pub record Tracks (k : Text) (l : Limiter) (last : ℕ) (history : List ℕ) : Type 0 where
  pub ascending : Ascending history
  pub past : All (λ t. t ≤ last) history
  pub held : events_of k l.clients ≡ select (is_live l.window last) history
  pub within : length (select (is_live l.window last) history) ≤ l.limit

pub live-now :
    (client_key : Text) (now last : ℕ) (l : Limiter) (history : List ℕ)
    → Tracks client_key l last history
    → last ≤ now
    → drop_expired l.window now (events_of client_key l.clients)
      ≡ select (is_live l.window now) history
live-now client_key now last l history tracks later =
    let kept = select (is_live l.window last) history in
    ap (drop_expired l.window now) tracks.held
    ∙ drop-select l.window now kept
        (Ascending-select (is_live l.window last) history tracks.ascending)
    ∙ select-select l.window last now history later
