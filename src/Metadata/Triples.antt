-- ===== src/Metadata/Triples.antt =====
-- Code that uses a database session and may catch what it raises, and what holds after such code:
-- one predicate for its value and one for what it raises.
use ps.Prelude.{◌≡◌, refl, Bool, true, false, subst, if◌then◌else◌}
use ps.Common.Errors.{Failure, Result, ok, err}
use ps.Metadata.Models.{Database}
use ps.Metadata.Checks.{transaction, transaction_rule}
use ps.Metadata.Session.{Session, continue, ◌>>=◌, pure, raise, raise_when, reading, calling}

module _ {ℓ} {A : Type ℓ} where
  -- A handler starts from what the code before it has written.
  abbrev pub resume : Result A × Database → (Failure → Session A) → Result A × Database
  resume (err failure, db) handle = handle failure db
  resume (ok value, db) handle = (ok value, db)

-- `try: … except …`, with a handler that raises again what it does not catch.
abbrev pub attempt {ℓ} : {A : Type ℓ} → Session A → (Failure → Session A) → Session A
attempt body handle db = resume (body db) handle

-- Assignments to the columns of a row, and the commit that follows.
abbrev pub updating : (Database → Database) → Session (Unit {0})
updating change db = (ok tt, change db)

module _ {ℓ μ} {A : Type ℓ} where
  abbrev pub Post :
      (A → Database → Type μ) → (Failure → Database → Type μ) → Result A × Database → Type μ
  Post Q E (ok value, db) = Q value db
  Post Q E (err failure, db) = E failure db

-- From a database with P the code returns with Q or raises with E.
abbrev pub Triple {ℓ μ} :
    {A : Type ℓ}
    → (Database → Type μ)
    → Session A
    → (A → Database → Type μ)
    → (Failure → Database → Type μ)
    → Type μ
Triple P m Q E = (db : Database) → P db → Post Q E (m db)

module _ {ℓ κ μ} {A : Type ℓ} {B : Type κ} (P : Database → Type μ) (Q : A → Database → Type μ)
    (R : B → Database → Type μ) (E : Failure → Database → Type μ) where
  pub Triple->>= :
      (m : Session A) (f : A → Session B)
      → Triple P m Q E
      → ((a : A) → Triple (Q a) (f a) R E)
      → Triple P (m >>= f) R E
  Triple->>= m f start rest db before = go (m db) (start db before)
    where
      go : (o : Result A × Database) → Post Q E o → Post R E (continue o f)
      go (ok a, d) q = rest a d q
      go (err e, d) q = q

module _ {ℓ μ} {A : Type ℓ} (P : Database → Type μ) (Q : A → Database → Type μ)
    (E : Failure → Database → Type μ) where
  pub Triple-calling :
      (operation : Database → Result (A × Database))
      → ((db : Database) (r : A × Database) → operation db ≡ ok r → P db → Q r.0 r.1)
      → ((e : Failure) (db : Database) → P db → E e db)
      → Triple P (calling operation) Q E
  unfolding transaction
  Triple-calling operation returned raised db before =
      go (operation db) (λ r h. returned db r h before)
    where
      go :
          (o : Result (A × Database))
          → ((r : A × Database) → o ≡ ok r → Q r.0 r.1)
          → Post Q E
              (elim o as (λ _. Result A × Database) [ ok r ↦ (ok r.0, r.1) | err e ↦ (err e, db) ])
      go (ok r) f = f r refl
      go (err e) f = raised e db before

  pub Triple-reading :
      (query : Database → Result A)
      → ((db : Database) (a : A) → query db ≡ ok a → P db → Q a db)
      → ((e : Failure) (db : Database) → P db → E e db)
      → Triple P (reading query) Q E
  Triple-reading query returned raised db before = go (query db) (λ a h. returned db a h before)
    where
      go : (o : Result A) → ((a : A) → o ≡ ok a → Q a db) → Post Q E (o, db)
      go (ok a) f = f a refl
      go (err e) f = raised e db before

  pub Triple-if :
      (c : Bool) (m n : Session A)
      → (c ≡ true → Triple P m Q E)
      → (c ≡ false → Triple P n Q E)
      → Triple P (if c then m else n) Q E
  Triple-if true m n tm tn = tm refl
  Triple-if false m n tm tn = tn refl

  pub Triple-attempt :
      (F : Failure → Database → Type μ) (m : Session A) (h : Failure → Session A)
      → Triple P m Q F
      → ((e : Failure) → Triple (F e) (h e) Q E)
      → Triple P (attempt m h) Q E
  Triple-attempt F m h body handler db before = go (m db) (body db before)
    where
      go : (o : Result A × Database) → Post Q F o → Post Q E (resume o h)
      go (ok a, d) q = q
      go (err e, d) q = handler e d q

  -- What code that returned, or raised, has left.
  pub Triple-returned :
      (m : Session A) (db : Database) {a : A} {d : Database}
      → Triple P m Q E
      → P db
      → m db ≡ (ok a, d)
      → Q a d
  Triple-returned m db t before h = subst (Post Q E) h (t db before)

  pub Triple-raised :
      (m : Session A) (db : Database) {e : Failure} {d : Database}
      → Triple P m Q E
      → P db
      → m db ≡ (err e, d)
      → E e d
  Triple-raised m db t before h = subst (Post Q E) h (t db before)

-- Code that keeps P whatever happens.
abbrev pub Holds {ℓ μ} : {A : Type ℓ} → (Database → Type μ) → Session A → Type μ
Holds P m = Triple P m (λ _. P) (λ _. P)

-- Code that keeps P whether it returns or raises, with a rule for each way to write code, so that
-- `search` proves it of a `do` block.
pub record Stays {ℓ μ} {A : Type ℓ} (P : Database → Type μ) (m : Session A) : Type (ℓ ⊔ μ) where
  pub at : (db : Database) → P db → P (m db).1

module _ {ℓ μ} {A : Type ℓ} {P : Database → Type μ} where
  pub Stays-pure : (a : A) → Stays P (pure a)
  Stays-pure a = record { at = λ db p. p }

  pub Stays-raise : (e : Failure) → Stays P (raise {A = A} e)
  Stays-raise e = record { at = λ db p. p }

  pub Stays-reading : (query : Database → Result A) → Stays P (reading query)
  Stays-reading query = record { at = λ db p. p }

  pub Stays-if : (c : Bool) (m n : Session A) → Stays P m → Stays P n → Stays P (if c then m else n)
  Stays-if true m n km kn = km
  Stays-if false m n km kn = kn

  pub Stays-attempt :
      (m : Session A) (h : Failure → Session A)
      → Stays P m
      → ((e : Failure) → Stays P (h e))
      → Stays P (attempt m h)
  Stays-attempt m h km kh = record { at = λ db p. go (m db) (km.at db p) }
    where
      go : (o : Result A × Database) → P o.1 → P (resume o h).1
      go (ok a, d) q = q
      go (err e, d) q = (kh e).at d q

  pub Stays-calling :
      (operation : Database → Result (A × Database))
      → ((db : Database) (r : A × Database) → operation db ≡ ok r → P db → P r.1)
      → Stays P (transaction operation)
  Stays-calling operation keeps = record {
    at = λ db p. transaction_rule P operation db p (λ r h. keeps db r h p);
  }

module _ {ℓ κ μ} {A : Type ℓ} {B : Type κ} {P : Database → Type μ} where
  pub Stays->>= :
      (m : Session A) (f : A → Session B)
      → Stays P m
      → ((a : A) → Stays P (f a))
      → Stays P (m >>= f)
  Stays->>= m f km kf = record { at = λ db p. go (m db) (km.at db p) }
    where
      go : (o : Result A × Database) → P o.1 → P (continue o f).1
      go (ok a, d) q = (kf a).at d q
      go (err e, d) q = q

module _ {μ} {P : Database → Type μ} where
  pub Stays-raise_when : (c : Bool) (e : Failure) → Stays P (raise_when c e)
  Stays-raise_when true e = record { at = λ db p. p }
  Stays-raise_when false e = record { at = λ db p. p }

pub Post-weaken {ℓ μ ν} :
    {A : Type ℓ} (Q : A → Database → Type μ) (R : A → Database → Type ν)
    (E : Failure → Database → Type μ) (F : Failure → Database → Type ν)
    → ((a : A) (d : Database) → Q a d → R a d)
    → ((e : Failure) (d : Database) → E e d → F e d)
    → (o : Result A × Database) → Post Q E o
    → Post R F o
Post-weaken Q R E F f g (ok a, d) q = f a d q
Post-weaken Q R E F f g (err e, d) q = g e d q

-- What an operation that does not raise gives within a session.
pub calling-ok {ℓ} :
    {A : Type ℓ} (operation : Database → Result (A × Database)) (db : Database) {r : A × Database}
    → operation db ≡ ok r
    → transaction operation db ≡ (ok r.0, r.1)
unfolding transaction
calling-ok operation db h = rw (h, transaction) refl

-- Code that keeps P, with nothing said of what it raises.
pub Triple-Stays {ℓ} :
    {A : Type ℓ} {P : Database → Type 0} (m : Session A)
    → Stays P m
    → Triple P m (λ _. P) (λ _ _. Unit)
Triple-Stays {A} {P} m k db p = go (m db) (k.at db p)
  where
    go : (o : Result A × Database) → P o.1 → Post {A = A} (λ _. P) (λ _ _. Unit {0}) o
    go (ok a, d) q = q
    go (err e, d) q = tt

pub Triple-keeps {ℓ μ} :
    {A : Type ℓ} {P : Database → Type μ} (m : Session A) → Stays P m → Triple P m (λ _. P) (λ _. P)
Triple-keeps {A = A} {P = P} m k db p = go (m db) (k.at db p)
  where
    go : (o : Result A × Database) → P o.1 → Post {A = A} (λ _. P) (λ _. P) o
    go (ok a, d) q = q
    go (err e, d) q = q

pub ruleset stays =
    (Stays-pure, Stays-raise, Stays-reading, Stays-if, Stays-attempt, Stays->>=, Stays-raise_when)
