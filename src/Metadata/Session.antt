-- ===== src/Metadata/Session.antt =====
-- Code that uses a database session: each call of `MetadataManager` is a transaction of its own
-- within it, so that what raises later does not take back what was written before.
use ps.Prelude.{◌≡◌, refl, Bool, true, false, if◌then◌else◌, arith, ◌⊎◌, inl, inr, subst}
use ps.Common.Errors.{Failure, Result, ok, err}
use ps.Metadata.Models.{Database}
use ps.Metadata.Checks.{transaction, transaction_rule}

abbrev pub Session {ℓ} : Type ℓ → Type ℓ
Session A = Database → Result A × Database

module _ {ℓ κ} {A : Type ℓ} {B : Type κ} where
  -- The rest of the code runs only if nothing was raised.
  abbrev pub continue : Result A × Database → (A → Session B) → Result B × Database
  continue (err failure, db) rest = (err failure, db)
  continue (ok value, db) rest = rest value db

infixl 5 ◌>>=◌ ◌>>◌
abbrev pub ◌>>=◌ {ℓ κ} : {A : Type ℓ} {B : Type κ} → Session A → (A → Session B) → Session B
(first >>= rest) db = continue (first db) rest

abbrev pub ◌>>◌ {ℓ κ} : {A : Type ℓ} {B : Type κ} → Session A → Session B → Session B
first >> rest = first >>= λ done. rest

abbrev pub pure {ℓ} : {A : Type ℓ} → A → Session A
pure a db = (ok a, db)

abbrev pub raise {ℓ} : {A : Type ℓ} → Failure → Session A
raise failure db = (err failure, db)

abbrev pub raise_when : Bool → Failure → Session (Unit {0})
raise_when true failure db = (err failure, db)
raise_when false failure db = (ok tt, db)

-- What is computed from the tables, or from nothing.
abbrev pub reading {ℓ} : {A : Type ℓ} → (Database → Result A) → Session A
reading query db = (query db, db)

-- A call of `MetadataManager`.
abbrev pub calling {ℓ} : {A : Type ℓ} → (Database → Result (A × Database)) → Session A
calling operation = transaction operation

-- What a piece of code keeps, whether it returns or raises.
abbrev pub Keeps {ℓ κ} : {A : Type ℓ} → (Database → Type κ) → Session A → Type κ
Keeps P m = (db : Database) → P db → P (m db).1

module _ {ℓ κ μ} {A : Type ℓ} {B : Type κ} (P : Database → Type μ) where
  pub Keeps->>= :
      (m : Session A) (f : A → Session B)
      → Keeps P m
      → ((a : A) → Keeps P (f a))
      → Keeps P (m >>= f)
  Keeps->>= m f keeps rest db before = go (m db) (keeps db before)
    where
      go : (o : Result A × Database) → P o.1 → P (continue o f).1
      go (ok a, d) p = rest a d p
      go (err e, d) p = p

module _ {ℓ μ} {A : Type ℓ} (P : Database → Type μ) where
  pub Keeps-calling :
      (operation : Database → Result (A × Database))
      → ((db : Database) (r : A × Database) → operation db ≡ ok r → P db → P r.1)
      → Keeps P (calling operation)
  Keeps-calling operation keeps db before =
      transaction_rule P operation db before (λ r h. keeps db r h before)

  pub Keeps-reading : (query : Database → Result A) → Keeps P (reading query)
  Keeps-reading query db before = before

module _ {μ} (P : Database → Type μ) where
  pub Keeps-raise_when : (c : Bool) (e : Failure) → Keeps P (raise_when c e)
  Keeps-raise_when true e db before = before
  Keeps-raise_when false e db before = before

module _ {ℓ μ} {A : Type ℓ} (P : Database → Type μ) where
  pub Keeps-if : (c : Bool) (m n : Session A) → Keeps P m → Keeps P n → Keeps P (if c then m else n)
  Keeps-if true m n km kn = km
  Keeps-if false m n km kn = kn

-- Inversions: of a sequence that returned, and of a call that returned.
module _ {ℓ κ} {A : Type ℓ} {B : Type κ} where
  pub >>=-returned :
      (m : Session A) (f : A → Session B) (db : Database) {b : B} {d : Database}
      → (m >>= f) db ≡ (ok b, d)
      → (a : A) × (c : Database) × (m db ≡ (ok a, c)) × (f a c ≡ (ok b, d))
  >>=-returned m f db {b} {d} h = go (m db) h
    where
      go :
          (o : Result A × Database)
          → continue o f ≡ (ok b, d)
          → (a : A) × (c : Database) × (o ≡ (ok a, c)) × (f a c ≡ (ok b, d))
      go (ok a, c) e = (a, c, refl, e)
      go (err x, c) e = cc

module _ {ℓ} {A : Type ℓ} where
  pub calling-returned :
      (operation : Database → Result (A × Database)) (db : Database) {a : A} {d : Database}
      → calling operation db ≡ (ok a, d)
      → operation db ≡ ok (a, d)
  unfolding transaction
  calling-returned operation db h = ground arith

-- Inversions of code that raised.
module _ {ℓ κ} {A : Type ℓ} {B : Type κ} where
  pub >>=-raised :
      (m : Session A) (f : A → Session B) (db : Database) {x : Failure} {d : Database}
      → (m >>= f) db ≡ (err x, d)
      → (m db ≡ (err x, d)) ⊎ ((a : A) × (c : Database) × (m db ≡ (ok a, c)) × (f a c ≡ (err x, d)))
  >>=-raised m f db {x} {d} h = go (m db) h
    where
      go :
          (o : Result A × Database)
          → continue o f ≡ (err x, d)
          → (o ≡ (err x, d)) ⊎ ((a : A) × (c : Database) × (o ≡ (ok a, c)) × (f a c ≡ (err x, d)))
      go (ok a, c) e = inr (a, c, refl, e)
      go (err y, c) e = inl (ground arith)

-- Code that starts where P holds and raises ends where Q holds.
abbrev pub Raises {ℓ μ ν} :
    {A : Type ℓ} → (Database → Type μ) → (Database → Type ν) → Session A → Type (ℓ ⊔ μ ⊔ ν)
Raises P Q m = (db d : Database) (x : Failure) → P db → m db ≡ (err x, d) → Q d

module _ {ℓ μ ν} {A : Type ℓ} (P : Database → Type μ) (Q : Database → Type ν)
    (weaken : (d : Database) → P d → Q d) where
  pub Raises-Keeps : (m : Session A) → Keeps P m → Raises P Q m
  Raises-Keeps m keeps db d x before h =
      weaken d (subst (λ (o : Result A × Database). P o.1) h (keeps db before))

module _ {ℓ κ μ ν} {A : Type ℓ} {B : Type κ} (P : Database → Type μ) (Q : Database → Type ν)
    (weaken : (d : Database) → P d → Q d) where
  pub Raises->>= :
      (m : Session A) (f : A → Session B)
      → Keeps P m
      → ((a : A) → Raises P Q (f a))
      → Raises P Q (m >>= f)
  Raises->>= m f keeps rest db d x before h = elim (>>=-raised m f db h) [
    | inl e ↦ Raises-Keeps P Q weaken m keeps db d x before e
    | inr (a, c, returned, e) ↦
        rest a c d x (subst (λ (o : Result A × Database). P o.1) returned (keeps db before)) e
  ]

module _ {ℓ μ ν} {A : Type ℓ} (P : Database → Type μ) (Q : Database → Type ν) where
  pub Raises-if :
      (c : Bool) (m n : Session A) → Raises P Q m → Raises P Q n → Raises P Q (if c then m else n)
  Raises-if true m n rm rn = rm
  Raises-if false m n rm rn = rn
