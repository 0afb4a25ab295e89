-- ===== src/Table/Defs.antt =====
-- The operations on a table.
use ps.Prelude.{Bool, Option, none, some, List, [], ◌∷◌, Eq, ◌==◌, if◌then◌else◌}

module _ {ℓ κ} {R : Type ℓ} {K : Type κ} ⦃e : Eq K⦄ (key : R → K) where
  -- `session.scalar(select(R).where(R.key == k))`
  unfoldable pub find : K → List R → Option R
  find k [] = none
  find k (r ∷ rs) = if key r == k then some r else find k rs

  -- the flush of a row that was read and then assigned to
  unfoldable pub save : R → List R → List R
  save r [] = []
  save r (x ∷ xs) = if key x == key r then r ∷ xs else x ∷ save r xs

  -- `session.delete(row)`
  unfoldable pub remove : K → List R → List R
  remove k [] = []
  remove k (r ∷ rs) = let rest = remove k rs in if key r == k then rest else r ∷ rest

-- `session.add(row)`
unfoldable pub add {ℓ} : {R : Type ℓ} → R → List R → List R
add r [] = r ∷ []
add r (x ∷ xs) = x ∷ add r xs

-- `update(R).where(p).values(…)`
unfoldable pub update_where {ℓ} : {R : Type ℓ} → (R → Bool) → (R → R) → List R → List R
update_where p f [] = []
update_where p f (r ∷ rs) = (if p r then f r else r) ∷ update_where p f rs
