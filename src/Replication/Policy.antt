-- ===== src/Replication/Policy.antt =====
-- replication/manager.py: `ReplicationPolicy`, and the numbers that a call may give instead.
use ps.Prelude.{ℕ, ℤ, pos, Option, ltb}
use ps.Common.Errors.{Result, ok, value_error, raise_if, ◌>>◌, ◌>>=◌}
use ps.Placement.{validate_factor, chosen_factor}

pub record ReplicationPolicy : Type 0 where
  pub factor : ℕ
  pub write_quorum : ℕ
  pub read_quorum : ℕ

-- `__post_init__`, whose test of each number is the one of the placement's factor.
unfoldable pub new_policy : ℤ → ℤ → ℤ → Result ReplicationPolicy
unfolding validate_factor
new_policy factor write_quorum read_quorum = do
  f ← validate_factor factor
  w ← validate_factor write_quorum
  r ← validate_factor read_quorum
  raise_if (ltb f w) value_error
  raise_if (ltb f r) value_error
  ok (record { factor = f; write_quorum = w; read_quorum = r })

-- `replication_factor` and `write_quorum` of a call.
unfoldable pub chosen_quorum : ReplicationPolicy → Option ℤ → Option ℤ → Result (ℕ × ℕ)
unfolding validate_factor
chosen_quorum policy replication_factor write_quorum = do
  factor ← validate_factor (chosen_factor replication_factor (pos policy.factor))
  quorum ← validate_factor (chosen_factor write_quorum (pos policy.write_quorum))
  raise_if (ltb factor quorum) value_error
  ok (factor, quorum)
