-- ===== src/Health/Payload.antt =====
-- health/heartbeat.py: `HeartbeatPayload` and its validators.
use ps.Prelude.{ℕ, ℤ, ltb}
use ps.Common.Text.{Text, strip}
use ps.Common.Errors.{Result, ok, value_error, raise_if, ◌>>◌, ◌>>=◌}
use ps.Common.Validation.{is_empty}
use ps.Metadata.Checks.{non_negative}

pub record HeartbeatPayload : Type 0 where
  pub node_id : Text
  pub capacity_bytes : ℕ
  pub used_bytes : ℕ
  pub timestamp : ℕ

-- A payload from what came over the wire; pydantic's ValidationError is a ValueError.
unfoldable pub new_payload : Text → ℤ → ℤ → ℕ → Result HeartbeatPayload
new_payload node_id capacity_bytes used_bytes timestamp = do
  let name = strip node_id
  raise_if (is_empty name) value_error
  capacity ← non_negative capacity_bytes
  used ← non_negative used_bytes
  raise_if (ltb capacity used) value_error
  ok (record {
    node_id = name;
    capacity_bytes = capacity;
    used_bytes = used;
    timestamp = timestamp;
  })
