-- ===== src/Maintenance/Clients.antt =====
-- replication/node_client.py: the calls of `StorageNodeClient` that the managers of jobs make. The
-- client talks HTTP to a storage node and is a parameter: what each call ends with. The bytes of a
-- stream and closing the client are left out.
use ps.Prelude.{ℕ, Bool, ◌&&◌, ◌==◌, nat_eq, text_eq}
use ps.Common.Text.{Text, lower}
use ps.Common.Errors.{Result}
use ps.Metadata.Models.{Version}
use ps.Replication.Writes.{Verification}

-- The calls take the object and the version. `stream_object` is opened, and what it streams is what
-- `put_object` sends.
pub record NodeClient : Type 0 where
  pub verify_object : ℕ → ℕ → Result Verification
  pub delete_object : ℕ → ℕ → Result (Unit {0})
  pub stream_object : ℕ → ℕ → Result (Unit {0})
  pub put_object : ℕ → ℕ → Result (Unit {0})

-- `client_factory(address)`, by the time of the call: a node may answer otherwise later.
abbrev pub ClientFactory : Type 0
ClientFactory = ℕ → Text → NodeClient

-- The digest and the size that a node has measured are those of the version.
abbrev pub is_version : Version → Verification → Bool
is_version version measured =
    (lower measured.checksum == lower version.checksum)
    && (measured.size_bytes == version.size_bytes)
