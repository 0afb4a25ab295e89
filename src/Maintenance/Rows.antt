-- ===== src/Maintenance/Rows.antt =====
-- The queries that the managers write out, each in its own methods.
use ps.Prelude.{ℕ, Bool, false, not, none, some, Option, is_some}
use ps.Common.Text.{Text}
use ps.Common.Constants.{JobStatus}
use ps.Common.Errors.{VaultError, Result, vault, integrity_error, or_raise, raise_if}
use ps.Common.Validation.{is_empty}
use ps.Metadata.Models.{Version, StorageNode, Database, version_at, node_at}

-- `_version` of repair, integrity and recovery
abbrev pub find_version : ℕ → Database → Result Version
find_version version_id db = or_raise (version_at version_id db) (vault VaultError.not_found)

-- `_node`
abbrev pub find_node : Text → Database → Result StorageNode
find_node node_id db = or_raise (node_at node_id db) (vault VaultError.not_found)

-- `if replica.checksum`
abbrev pub has_checksum : Option Text → Bool
has_checksum none = false
has_checksum (some checksum) = not (is_empty checksum)

-- `status.in_((JobStatus.PENDING, JobStatus.RUNNING))`
abbrev pub is_active : JobStatus → Bool
is_active JobStatus.pending = Bool.true
is_active JobStatus.running = Bool.true
is_active _ = false

-- The foreign key of a job's row: the database refuses a row whose version is not there.
abbrev pub version_must_exist : ℕ → Database → Result (Unit {0})
version_must_exist version_id db =
    raise_if (not (is_some (version_at version_id db))) integrity_error
