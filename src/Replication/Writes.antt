-- ===== src/Replication/Writes.antt =====
-- replication/manager.py: `_write_one`. The client of a storage node, which talks HTTP
-- (replication/node_client.py), is a parameter: what it answers to each call. Closing it is left
-- out.
use ps.Prelude.{
  ℕ, Bool, true, false, ◌&&◌, Option, none, some, List, ◌==◌, if◌then◌else◌, nat_eq, text_eq,
}
use ps.Common.Text.{Text, lower}
use ps.Common.Constants.{ReplicaState}
use ps.Common.Errors.{Failure}
use ps.Metadata.Models.{Version, StorageNode}

-- What a call of the client ends with: an answer, one of the client's own errors, or any other
-- exception.
pub data Answer (A : Type 0) : Type 0 where
  replied : A → Answer A
  client_error : Answer A
  other_error : Failure → Answer A

-- The answer to a PUT says only whether the object was stored or was there already.
pub data Stored : Type 0 where
  stored already_exists : Stored

pub record Verification : Type 0 where
  pub verified : Bool
  pub valid : Bool
  pub checksum : Text
  pub size_bytes : ℕ

-- `client_factory(node.address)`, with the payload that `payload_factory` makes.
pub record Client : Type 0 where
  pub put_object : ℕ → ℕ → Answer Stored
  pub verify_object : ℕ → ℕ → Answer Verification

pub record ReplicaWriteResult : Type 0 where
  pub node_id : Text
  pub status : ReplicaState
  pub verified : Bool
  pub checksum : Option Text
  pub size_bytes : Option ℕ

pub record ReplicationResult : Type 0 where
  pub version_id : ℕ
  pub selected_node_ids : List Text
  pub healthy_node_ids : List Text
  pub failed_node_ids : List Text
  pub committed : Bool

abbrev pub failed_result : Text → ReplicaWriteResult
failed_result node_id = record {
  node_id = node_id;
  status = ReplicaState.failed;
  verified = false;
  checksum = none;
  size_bytes = none;
}

-- What a task of `asyncio.gather` ends with.
pub data Written : Type 0 where
  finished : ReplicaWriteResult → Written
  crashed : Failure → Written

-- The three tests on a verification.
abbrev pub is_confirmed : Version → Verification → Bool
is_confirmed version answer =
    (answer.verified && answer.valid)
    && ((lower answer.checksum == lower version.checksum)
        && (answer.size_bytes == version.size_bytes))

unfoldable pub verify_one : Version → StorageNode → Answer Verification → Written
verify_one version node (replied answer) =
    if is_confirmed version answer
    then finished (record {
      node_id = node.node_id;
      status = ReplicaState.healthy;
      verified = true;
      checksum = some answer.checksum;
      size_bytes = some answer.size_bytes;
    })
    else finished (failed_result node.node_id)
verify_one version node client_error = finished (failed_result node.node_id)
verify_one version node (other_error failure) = crashed failure

-- An object that is there already is verified like one that has just been stored.
unfoldable pub after_put : Version → StorageNode → Answer Stored → Answer Verification → Written
unfolding verify_one
after_put version node (replied took) verification = verify_one version node verification
after_put version node client_error verification = finished (failed_result node.node_id)
after_put version node (other_error failure) verification = crashed failure

unfoldable pub write_one : (Text → Client) → Version → StorageNode → Written
unfolding after_put
write_one client_factory version node =
    let client = client_factory node.address in
    after_put version node (client.put_object version.object_id version.version_id)
      (client.verify_object version.object_id version.version_id)
