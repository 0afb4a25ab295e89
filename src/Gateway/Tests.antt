-- ===== src/Gateway/Tests.antt =====
-- An object on one node is read and deleted, and an upload that fits.
use ps.Prelude.{
  text_beq, ◌≡◌, ◌⊎◌, refl, pos, suc, [], ◌∷◌, List, if◌then◌else◌, leb, length, concat, nat_eq,
  text_eq, pair_eq,
}
use ps.Table.{find, save, remove}
use ps.Common.Text.{Text, strip, lstrip_by, rstrip_by, is_space, text_ltb}
use ps.Common.Constants.{ObjectState}
use ps.Common.Errors.{VaultError, ok, err, vault}
use ps.Common.Validation.{normalize_object_name}
use ps.Metadata.Models.{Object, Database}
use ps.Metadata.Checks.{transaction}
use ps.Metadata.Objects.{transition_object_state}
use ps.Maintenance.Fixture.{stored, stored-IsConsistent, object, version, node, answering}
use ps.Gateway.Reads.{get_object, get_live_object, head, targets_of, read_targets}
use ps.Gateway.Served.{IsReadable, read_targets_hold}
use ps.Gateway.Deletes.{replicas_of_object, delete_each, begin_deletion, delete_live, delete_object}
use ps.Gateway.Cleared.{IsCleared, delete_object_clears}
use ps.Gateway.Uploads.{Bytes, stage_upload, stage_upload_decides}

read : read_targets (b'o' ∷ []) stored ≡ ok (object, (version, node b'a' ∷ []))
unfolding read_targets head get_live_object get_object targets_of normalize_object_name find
    text_beq strip lstrip_by rstrip_by is_space text_ltb
read = refl

read_targets_hold_example : IsReadable stored object version (node b'a' ∷ [])
read_targets_hold_example =
    read_targets_hold (b'o' ∷ []) stored object version (node b'a' ∷ []) stored-IsConsistent read

abbrev deleted : Database
deleted = record stored {
  objects = record object { state = ObjectState.deleted } ∷ [];
  replicas = [];
}

gone : delete_object answering 0 (b'o' ∷ []) stored ≡ (ok (3 ∷ []), deleted)
unfolding delete_object delete_live begin_deletion replicas_of_object delete_each get_object
    transaction transition_object_state normalize_object_name find save remove text_beq strip
    lstrip_by rstrip_by is_space
gone = refl

delete_object_clears_example :
    (o : Object) × (get_object (b'o' ∷ []) stored ≡ ok o)
    × (((o.state ≡ ObjectState.deleted) × (deleted ≡ stored)) ⊎ IsCleared o deleted)
delete_object_clears_example =
    delete_object_clears answering 0 (b'o' ∷ []) stored (3 ∷ []) deleted gone

abbrev counted : Bytes → Text
counted bytes = length bytes ∷ []

abbrev chunks : List Bytes
chunks = (1 ∷ 2 ∷ []) ∷ [] ∷ (3 ∷ []) ∷ []

stage_upload_decides_example : stage_upload counted chunks (pos (suc 2)) ≡ (
    if leb (length (concat chunks)) (suc 2)
    then ok (record {
      path = concat chunks;
      size_bytes = length (concat chunks);
      checksum = counted (concat chunks);
    })
    else err (vault VaultError.payload_too_large))
stage_upload_decides_example = stage_upload_decides counted chunks 2
