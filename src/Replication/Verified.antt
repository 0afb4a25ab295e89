-- ===== src/Replication/Verified.antt =====
-- What a verified write has been told by its storage node.
use ps.Prelude.{◌≡◌, refl, true, some, arith, nat_eq, text_eq, text_beq_iff, nat_beq_iff}
use ps.Common.Text.{Text, lower}
use ps.Metadata.Models.{Version, StorageNode}
use ps.Replication.Writes.{
  Answer, Stored, Verification, Client, ReplicaWriteResult, finished, replied, write_one, after_put,
  verify_one, is_confirmed,
}

verify_one_confirmed :
    (version : Version) (node : StorageNode) (answer : Answer Verification)
    (result : ReplicaWriteResult)
    → verify_one version node answer ≡ finished result
    → result.verified ≡ true
    → (said : Verification) × (answer ≡ replied said)
      × (is_confirmed version said ≡ true)
      × (result.checksum ≡ some said.checksum)
      × (result.size_bytes ≡ some said.size_bytes)
unfolding verify_one
verify_one_confirmed version node (replied said) result h sure =
    (said, ground arith, ground arith, ground arith, ground arith)
verify_one_confirmed version node Answer.client_error result h sure = ground arith
verify_one_confirmed version node (Answer.other_error failure) result h sure = ground arith

after_put_took :
    (version : Version) (node : StorageNode) (put : Answer Stored)
    (verification : Answer Verification) (result : ReplicaWriteResult)
    → after_put version node put verification ≡ finished result
    → result.verified ≡ true
    → (took : Stored) × (put ≡ replied took)
      × (verify_one version node verification ≡ finished result)
unfolding after_put
after_put_took version node (replied took) verification result h sure = (took, refl, h)
after_put_took version node Answer.client_error verification result h sure = absurd (ground arith)
after_put_took version node (Answer.other_error failure) verification result h sure = cc

confirmed_facts :
    (version : Version) (said : Verification)
    → is_confirmed version said ≡ true
    → (said.verified ≡ true)
      × (said.valid ≡ true)
      × (lower said.checksum ≡ lower version.checksum)
      × (said.size_bytes ≡ version.size_bytes)
confirmed_facts version said h = ground (
  arith,
  text_beq_iff (lower said.checksum) (lower version.checksum),
  nat_beq_iff said.size_bytes version.size_bytes,
)

-- A write counts as verified only if the node took the object or had it already, and then
-- confirmed it with the digest and the size that the metadata has for the version.
pub write_one_verified :
    (client_factory : Text → Client) (version : Version) (node : StorageNode)
    (result : ReplicaWriteResult)
    → write_one client_factory version node ≡ finished result
    → result.verified ≡ true
    → (took : Stored) × (said : Verification) × ((client_factory node.address).put_object
          version.object_id version.version_id
        ≡ replied took)
      × ((client_factory node.address).verify_object version.object_id version.version_id
          ≡ replied said)
      × (said.verified ≡ true)
      × (said.valid ≡ true)
      × (lower said.checksum ≡ lower version.checksum)
      × (said.size_bytes ≡ version.size_bytes)
      × (result.checksum ≡ some said.checksum)
      × (result.size_bytes ≡ some said.size_bytes)
unfolding write_one
write_one_verified client_factory version node result h sure =
    let client = client_factory node.address in
    let put = client.put_object version.object_id version.version_id in
    let verification = client.verify_object version.object_id version.version_id in
    let (took, stored_it, checked) = after_put_took version node put verification result h sure in
    let (said, told, confirmed, checksum, size) =
      verify_one_confirmed version node verification result checked sure in
    let (verified, valid, digest, fits) = confirmed_facts version said confirmed in
    (took, said, stored_it, told, verified, valid, digest, fits, checksum, size)
