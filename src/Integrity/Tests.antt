-- ===== src/Integrity/Tests.antt =====
-- A replica whose node measures other bytes.
use ps.Prelude.{text_beq, refl, false, [], ◌∷◌, nat_eq, text_eq, pair_eq}
use ps.Table.{find}
use ps.Common.Errors.{ok}
use ps.Maintenance.Clients.{ClientFactory}
use ps.Maintenance.Fixture.{stored, replica, node, version, measured}
use ps.Integrity.Verify.{IntegrityManager, verify_replica}
use ps.Integrity.Evidence.{IsJudged, IsMismatch, verify_replica_judges}

abbrev manager : IntegrityManager
manager = record {
  replication_factor = 2;
  max_attempts = 3;
  repairs = record { max_attempts = 3; replication_factor = 2 };
}

abbrev damaged : ClientFactory
damaged now address = record {
  verify_object = λ o v. ok (record measured { valid = false });
  delete_object = λ o v. ok tt;
  stream_object = λ o v. ok tt;
  put_object = λ o v. ok tt;
}

shown : IsMismatch (damaged 0 (b'a' ∷ b'a' ∷ [])) version (replica 3 b'a')
shown = (record measured { valid = false }, refl, λ whole. cc whole.1)

verify_replica_judges_example :
    IsJudged
      (damaged 0 (b'a' ∷ b'a' ∷ []))
      version
      (replica 3 b'a')
      (verify_replica manager damaged 0 3 stored).1
unfolding find text_beq
verify_replica_judges_example =
    verify_replica_judges manager damaged 0 stored (replica 3 b'a') version (node b'a') refl refl
      refl refl refl refl
