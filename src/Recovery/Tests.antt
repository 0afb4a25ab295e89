-- ===== src/Recovery/Tests.antt =====
-- A node with a committed replica comes back, and answers or cannot be reached.
use ps.Prelude.{text_beq, ◌≡◌, refl, [], ◌∷◌, nat_eq, text_eq, pair_eq}
use ps.Table.{find}
use ps.Common.Constants.{NodeState}
use ps.Common.Errors.{NodeError, ok, err, node_error}
use ps.Metadata.Models.{Database}
use ps.Metadata.Triples.{Post}
use ps.Maintenance.Clients.{ClientFactory}
use ps.Maintenance.Fixture.{stored, replica, node, answering}
use ps.Recovery.Reconcile.{
  RecoveryResult, PartitionRecoveryManager, known_replicas, reconcile_and_mark_healthy,
}
use ps.Recovery.Partition.{IsUnreached, partition_changes_nothing}
use ps.Recovery.Rejoin.{IsRejoined, reconcile_and_mark_healthy_rejoins}

abbrev manager : PartitionRecoveryManager
manager = record {
  replication_factor = 2;
  repairs = record { max_attempts = 3; replication_factor = 2 };
}

abbrev returning : Database
returning = record stored {
  nodes = record (node b'a') { status = NodeState.recovering } ∷ node b'b' ∷ [];
}

abbrev cut_off : ClientFactory
cut_off now address = record {
  verify_object = λ o v. err (node_error NodeError.unavailable);
  delete_object = λ o v. err (node_error NodeError.unavailable);
  stream_object = λ o v. err (node_error NodeError.unavailable);
  put_object = λ o v. err (node_error NodeError.unavailable);
}

known : known_replicas (b'a' ∷ []) returning ≡ replica 3 b'a' ∷ []
unfolding known_replicas find text_beq
known = refl

partition_changes_nothing_example :
    (result : RecoveryResult) × (reconcile_and_mark_healthy manager cut_off 0 (b'a' ∷ []) returning
      ≡ (ok result, returning))
    × IsUnreached (known_replicas (b'a' ∷ []) returning) result
unfolding find text_beq
partition_changes_nothing_example =
    partition_changes_nothing manager cut_off 0 (b'a' ∷ []) returning
      (record (node b'a') { status = NodeState.recovering }) (replica 3 b'a') [] refl refl known
      (λ now o v. (NodeError.unavailable, refl, refl))

reconcile_and_mark_healthy_rejoins_example :
    Post
      (IsRejoined returning (b'a' ∷ []))
      (λ e d. d.nodes ≡ returning.nodes)
      (reconcile_and_mark_healthy manager answering 0 (b'a' ∷ []) returning)
reconcile_and_mark_healthy_rejoins_example =
    reconcile_and_mark_healthy_rejoins manager answering 0 (b'a' ∷ []) returning
