-- ===== src/Recovery/Partition.antt =====
-- A node that is RECOVERING and cannot be reached yet.
use ps.Prelude.{
  ℕ, ◌+◌, ◌≡◌, refl, sym, ◌∙◌, Bool, true, false, not, ◌&&◌, some, List, [], ◌∷◌, ◌++◌, map, arith,
  All, All-select, All-sort_by, All-weaken, Option-cases, inl, inr, append_assoc, append_nil, ◌==◌,
  nat_eq, text_eq,
}
use ps.Common.Text.{Text}
use ps.Common.Constants.{NodeState, ReplicaState, node_state_eq, replica_state_eq}
use ps.Common.Errors.{NodeError, ok, err, node_error}
use ps.Metadata.Models.{Version, StorageNode, Replica, Database, node_at, version_at}
use ps.Maintenance.Clients.{ClientFactory}
use ps.Rebalance.Queries.{is_committed_in, is_on}
use ps.Recovery.Reconcile.{
  RecoveryResult, PartitionRecoveryManager, known_replicas, unresolved, after_answer,
  reconcile_each, started, finished, reconcile_node, reconcile_and_mark_healthy,
}

-- The errors that say nothing of what is stored.
abbrev pub says_nothing : NodeError → Bool
says_nothing NodeError.object_missing = false
says_nothing NodeError.integrity = false
says_nothing _ = true

abbrev pub IsCutOff : ClientFactory → Text → Type 0
IsCutOff clients address =
    (now o v : ℕ)
    → (e : NodeError) × ((clients now address).verify_object o v ≡ err (node_error e))
      × (says_nothing e ≡ true)

abbrev unreached : Replica → RecoveryResult → RecoveryResult
unreached r so_far = record (unresolved r so_far) { complete = false }

module _ (m : PartitionRecoveryManager) (db : Database) where
  after_error :
      (v : Version) (r : Replica) (so_far : RecoveryResult) (e : NodeError)
      → says_nothing e ≡ true
      → after_answer m v r so_far (err (node_error e)) db ≡ (ok (unreached r so_far), db)
  unfolding after_answer
  after_error v r so_far NodeError.unavailable h = refl
  after_error v r so_far NodeError.invalid_request h = refl
  after_error v r so_far NodeError.object_missing h = cc
  after_error v r so_far NodeError.object_exists h = refl
  after_error v r so_far NodeError.insufficient_capacity h = refl
  after_error v r so_far NodeError.protocol h = refl
  after_error v r so_far NodeError.integrity h = cc

  abbrev HasVersion : Replica → Type 0
  HasVersion r = (v : Version) × (version_at r.version_id db ≡ some v)

  known_replicas-HasVersion : (n : Text) → All HasVersion (known_replicas n db)
  unfolding known_replicas
  known_replicas-HasVersion n = All-sort_by HasVersion _ _ (
      All-weaken _ HasVersion _
        (All-select
          (λ (r : Replica).
            is_on n r && is_committed_in db r && not (r.status == ReplicaState.failed))
          db.replicas)
        (λ r kept. elim (Option-cases (version_at r.version_id db)) [
          | inl missing ↦ ground arith
          | inr found ↦ found
        ]))

  abbrev after_all : List Replica → RecoveryResult → RecoveryResult
  after_all [] so_far = so_far
  after_all (r ∷ rs) so_far = after_all rs (unreached r so_far)

  module _ (clients : ClientFactory) (node : StorageNode)
      (cut_off : IsCutOff clients node.address) where
    one_unreached :
        (now : ℕ) (r : Replica) (rs : List Replica) (so_far : RecoveryResult)
        → HasVersion r
        → reconcile_each m clients node now (r ∷ rs) so_far db
          ≡ reconcile_each m clients node (now + 1) rs (unreached r so_far) db
    unfolding reconcile_each
    one_unreached now r rs so_far (v, found) =
        let (e, answer, nothing) = cut_off now v.object_id v.version_id in
        rw (found, answer, after_error v r so_far e nothing) refl

    each_unreached :
        (now : ℕ) (rs : List Replica) (so_far : RecoveryResult)
        → All HasVersion rs
        → reconcile_each m clients node now rs so_far db ≡ (ok (after_all rs so_far), db)
    unfolding reconcile_each
    each_unreached now [] so_far all = refl
    each_unreached now (r ∷ rs) so_far all =
        one_unreached now r rs so_far all.0 ∙ each_unreached (now + 1) rs (unreached r so_far) all.1

abbrev replica_ids : List Replica → List ℕ
replica_ids rs = map (λ (r : Replica). r.replica_id) rs

-- What a node that cannot be reached is reported as.
pub record IsUnreached (known : List Replica) (result : RecoveryResult) : Type 0 where
  pub complete : result.complete ≡ false
  pub checked : result.checked_replicas ≡ 0
  pub missing : result.missing_replica_ids ≡ []
  pub corrupted : result.corrupted_replica_ids ≡ []
  pub repairs : result.repair_ids ≡ []
  pub unresolved : result.unresolved_replica_ids ≡ replica_ids known

-- The fields after a turn for each of some replicas.
record IsAfter (so_far : RecoveryResult) (known : List Replica) (d : RecoveryResult) : Type 0 where
  checked : d.checked_replicas ≡ so_far.checked_replicas
  missing : d.missing_replica_ids ≡ so_far.missing_replica_ids
  corrupted : d.corrupted_replica_ids ≡ so_far.corrupted_replica_ids
  repairs : d.repair_ids ≡ so_far.repair_ids
  complete : so_far.complete ≡ false → d.complete ≡ false
  unresolved : d.unresolved_replica_ids ≡ so_far.unresolved_replica_ids ++ replica_ids known

after_all-IsAfter :
    (m : PartitionRecoveryManager) (db : Database) (rs : List Replica) (so_far : RecoveryResult)
    → IsAfter so_far rs (after_all m db rs so_far)
after_all-IsAfter m db [] so_far = record {
  checked = refl;
  missing = refl;
  corrupted = refl;
  repairs = refl;
  complete = λ h. h;
  unresolved = sym (append_nil so_far.unresolved_replica_ids);
}
after_all-IsAfter m db (r ∷ rs) so_far =
    let rest = after_all-IsAfter m db rs (unreached r so_far) in
    record {
      checked = rest.checked;
      missing = rest.missing;
      corrupted = rest.corrupted;
      repairs = rest.repairs;
      complete = λ h. rest.complete refl;
      unresolved =
          rest.unresolved
          ∙ append_assoc so_far.unresolved_replica_ids (r.replica_id ∷ []) (replica_ids rs);
    }

module _ (m : PartitionRecoveryManager) (clients : ClientFactory) (now : ℕ) (node_id : Text)
    (db : Database) (node : StorageNode) (r : Replica) (rs : List Replica)
    (found : node_at node_id db ≡ some node) (returned : node.status ≡ NodeState.recovering)
    (known : known_replicas node_id db ≡ r ∷ rs) (cut_off : IsCutOff clients node.address) where
  abbrev outcome : RecoveryResult
  outcome = finished (after_all m db (r ∷ rs) (started node_id))

  outcome-IsUnreached : IsUnreached (r ∷ rs) outcome
  outcome-IsUnreached =
      let rest = after_all-IsAfter m db rs (unreached r (started node_id)) in
      record {
        complete = rw (rest.complete refl) refl;
        checked = rest.checked;
        missing = rest.missing;
        corrupted = rest.corrupted;
        repairs = rest.repairs;
        unresolved = rest.unresolved;
      }

  reconcile_node_unreached : reconcile_node m clients now node_id db ≡ (ok outcome, db)
  unfolding reconcile_node
  reconcile_node_unreached =
      let versions = known_replicas-HasVersion m db node_id in
      rw
        (
          found,
          returned,
          known,
          each_unreached m db clients node cut_off now (r ∷ rs) (started node_id)
              (rw known at versions),
        )
        refl

  -- While a RECOVERING node with replicas to verify cannot be reached, reconciling it changes nothing
  -- in the database, so that the node stays RECOVERING and no replica is given up: the result is
  -- incomplete, with every one of those replicas unresolved and none missing, CORRUPTED or in repair.
  pub partition_changes_nothing :
      (result : RecoveryResult) × (reconcile_and_mark_healthy m clients now node_id db
        ≡ (ok result, db))
      × IsUnreached (known_replicas node_id db) result
  unfolding reconcile_and_mark_healthy
  partition_changes_nothing = (
    outcome,
    rw (reconcile_node_unreached, outcome-IsUnreached.complete) refl,
    rw known outcome-IsUnreached,
  )
