-- ===== src/Recovery/Counted.antt =====
-- How the turns of a reconciliation are counted, and that it writes no node.
use ps.Prelude.{
  ℕ, ◌+◌, ◌≡◌, inl, inr, true, false, none, some, List, [], ◌∷◌, arith, length, length-append,
}
use ps.Common.Constants.{ReplicaState, node_state_eq}
use ps.Common.Errors.{
  NodeError, Failure, Result, ok, err, vault, node_error, value_error, type_error, integrity_error,
}
use ps.Metadata.Models.{Version, StorageNode, Replica, Database}
use ps.Metadata.Replicas.{set_replica_state, mark_replica_healthy, record_replica_verification}
use ps.Metadata.Replicas.Outcomes.{
  set_replica_state-eq-ok, mark_replica_healthy-eq-ok, record_replica_verification-eq-ok,
}
use ps.Metadata.Session.{reading, pure}
use ps.Metadata.Triples.{
  Triple, Triple->>=, Triple-if, Triple-keeps, Stays-calling, Stays-reading, stays,
}
use ps.Replication.Writes.{Verification}
use ps.Maintenance.Clients.{ClientFactory}
use ps.Maintenance.Rows.{find_version}
use ps.Repair.Queries.{add_job}
use ps.Repair.Outcomes.{add_job-eq-ok}
use ps.Recovery.Reconcile.{
  RecoveryResult, PartitionRecoveryManager, Scheduled, agrees, note_repair, unresolved,
  count_healthy, count_missing, count_corrupted, give_to_repair, accept, after_answer,
  reconcile_each, demote, schedule_repair, mark_verified_replica,
}
use ps.Recovery.Consistent.{RecoveryKeeps, mark_verified_replica-Stays, schedule_repair-Stays}

-- Each turn that was answered is counted, as HEALTHY, missing or CORRUPTED.
pub record Counts (turns : ℕ) (d : RecoveryResult) : Type 0 where
  pub answered :
      d.checked_replicas
      ≡ d.healthy_replicas + (length d.missing_replica_ids + length d.corrupted_replica_ids)
  pub all_answered : d.complete ≡ true → d.checked_replicas ≡ turns

module _ (turns : ℕ) (r : Replica) where
  Counts-note :
      (s : Scheduled) (d : RecoveryResult) → Counts turns d → Counts turns (note_repair r s d)
  Counts-note (none, true) d c = record { answered = c.answered; all_answered = c.all_answered }
  Counts-note (none, false) d c = c
  Counts-note (some i, true) d c = record { answered = c.answered; all_answered = c.all_answered }
  Counts-note (some i, false) d c = record { answered = c.answered; all_answered = c.all_answered }

  Counts-healthy : (d : RecoveryResult) → Counts turns d → Counts (turns + 1) (count_healthy d)
  Counts-healthy d c = record {
    answered = omega (arith, c.answered);
    all_answered = λ h. omega (arith, c.all_answered h);
  }

  Counts-missing : (d : RecoveryResult) → Counts turns d → Counts (turns + 1) (count_missing r d)
  Counts-missing d c =
      let more = length-append d.missing_replica_ids (r.replica_id ∷ []) in
      record {
        answered = omega (arith, c.answered, more);
        all_answered = λ h. omega (arith, c.all_answered h);
      }

  Counts-corrupted :
      (d : RecoveryResult) → Counts turns d → Counts (turns + 1) (count_corrupted r d)
  Counts-corrupted d c =
      let more = length-append d.corrupted_replica_ids (r.replica_id ∷ []) in
      record {
        answered = omega (arith, c.answered, more);
        all_answered = λ h. omega (arith, c.all_answered h);
      }

  Counts-unreached :
      (d : RecoveryResult)
      → Counts turns d
      → Counts (turns + 1) (record (unresolved r d) { complete = false })
  Counts-unreached d c = record { answered = c.answered; all_answered = λ h. cc }

-- The rows of the nodes are those of the first database.
module _ (before : Database) where
  abbrev pub SameNodes : Database → Type 0
  SameNodes d = d.nodes ≡ before.nodes

  SameNodes-recovery : RecoveryKeeps SameNodes
  SameNodes-recovery = record {
    set = λ i s. Stays-calling (set_replica_state i s) (λ db r h same.
        let (x, found, outcome) = set_replica_state-eq-ok i s db h in
        elim outcome [ inl (_, e) ↦ rw e same | inr (_, _, e) ↦ rw e same ]);
    mark = λ i c z. Stays-calling (mark_replica_healthy i c z) (λ db r h same.
        let (_, _, _, _, _, _, e) = mark_replica_healthy-eq-ok i c z db h in rw e same);
    verify = λ i c z. Stays-calling (record_replica_verification i c z) (λ db r h same.
        let (_, _, _, _, _, _, e) = record_replica_verification-eq-ok i c z db h in rw e same);
    add = λ v s t.
        Stays-calling (add_job v s t)
          (λ db r h same. let (_, _, e) = add_job-eq-ok v s t db h in rw e same);
  }

  abbrev pub Counted : ℕ → RecoveryResult → Database → Type 0
  Counted turns result d = SameNodes d × Counts turns result

  abbrev pub Unmoved : Failure → Database → Type 0
  Unmoved e d = SameNodes d

  module _ (m : PartitionRecoveryManager) (v : Version) (r : Replica) (so_far : RecoveryResult)
      (turns : ℕ) (counts : Counts turns so_far) where
    give_to_repair-Counted :
        (s : ReplicaState) (counted : RecoveryResult)
        → Counts (turns + 1) counted
        → Triple SameNodes (give_to_repair m v r so_far s counted) (Counted (turns + 1)) Unmoved
    unfolding give_to_repair
    give_to_repair-Counted s counted c =
        Triple->>= SameNodes (λ _. SameNodes) (Counted (turns + 1)) Unmoved (demote r s) _
          (Triple-keeps (demote r s) (search (stays, SameNodes-recovery.set)))
          (λ done.
            Triple->>= SameNodes (λ _. SameNodes) (Counted (turns + 1)) Unmoved
              (schedule_repair m v.version_id r) _
              (Triple-keeps (schedule_repair m v.version_id r)
                (schedule_repair-Stays SameNodes-recovery m v.version_id r))
              (λ scheduled d same. (same, Counts-note (turns + 1) r scheduled counted c)))

    accept-Counted :
        (x : Verification) → Triple SameNodes (accept m v r so_far x) (Counted (turns + 1)) Unmoved
    unfolding accept
    accept-Counted x =
        Triple->>= SameNodes (λ _. SameNodes) (Counted (turns + 1)) Unmoved
          (mark_verified_replica r.status r x) _
          (Triple-keeps (mark_verified_replica r.status r x)
            (mark_verified_replica-Stays SameNodes-recovery r.status r x))
          (λ done d same. (same, Counts-healthy turns r so_far counts))

    uncounted :
        Triple SameNodes
          (pure (record (unresolved r so_far) { complete = false }))
          (Counted (turns + 1))
          Unmoved
    uncounted d same = (same, Counts-unreached turns r so_far counts)

    after_answer-Counted :
        (o : Result Verification)
        → Triple SameNodes (after_answer m v r so_far o) (Counted (turns + 1)) Unmoved
    unfolding after_answer
    after_answer-Counted (ok x) =
        Triple-if SameNodes (Counted (turns + 1)) Unmoved (agrees v x) _ _ (λ h. accept-Counted x)
          (λ h. give_to_repair-Counted _ _ (Counts-corrupted turns r so_far counts))
    after_answer-Counted (err (node_error NodeError.object_missing)) =
        give_to_repair-Counted _ _ (Counts-missing turns r so_far counts)
    after_answer-Counted (err (node_error NodeError.integrity)) =
        give_to_repair-Counted _ _ (Counts-corrupted turns r so_far counts)
    after_answer-Counted (err (node_error NodeError.unavailable)) = uncounted
    after_answer-Counted (err (node_error NodeError.invalid_request)) = uncounted
    after_answer-Counted (err (node_error NodeError.object_exists)) = uncounted
    after_answer-Counted (err (node_error NodeError.insufficient_capacity)) = uncounted
    after_answer-Counted (err (node_error NodeError.protocol)) = uncounted
    after_answer-Counted (err (vault e)) = λ d same. same
    after_answer-Counted (err value_error) = λ d same. same
    after_answer-Counted (err type_error) = λ d same. same
    after_answer-Counted (err integrity_error) = λ d same. same

  module _ (m : PartitionRecoveryManager) (clients : ClientFactory) where
    pub reconcile_each-Counted :
        (n : StorageNode) (now : ℕ) (rs : List Replica) (so_far : RecoveryResult) (turns total : ℕ)
        → total ≡ turns + length rs
        → Counts turns so_far
        → Triple SameNodes (reconcile_each m clients n now rs so_far) (Counted total) Unmoved
    unfolding reconcile_each
    reconcile_each-Counted n now [] so_far turns total size counts =
        let e : total ≡ turns = omega arith in λ d same. (same, rw e counts)
    reconcile_each-Counted n now (r ∷ rs) so_far turns total size counts =
        Triple->>= SameNodes (λ _. SameNodes) (Counted total) Unmoved
          (reading (find_version r.version_id)) _
          (Triple-keeps (reading (find_version r.version_id))
            (Stays-reading (find_version r.version_id)))
          (λ v d same.
            Triple->>= SameNodes (Counted (turns + 1)) (Counted total) Unmoved
              (after_answer m v r so_far
                ((clients now n.address).verify_object v.object_id v.version_id))
              (reconcile_each m clients n (now + 1) rs)
              (after_answer-Counted m v r so_far turns counts
                ((clients now n.address).verify_object v.object_id v.version_id))
              (λ next d' (same', counts').
                reconcile_each-Counted n (now + 1) rs next (turns + 1) total (omega arith) counts'
                  d' same')
              d same)
