-- ===== src/Rebalance/Copies.antt =====
-- The test whether the target has the copy already, which may mark its replica CORRUPTED.
use ps.Prelude.{
  ◌≡◌, sym, ap, ◌∙◌, subst, true, false, Option, none, some, inl, inr, nat_eq, text_eq, pair_eq,
  some_unique, ◌==◌,
}
use ps.Table.{find, find-save_ne}
use ps.Common.Constants.{ReplicaState, replica_state_eq, job_status_eq}
use ps.Common.Errors.{Failure, ok}
use ps.Metadata.Models.{Version, Replica, RebalanceJob, Database, replica_key}
use ps.Metadata.Replicas.{set_replica_state, with_status}
use ps.Metadata.Replicas.Outcomes.{set_replica_state-eq-ok}
use ps.Metadata.Session.{pure, reading, calling, ◌>>◌}
use ps.Metadata.Triples.{Triple, Triple->>=, Triple-calling, Triple-reading, Triple-if}
use ps.Metadata.Consistency.Preserved.Replicas.{set_replica_state-IsConsistent}
use ps.Maintenance.Clients.{NodeClient}
use ps.Rebalance.Queries.{matches_metadata}
use ps.Rebalance.Migration.{recheck, has_copy}
use ps.Rebalance.Safety.{Intact, same-IsIntact}

module _ (before : Database) (job : RebalanceJob) where
  abbrev pub I : Database → Type 0
  I = Intact before job.target_node_id

  abbrev pub E : Failure → Database → Type 0
  E e = I

  -- The target's replica that was read before the attempt.
  abbrev pub OnTarget : Option Replica → Database → Type 0
  OnTarget none d = Unit
  OnTarget (some r) d =
      (find replica_key r.replica_id d.replicas ≡ some r) × (r.node_id ≡ job.target_node_id)

  corrupted-Intact :
      (x : Replica) (db : Database) (r : Replica × Database)
      → set_replica_state x.replica_id ReplicaState.corrupted db ≡ ok r
      → I db × OnTarget (some x) db
      → I r.1
  corrupted-Intact x db r h (i, (there, on)) =
      let (y, found, outcome) = set_replica_state-eq-ok x.replica_id ReplicaState.corrupted db h in
      let c =
        set_replica_state-IsConsistent x.replica_id ReplicaState.corrupted db r h i.consistent in
      let same : y ≡ x = some_unique found there in
      elim outcome [
        | inl (_, e) ↦
            same-IsIntact before job.target_node_id db r.1 c
              (ap (λ (o : Replica × Database). o.1.replicas) e) i
        | inr (_, _, e) ↦ record {
          consistent = c;
          healthy = λ z well away here. rw (ap (λ (o : Replica × Database). o.1.replicas) e) (
              find-save_ne replica_key z.replica_id (with_status ReplicaState.corrupted y)
                db.replicas
                (λ p.
                  let kept = i.healthy z well away here in
                  let k : x.replica_id ≡ z.replica_id =
                    ap (λ (w : Replica). w.replica_id) (sym same) ∙ p in
                  let one : x ≡ z =
                    some_unique (subst (λ j. find replica_key j db.replicas ≡ some x) k there)
                      kept in
                  away (ap (λ (w : Replica). w.node_id) (sym one) ∙ on))
              ∙ i.healthy z well away here);
        }
      ]

  pub has_copy-Intact :
      (t : NodeClient) (v : Version) (o : Option Replica)
      → Triple (λ d. I d × OnTarget o d) (has_copy t v o) (λ _. I) E
  unfolding has_copy recheck
  has_copy-Intact t v none = λ d i. i.0
  has_copy-Intact t v (some x) =
      let P = λ (d : Database). I d × OnTarget (some x) d in
      Triple-if P (λ _. I) E (x.status == ReplicaState.healthy) (recheck t v x) (pure false)
        (λ well.
          Triple->>= P (λ _. P) (λ _. I) E
            (reading (λ db. t.verify_object v.object_id v.version_id)) _
            (Triple-reading P (λ _. P) E (λ db. t.verify_object v.object_id v.version_id)
              (λ d a h p. p) (λ e d p. p.0))
            (λ measured.
              Triple-if P (λ _. I) E (matches_metadata v measured) (pure true)
                (calling (set_replica_state x.replica_id ReplicaState.corrupted) >> pure false)
                (λ good d p. p.0)
                (λ bad.
                  Triple->>= P (λ _. I) (λ _. I) E
                    (calling (set_replica_state x.replica_id ReplicaState.corrupted)) _
                    (Triple-calling P (λ _. I) E
                      (set_replica_state x.replica_id ReplicaState.corrupted) (corrupted-Intact x)
                      (λ e d p. p.0))
                    (λ done d i. i))))
        (λ ill d p. p.0)
