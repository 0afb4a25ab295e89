-- ===== src/Rebalance/Safety.antt =====
-- A migration that raises has harmed no replica but a bad copy, and one that returns has left the
-- version with its replicas.
use ps.Prelude.{
  ℕ, ℤ, ◌≡◌, ◌≢◌, refl, ap, subst, true, false, some, inl, inr, arith, nat_eq, text_eq, pair_eq,
}
use ps.Table.{find, save, find_self, find-add_old}
use ps.Common.Text.{Text}
use ps.Common.Constants.{ReplicaState, replica_state_eq, job_status_eq}
use ps.Common.Errors.{ok}
use ps.Metadata.Models.{Replica, Database, replica_key}
use ps.Metadata.Replicas.{
  create_replica, set_replica_state, mark_replica_healthy, with_status, replica_transition,
}
use ps.Metadata.Replicas.Outcomes.{
  create_replica-eq-ok, set_replica_state-eq-ok, mark_replica_healthy-eq-ok,
}
use ps.Metadata.Triples.{Stays-calling}
use ps.Metadata.Consistency.{IsConsistent}
use ps.Metadata.Consistency.Preserved.Replicas.{
  create_replica-IsConsistent, set_replica_state-IsConsistent, mark_replica_healthy-IsConsistent,
}
use ps.Repair.Safety.{find-save_other}
use ps.Rebalance.Kept.{CopyKeeps}

-- The database is consistent, and every HEALTHY replica of the first database that is not on a node
-- is in its row.
pub record IsIntact (before : Database) (target : Text) (d : Database) : Type 0 where
  pub consistent : IsConsistent d
  pub healthy :
      (r : Replica)
      → r.status ≡ ReplicaState.healthy
      → r.node_id ≢ target
      → find replica_key r.replica_id before.replicas ≡ some r
      → find replica_key r.replica_id d.replicas ≡ some r

module _ (before : Database) (target : Text) where
  abbrev pub Intact : Database → Type 0
  Intact = IsIntact before target

  -- A row that is not HEALTHY is saved.
  saved-IsIntact :
      (db d : Database) (x w : Replica)
      → IsConsistent d
      → d.replicas ≡ save replica_key w db.replicas
      → x.status ≢ ReplicaState.healthy
      → w.replica_id ≡ x.replica_id
      → find replica_key x.replica_id db.replicas ≡ some x
      → Intact db
      → Intact d
  saved-IsIntact db d x w c e ill same there i = record {
    consistent = c;
    healthy = λ r well away here.
        rw e (find-save_other r w x db.replicas well ill same there (i.healthy r well away here));
  }

  pub same-IsIntact :
      (db d : Database) → IsConsistent d → d.replicas ≡ db.replicas → Intact db → Intact d
  same-IsIntact db d c e i = record {
    consistent = c;
    healthy = λ r well away here. rw e (i.healthy r well away here);
  }

  create_replica-Intact :
      (v : ℕ) (n : Text) (db : Database) (r : Replica × Database)
      → create_replica v n db ≡ ok r
      → Intact db
      → Intact r.1
  create_replica-Intact v n db r h i =
      let (_, _, _, _, _, _, _, e) = create_replica-eq-ok v n db h in
      record {
        consistent = create_replica-IsConsistent v n db r h i.consistent;
        healthy = λ x well away here.
            rw (ap (λ (z : Database). z.replicas) e)
              (find-add_old replica_key x.replica_id r.0 db.replicas (i.healthy x well away here));
      }

  set_replica_state-Intact :
      (k : ℕ) (s : ReplicaState)
      → replica_transition ReplicaState.healthy s ≡ false
      → (db : Database) (r : Replica × Database) → set_replica_state k s db ≡ ok r
      → Intact db
      → Intact r.1
  set_replica_state-Intact k s closed db r h i =
      let (x, found, outcome) = set_replica_state-eq-ok k s db h in
      let c = set_replica_state-IsConsistent k s db r h i.consistent in
      elim outcome [
        | inl (_, e) ↦ same-IsIntact db r.1 c (ap (λ (o : Replica × Database). o.1.replicas) e) i
        | inr (allowed, _, e) ↦
            saved-IsIntact db r.1 x (with_status s x) c
              (ap (λ (o : Replica × Database). o.1.replicas) e)
              (λ p. cc (subst (λ z. replica_transition z s ≡ true) p allowed, closed)) refl
              (find_self replica_key k db.replicas found) i
      ]

  mark_replica_healthy-Intact :
      (k : ℕ) (checksum : Text) (size : ℤ) (db : Database) (r : Replica × Database)
      → mark_replica_healthy k checksum size db ≡ ok r
      → Intact db
      → Intact r.1
  mark_replica_healthy-Intact k checksum size db r h i =
      let (x, w, found, _, repaired, row, e) = mark_replica_healthy-eq-ok k checksum size db h in
      saved-IsIntact db r.1 x r.0
        (mark_replica_healthy-IsConsistent k checksum size db r h i.consistent)
        (ap (λ (z : Database). z.replicas) e) (λ p. ground arith)
        (ap (λ (z : Replica). z.replica_id) row) (find_self replica_key k db.replicas found) i

  pub Intact-copies : CopyKeeps Intact
  Intact-copies = record {
    create = λ v n. Stays-calling (create_replica v n) (create_replica-Intact v n);
    set = λ k s closed. Stays-calling (set_replica_state k s) (set_replica_state-Intact k s closed);
    mark = λ k checksum size.
        Stays-calling (mark_replica_healthy k checksum size)
          (mark_replica_healthy-Intact k checksum size);
  }
