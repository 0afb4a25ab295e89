-- ===== src/Integrity/Evidence.antt =====
-- A replica is called CORRUPTED on the evidence of its node, and on nothing else.
use ps.Prelude.{
  ℕ, ℤ, pos, ◌≡◌, ◌↔◌, ◌⊎◌, refl, sym, ap, ◌∙◌, subst, true, Bool-cases, inl, inr, Option, none,
  some, arith, nat_eq, text_eq, absurd_eq, if◌then◌else◌,
}
use ps.Table.{find, save, find-save_self, key-find}
use ps.Common.Text.{Text, lower}
use ps.Common.Constants.{NodeState, ReplicaState, VersionState}
use ps.Common.Errors.{Result, ok, err}
use ps.Metadata.Models.{
  Version, StorageNode, Replica, Database, replica_key, replica_at, version_at, node_at,
}
use ps.Metadata.Replicas.{set_replica_state, record_replica_verification, with_status}
use ps.Metadata.Replicas.Outcomes.{record_replica_verification-eq-ok}
use ps.Metadata.Session.{pure, continue}
use ps.Metadata.Triples.{Stays, Stays-calling, Stays->>=, calling-ok, stays}
use ps.Replication.Writes.{Verification}
use ps.Maintenance.Clients.{NodeClient, ClientFactory}
use ps.Repair.Queries.{add_job}
use ps.Repair.Outcomes.{add_job-eq-ok}
use ps.Repair.Kept.{schedule_for_version-Stays}
use ps.Repair.Scheduling.{schedule_for_version}
use ps.Integrity.Measured.{IsMeasured, IsMeasured-is_match, is_match-IsMeasured}
use ps.Integrity.Verify.{
  IntegrityManager, is_match, report_corruption, report_match, inspect, is_inspected,
  verify_replica, checked_result, repair_id_of,
}

-- The node has answered, and what it measured is not the version that the replica is of.
abbrev pub IsMismatch : NodeClient → Version → Replica → Type 0
IsMismatch client version replica =
    (measured : Verification) × (client.verify_object version.object_id version.version_id
      ≡ ok measured)
    × (¬ IsMeasured replica version measured)

-- The row of the replica is HEALTHY, or it is CORRUPTED: just then the node gave evidence.
pub record IsJudged (client : NodeClient) (version : Version) (replica : Replica) (d : Database)
    : Type 0 where
  pub row : Replica
  pub there : replica_at replica.replica_id d ≡ some row
  pub judged : (row.status ≡ ReplicaState.healthy) ⊎ (row.status ≡ ReplicaState.corrupted)
  pub evidence : (row.status ≡ ReplicaState.corrupted) ↔ IsMismatch client version replica

ok-injective : {A : Type 0} {a b : A} → ◌≡◌ {A = Result A} (ok a) (ok b) → a ≡ b
ok-injective h = cc

module _ (m : IntegrityManager) (client : NodeClient) (version : Version) (x : Replica)
    (well : x.status ≡ ReplicaState.healthy) where
  healthy-IsJudged :
      (d : Database) (row : Replica)
      → replica_at x.replica_id d ≡ some row
      → row.status ≡ ReplicaState.healthy
      → ¬ IsMismatch client version x
      → IsJudged client version x d
  healthy-IsJudged d row there h never = record {
    row = row;
    there = there;
    judged = inl h;
    evidence = ((λ p. cc (sym h ∙ p)), λ q. absurd (never q));
  }

  corrupted-IsJudged :
      (d : Database) (row : Replica)
      → replica_at x.replica_id d ≡ some row
      → row.status ≡ ReplicaState.corrupted
      → IsMismatch client version x
      → IsJudged client version x d
  corrupted-IsJudged d row there h shown = record {
    row = row;
    there = there;
    judged = inr h;
    evidence = ((λ p. shown), λ q. h);
  }

  -- The row of the replica is there, in a state.
  abbrev InState : ReplicaState → Database → Type 0
  InState s d = (row : Replica) × (replica_at x.replica_id d ≡ some row) × (row.status ≡ s)

  verification-InState :
      (checksum : Text) (size : ℤ) (db : Database) (r : Replica × Database)
      → record_replica_verification x.replica_id checksum size db ≡ ok r
      → InState ReplicaState.healthy db
      → InState ReplicaState.healthy r.1
  verification-InState checksum size db r h i =
      let (y, v, found, _, status, row, e) =
        record_replica_verification-eq-ok x.replica_id checksum size db h in
      let id : r.0.replica_id ≡ x.replica_id =
        ap (λ (z : Replica). z.replica_id) row
        ∙ key-find replica_key x.replica_id db.replicas found in
      (
        r.0,
        rw e (
            subst (λ k. find replica_key k (save replica_key r.0 db.replicas) ≡ some r.0) id
              (find-save_self replica_key r.0 db.replicas
                (λ p. absurd_eq (subst (λ k. find replica_key k db.replicas ≡ none) id p) found))),
        ap (λ (z : Replica). z.status) row,
      )

  report_match-Stays :
      (measured : Verification) → Stays (InState ReplicaState.healthy) (report_match x measured)
  unfolding report_match
  report_match-Stays measured = search (
    stays,
    Stays-calling
        (record_replica_verification x.replica_id (lower measured.checksum)
          (pos measured.size_bytes))
        (verification-InState (lower measured.checksum) (pos measured.size_bytes)),
  )

  scheduled-InState :
      (v : ℕ) (factor : Option ℤ) (preferred : Option Replica)
      → Stays (InState ReplicaState.corrupted) (schedule_for_version m.repairs v factor preferred)
  scheduled-InState v factor preferred =
      schedule_for_version-Stays
        (λ u s t.
          Stays-calling (add_job u s t)
            (λ db r h i. let (_, _, e) = add_job-eq-ok u s t db h in rw e i))
        m.repairs v factor preferred

  marks :
      (db : Database)
      → replica_at x.replica_id db ≡ some x
      → set_replica_state x.replica_id ReplicaState.corrupted db
        ≡ ok (
          with_status ReplicaState.corrupted x,
          record db {
            replicas = save replica_key (with_status ReplicaState.corrupted x) db.replicas;
          },
        )
  unfolding set_replica_state
  marks db there = rw (there, well) refl

  report_corruption-InState :
      (measured : Verification) (db : Database)
      → replica_at x.replica_id db ≡ some x
      → InState ReplicaState.corrupted (report_corruption m version x measured db).1
  unfolding report_corruption
  report_corruption-InState measured db there =
      let w = with_status ReplicaState.corrupted x in
      let db' = record db { replicas = save replica_key w db.replicas } in
      rw (calling-ok (set_replica_state x.replica_id ReplicaState.corrupted) db (marks db there)) (
        (Stays->>=
            (schedule_for_version m.repairs version.version_id (some (pos m.replication_factor))
              (some w))
            (λ job. pure (checked_result x measured true (repair_id_of job)))
            (scheduled-InState version.version_id (some (pos m.replication_factor)) (some w))
            (λ job. search (stays))).at
          db' (w, find-save_self replica_key w db.replicas (λ p. absurd_eq p there), refl))

  -- The inspection of a HEALTHY replica judges it.
  inspect-IsJudged :
      (db : Database)
      → replica_at x.replica_id db ≡ some x
      → IsJudged client version x (inspect m client version x db).1
  unfolding inspect
  inspect-IsJudged db there = go (client.verify_object version.object_id version.version_id) refl
    where
      go :
          (o : Result Verification)
          → client.verify_object version.object_id version.version_id ≡ o
          → IsJudged client version x
              (continue
                (o, db)
                (λ measured.
                  if is_match x version measured
                  then report_match x measured
                  else report_corruption m version x measured)).1
      go (err e) h = healthy-IsJudged db x there well (λ (_, said, _). cc (sym h ∙ said))
      go (ok measured) h = elim (Bool-cases (is_match x version measured)) [
        | inl same ↦
            let (row, found, status) = (report_match-Stays measured).at db (x, there, well) in
            rw same (
              healthy-IsJudged (report_match x measured db).1 row found status
                (λ (other, said, differs).
                  let one : measured ≡ other = ok-injective (sym h ∙ said) in
                  absurd (
                    differs (
                      subst (IsMeasured x version) one
                        (IsMeasured-is_match x version measured same)))))
        | inr differs ↦
            let (row, found, status) = report_corruption-InState measured db there in
            rw differs (
              corrupted-IsJudged (report_corruption m version x measured db).1 row found status (
                measured,
                h,
                λ whole. let same = is_match-IsMeasured x version measured whole in cc,
              ))
      ]

-- A committed, HEALTHY replica on a HEALTHY node is verified: it stays HEALTHY, or it becomes
-- CORRUPTED, and that exactly if the node has answered with a measurement that is not that of the
-- version or not that of the replica: it is not verified or not valid, or its checksum (but for
-- case) or its size is not the version's, or not the one that the row of the replica carries.
-- Silence of the node is no evidence.
pub verify_replica_judges :
    (m : IntegrityManager) (clients : ClientFactory) (now : ℕ) (db : Database) (x : Replica)
    (version : Version) (node : StorageNode)
    → replica_at x.replica_id db ≡ some x
    → version_at x.version_id db ≡ some version
    → node_at x.node_id db ≡ some node
    → version.state ≡ VersionState.committed
    → node.status ≡ NodeState.healthy
    → x.status ≡ ReplicaState.healthy
    → IsJudged (clients now node.address) version x (verify_replica m clients now x.replica_id db).1
unfolding verify_replica
verify_replica_judges m clients now db x version node there v n committed up well =
    let inspected : is_inspected version node x ≡ true = ground arith in
    rw (there, v, n, inspected)
      (inspect-IsJudged m (clients now node.address) version x well db there)
