-- ===== src/Repair/Safety.antt =====
-- Repairing never harms what is well: the invariant of the database, and the HEALTHY replicas.
use ps.Prelude.{
  ℕ, ℤ, ◌≡◌, ◌≢◌, refl, sym, ap, ◌∙◌, subst, some, List, inl, inr, arith, nat_eq, some_unique,
}
use ps.Table.{find, save, find_self, find-add_old, find-save_ne}
use ps.Common.Text.{Text}
use ps.Common.Constants.{ReplicaState}
use ps.Common.Errors.{ok}
use ps.Metadata.Models.{Replica, Database, replica_key}
use ps.Metadata.Replicas.{create_replica, set_replica_state, mark_replica_healthy, with_status}
use ps.Metadata.Replicas.Outcomes.{
  create_replica-eq-ok, set_replica_state-eq-ok, mark_replica_healthy-eq-ok,
}
use ps.Metadata.Triples.{Stays-calling}
use ps.Metadata.Consistency.{IsConsistent}
use ps.Metadata.Consistency.Preserved.Replicas.{
  create_replica-IsConsistent, set_replica_state-IsConsistent, mark_replica_healthy-IsConsistent,
}
use ps.Maintenance.Clients.{ClientFactory}
use ps.Repair.Queries.{RepairManager, add_job}
use ps.Repair.Execution.{run_job}
use ps.Repair.Outcomes.{add_job-eq-ok}
use ps.Repair.Kept.{RepairKeeps, run_job-Stays}

-- Columns that are not read by the invariant.
pub IsConsistent-jobs :
    (db db' : Database)
    → db'.objects ≡ db.objects
    → db'.versions ≡ db.versions
    → db'.nodes ≡ db.nodes
    → db'.replicas ≡ db.replicas
    → IsConsistent db
    → IsConsistent db'
IsConsistent-jobs db db' o v n r c = record {
  objects = rw (o, v) c.objects;
  versions = rw (o, v) c.versions;
  nodes = rw n c.nodes;
  replicas = rw (v, n, r) c.replicas;
}

pub consistent_repairs : RepairKeeps IsConsistent
consistent_repairs = record {
  create = λ v n. Stays-calling (create_replica v n) (create_replica-IsConsistent v n);
  repairing = λ i.
      Stays-calling (set_replica_state i ReplicaState.repairing)
        (set_replica_state-IsConsistent i ReplicaState.repairing);
  mark = λ i checksum size.
      Stays-calling (mark_replica_healthy i checksum size)
        (mark_replica_healthy-IsConsistent i checksum size);
  jobs = λ job. record { at = λ db c. IsConsistent-jobs db _ refl refl refl refl c };
  add = λ v s t. Stays-calling (add_job v s t) (λ db r h c.
      let (_, _, e) = add_job-eq-ok v s t db h in
      rw e (IsConsistent-jobs db _ refl refl refl refl c));
}

-- Objects, versions and nodes are those of the first database, and so are its HEALTHY replicas.
pub record KeepsHealthy (before d : Database) : Type 0 where
  pub objects : d.objects ≡ before.objects
  pub versions : d.versions ≡ before.versions
  pub nodes : d.nodes ≡ before.nodes
  pub healthy :
      (r : Replica)
      → r.status ≡ ReplicaState.healthy
      → find replica_key r.replica_id before.replicas ≡ some r
      → find replica_key r.replica_id d.replicas ≡ some r

-- A row that is not HEALTHY is saved.
pub find-save_other :
    (r w x : Replica) (rows : List Replica)
    → r.status ≡ ReplicaState.healthy
    → x.status ≢ ReplicaState.healthy
    → w.replica_id ≡ x.replica_id
    → find replica_key x.replica_id rows ≡ some x
    → find replica_key r.replica_id rows ≡ some r
    → find replica_key r.replica_id (save replica_key w rows) ≡ some r
find-save_other r w x rows well ill same there here =
    find-save_ne replica_key r.replica_id w rows (λ (e : w.replica_id ≡ r.replica_id).
      let k : x.replica_id ≡ r.replica_id = sym same ∙ e in
      let other : x ≡ r =
        some_unique (subst (λ j. find replica_key j rows ≡ some x) k there) here in
      ill (ap (λ (z : Replica). z.status) other ∙ well))
    ∙ here

module _ (before : Database) where
  create_replica-KeepsHealthy :
      (v : ℕ) (n : Text) (db : Database) (r : Replica × Database)
      → create_replica v n db ≡ ok r
      → KeepsHealthy before db
      → KeepsHealthy before r.1
  create_replica-KeepsHealthy v n db r h k =
      let (_, _, _, _, _, _, _, e) = create_replica-eq-ok v n db h in
      rw e (record {
        objects = k.objects;
        versions = k.versions;
        nodes = k.nodes;
        healthy = λ x well there.
            find-add_old replica_key x.replica_id r.0 db.replicas (k.healthy x well there);
      })

  repairing-KeepsHealthy :
      (i : ℕ) (db : Database) (r : Replica × Database)
      → set_replica_state i ReplicaState.repairing db ≡ ok r
      → KeepsHealthy before db
      → KeepsHealthy before r.1
  repairing-KeepsHealthy i db r h k =
      let (x, found, outcome) = set_replica_state-eq-ok i ReplicaState.repairing db h in
      elim outcome [
        | inl (_, e) ↦ rw e k
        | inr (allowed, _, e) ↦ rw e (record {
          objects = k.objects;
          versions = k.versions;
          nodes = k.nodes;
          healthy = λ y well there.
              find-save_other y (with_status ReplicaState.repairing x) x db.replicas well
                (λ p. ground arith) refl (find_self replica_key i db.replicas found)
                (k.healthy y well there);
        })
      ]

  mark_replica_healthy-KeepsHealthy :
      (i : ℕ) (checksum : Text) (size : ℤ) (db : Database) (r : Replica × Database)
      → mark_replica_healthy i checksum size db ≡ ok r
      → KeepsHealthy before db
      → KeepsHealthy before r.1
  mark_replica_healthy-KeepsHealthy i checksum size db r h k =
      let (x, w, found, _, repaired, row, e) = mark_replica_healthy-eq-ok i checksum size db h in
      rw e (record {
        objects = k.objects;
        versions = k.versions;
        nodes = k.nodes;
        healthy = λ y well there.
            find-save_other y r.0 x db.replicas well (λ p. ground arith)
              (ap (λ (z : Replica). z.replica_id) row) (find_self replica_key i db.replicas found)
              (k.healthy y well there);
      })

  KeepsHealthy-jobs :
      (db db' : Database)
      → db'.objects ≡ db.objects
      → db'.versions ≡ db.versions
      → db'.nodes ≡ db.nodes
      → db'.replicas ≡ db.replicas
      → KeepsHealthy before db
      → KeepsHealthy before db'
  KeepsHealthy-jobs db db' o v n r k = record {
    objects = o ∙ k.objects;
    versions = v ∙ k.versions;
    nodes = n ∙ k.nodes;
    healthy = λ x well there. rw r (k.healthy x well there);
  }

  pub harmless_repairs : RepairKeeps (KeepsHealthy before)
  harmless_repairs = record {
    create = λ v n. Stays-calling (create_replica v n) (create_replica-KeepsHealthy v n);
    repairing =
        λ i. Stays-calling (set_replica_state i ReplicaState.repairing) (repairing-KeepsHealthy i);
    mark = λ i checksum size.
        Stays-calling (mark_replica_healthy i checksum size)
          (mark_replica_healthy-KeepsHealthy i checksum size);
    jobs = λ job. record { at = λ db k. KeepsHealthy-jobs db _ refl refl refl refl k };
    add = λ v s t. Stays-calling (add_job v s t) (λ db r h k.
        let (_, _, e) = add_job-eq-ok v s t db h in
        rw e (KeepsHealthy-jobs db _ refl refl refl refl k));
  }

-- The execution of a repair job keeps the database consistent, whatever the storage nodes answer
-- and whatever is raised on the way.
pub run_job-IsConsistent :
    (m : RepairManager) (clients : ClientFactory) (now repair_id : ℕ) (db : Database)
    → IsConsistent db
    → IsConsistent (run_job m clients now repair_id db).1
run_job-IsConsistent m clients now repair_id db c =
    (run_job-Stays consistent_repairs m clients now repair_id).at db c

-- The execution of a repair job, whatever the storage nodes answer and whatever is raised on the
-- way, leaves the objects, the versions and the nodes as they were, and every HEALTHY replica in
-- its row, with its node, its digest and its size.
pub run_job-KeepsHealthy :
    (m : RepairManager) (clients : ClientFactory) (now repair_id : ℕ) (db : Database)
    → KeepsHealthy db (run_job m clients now repair_id db).1
run_job-KeepsHealthy m clients now repair_id db =
    (run_job-Stays (harmless_repairs db) m clients now repair_id).at db
      (record { objects = refl; versions = refl; nodes = refl; healthy = λ r well there. there })
