-- ===== src/Repair/Selected.antt =====
-- The job that scheduling returns can be run: it is a row of its table, for the version, and PENDING
-- or RUNNING.
use ps.Prelude.{
  ℕ, pos, ◌≡◌, refl, ap, ◌∙◌, subst, true, Option, none, some, arith, first, leb, nat_eq, text_eq,
  nat_beq_iff, if◌then◌else◌,
}
use ps.Table.{find, IsUnique, IsUnique-add, find-add, find-find_first, find_first-holds, key-find}
use ps.Common.Text.{Text}
use ps.Common.Constants.{ErrorCode}
use ps.Common.Errors.{VaultError, Failure, ok, vault, or_raise}
use ps.Metadata.Models.{Version, Replica, RepairJob, Database, version_key}
use ps.Metadata.Session.{pure, reading, ◌>>=◌}
use ps.Metadata.Triples.{Triple, Triple->>=, Triple-calling, Triple-reading, Triple-if}
use ps.Metadata.Consistency.{IsConsistent}
use ps.Placement.{validate_factor}
use ps.Replication.Commit.{healthy_replica_count}
use ps.Maintenance.Rows.{find_version, is_active}
use ps.Repair.Queries.{
  RepairManager, repair_key, healthy_sources, target_for_version, is_active_for, active_job,
  check_nodes, add_job,
}
use ps.Repair.Scheduling.{
  or_add_job, create_job, or_create_job, schedule_repair, is_served, schedule_for_version,
}
use ps.Repair.Outcomes.{add_job-eq-ok}
use ps.Repair.Safety.{IsConsistent-jobs}

-- A consistent database with so many HEALTHY replicas of a version, whose repair jobs have distinct
-- keys.
pub record IsKeyed (v count : ℕ) (d : Database) : Type 0 where
  pub consistent : IsConsistent d
  pub counted : healthy_replica_count v d.replicas ≡ count
  pub keyed : IsUnique repair_key d.repair_jobs

pub record IsReady (v : ℕ) (job : RepairJob) (d : Database) : Type 0 where
  pub version : job.version_id ≡ v
  pub there : find repair_key job.repair_id d.repair_jobs ≡ some job
  pub active : is_active job.status ≡ true

abbrev pub Nothing : Failure → Database → Type 0
Nothing e d = Unit

module _ (v count : ℕ) where
  abbrev pub Chosen : RepairJob → Database → Type 0
  Chosen job d = IsKeyed v count d × IsReady v job d

  active_job-IsReady :
      (target : Text) (d : Database) (job : RepairJob)
      → IsKeyed v count d
      → active_job v target d ≡ some job
      → IsReady v job d
  unfolding active_job
  active_job-IsReady target d job k h =
      let holds = find_first-holds (is_active_for v target) d.repair_jobs h in
      record {
        version = (nat_beq_iff job.version_id v).0 (ground arith);
        there = find-find_first repair_key (is_active_for v target) d.repair_jobs k.keyed h;
        active = ground arith;
      }

  added-IsReady :
      (s t : Text) (d : Database) (r : RepairJob × Database)
      → add_job v s t d ≡ ok r
      → IsKeyed v count d
      → Chosen r.0 r.1
  added-IsReady s t d r h k =
      let (row, fresh, e) = add_job-eq-ok v s t d h in
      (
        rw e (record {
          consistent = IsConsistent-jobs d _ refl refl refl refl k.consistent;
          counted = k.counted;
          keyed = IsUnique-add repair_key r.0 d.repair_jobs fresh k.keyed;
        }),
        record {
          version = ap (λ (j : RepairJob). j.version_id) row;
          there = rw e (
              find-add repair_key r.0.repair_id r.0 d.repair_jobs
              ∙ rw fresh (rw ((nat_beq_iff r.0.repair_id r.0.repair_id).1 refl) refl));
          active = rw row refl;
        },
      )

  abbrev Looked : Text → Option RepairJob → Database → Type 0
  Looked t o d = IsKeyed v count d × (active_job v t d ≡ o)

  or_add_job-Chosen :
      (o : Option RepairJob) (s t : Text) → Triple (Looked t o) (or_add_job o v s t) Chosen Nothing
  or_add_job-Chosen (some job) s t = λ d (k, h). (k, active_job-IsReady t d job k h)
  or_add_job-Chosen none s t =
      Triple-calling (Looked t none) Chosen Nothing (add_job v s t)
        (λ d r h a. added-IsReady s t d r h a.0) (λ e d a. tt)

  create_job-Chosen : (s t : Text) → Triple (IsKeyed v count) (create_job v s t) Chosen Nothing
  unfolding create_job
  create_job-Chosen s t =
      let K = IsKeyed v count in
      Triple->>= K (λ _. K) Chosen Nothing (reading (check_nodes v s t)) _
        (Triple-reading K (λ _. K) Nothing (check_nodes v s t) (λ d a h k. k) (λ e d k. tt))
        (λ done.
          Triple->>= K (Looked t) Chosen Nothing (reading (λ db. ok (active_job v t db)))
            (λ active. or_add_job active v s t) (λ d k. (k, refl)) (λ o. or_add_job-Chosen o s t))

  or_create_job-Chosen :
      (o : Option RepairJob) (s t : Text)
      → Triple (Looked t o) (or_create_job o v s t) Chosen Nothing
  or_create_job-Chosen (some job) s t d (k, h) = (k, active_job-IsReady t d job k h)
  or_create_job-Chosen none s t d (k, h) = create_job-Chosen s t d k

  -- A job of the version, or the reason why there is none.
  abbrev pub Scheduled : ℕ → Option RepairJob → Database → Type 0
  Scheduled factor none d = IsKeyed v count d × (leb factor count ≡ true)
  Scheduled factor (some job) d = Chosen job d

schedule_repair-Scheduled :
    (count factor : ℕ) (version : Version) (preferred : Option Replica)
    → Triple
        (IsKeyed version.version_id count)
        (schedule_repair version preferred)
        (Scheduled version.version_id count factor)
        Nothing
unfolding schedule_repair
schedule_repair-Scheduled count factor version preferred =
    let v = version.version_id in
    let K = IsKeyed v count in
    let S = Scheduled v count factor in
    let sources = λ (db : Database).
      or_raise (first (healthy_sources v db))
        (vault (VaultError.plain ErrorCode.node_unavailable 503)) in
    Triple->>= K (λ _. K) S Nothing (reading sources) _
      (Triple-reading K (λ _. K) Nothing sources (λ d a h k. k) (λ e d k. tt))
      (λ source.
        Triple->>= K (λ _. K) S Nothing (reading (target_for_version version preferred)) _
          (Triple-reading K (λ _. K) Nothing (target_for_version version preferred) (λ d a h k. k)
            (λ e d k. tt))
          (λ target.
            Triple->>= K (Looked v count target.node_id) S Nothing
              (reading (λ db. ok (active_job v target.node_id db))) _ (λ d k. (k, refl))
              (λ o.
                Triple->>= (Looked v count target.node_id o) (Chosen v count) S Nothing
                  (or_create_job o v source.node_id target.node_id) (λ job. pure (some job))
                  (or_create_job-Chosen v count o source.node_id target.node_id) (λ job d c. c))))

module _ (v count : ℕ) where
  unserved : (n healthy : ℕ) → is_served n healthy none ≡ true → leb n healthy ≡ true
  unserved n healthy h = ground arith

  pub schedule_for_version-Scheduled :
      (m : RepairManager) (n : ℕ)
      → Triple
          (IsKeyed v count)
          (schedule_for_version m v (some (pos n)) none)
          (Scheduled v count n)
          Nothing
  unfolding schedule_for_version validate_factor
  schedule_for_version-Scheduled m n =
      let K = IsKeyed v count in
      let S = Scheduled v count n in
      let Q = λ (f : ℕ) (d : Database). K d × (f ≡ n) in
      Triple->>= K Q S Nothing (reading (λ db. validate_factor (pos n))) _
        (Triple-reading K Q Nothing (λ db. validate_factor (pos n)) (λ d f h k. (k, ground arith))
          (λ e d k. tt))
        (λ f d (k, e). rw e (
          let W = λ (w : Version) (d' : Database). K d' × (w.version_id ≡ v) in
          Triple->>= K W S Nothing (reading (find_version v))
            (λ w. reading (λ db. ok (healthy_replica_count v db.replicas)) >>= λ healthy.
              if is_served n healthy none then pure none else schedule_repair w none)
            (Triple-reading K W Nothing (find_version v)
              (λ d' w h k'. (k', key-find version_key v d'.versions {r = w} (ground arith)))
              (λ e' d' k'. tt))
            (λ w d' (k', mine).
              Triple-if K S Nothing (is_served n (healthy_replica_count v d'.replicas) none)
                (pure none) (schedule_repair w none)
                (λ served d'' k''. (k'', rw (← k'.counted) (unserved n _ served)))
                (λ _.
                  subst
                    (λ u.
                      Triple (IsKeyed u count) (schedule_repair w none) (Scheduled u count n)
                        Nothing)
                    mine (schedule_repair-Scheduled count n w none))
                d' k')
            d k))
