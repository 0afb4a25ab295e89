-- ===== src/Repair/Targets.antt =====
-- The replica that a repair job writes to: found or created, and REPAIRING before the copy begins.
use ps.Prelude.{
  ℕ, ◌≡◌, ◌≢◌, ◌⊎◌, refl, sym, ap, ◌∙◌, subst, some_unique, absurd_eq, Option, none, some, List,
  inl, inr, nat_eq, text_eq, pair_eq, nat_beq_iff,
}
use ps.Table.{find, find_unique, find-add, find_self, find-save_self, key-find}
use ps.Common.Text.{Text, strip}
use ps.Common.Constants.{ReplicaState}
use ps.Common.Errors.{Failure, ok}
use ps.Metadata.Models.{Replica, RepairJob, Database, replica_key, replica_slot, replica_on}
use ps.Metadata.Replicas.{create_replica, set_replica_state, with_status}
use ps.Metadata.Replicas.Outcomes.{create_replica-eq-ok, set_replica_state-eq-ok}
use ps.Metadata.Session.{calling, reading}
use ps.Metadata.Triples.{Triple, Triple->>=, Triple-calling}
use ps.Metadata.Consistency.{IsConsistent}
use ps.Metadata.Consistency.Preserved.Replicas.{
  create_replica-IsConsistent, set_replica_state-IsConsistent,
}
use ps.Replication.Commit.{healthy_replica_count}
use ps.Replication.Counts.{count-add_ill, count-save_ill}
use ps.Repair.Execution.{or_create, enter_repairing, replica_for_target}

-- A consistent database with so many HEALTHY replicas of a version.
pub record Counted (v count : ℕ) (jobs : List RepairJob) (d : Database) : Type 0 where
  pub consistent : IsConsistent d
  pub counted : healthy_replica_count v d.replicas ≡ count
  pub same_jobs : d.repair_jobs ≡ jobs

abbrev pub IsNode : Text → Text → Type 0
IsNode node_id name = (node_id ≡ name) ⊎ (node_id ≡ strip name)

-- The row with the key of a replica is one of the version on the node.
pub record IsTarget (v : ℕ) (name : Text) (i : ℕ) (s : ReplicaState) (d : Database) : Type 0 where
  pub row : Replica
  pub there : find replica_key i d.replicas ≡ some row
  pub version : row.version_id ≡ v
  pub node : IsNode row.node_id name
  pub status : row.status ≡ s

module _ (job : RepairJob) (count : ℕ) (jobs : List RepairJob) where
  abbrev pub Before : Database → Type 0
  Before = Counted job.version_id count jobs

  abbrev pub After : ReplicaState → Replica → Database → Type 0
  After s r d = Before d × IsTarget job.version_id job.target_node_id r.replica_id s d

  found-IsTarget :
      (r : Replica) (d : Database)
      → Before d
      → replica_on job.version_id job.target_node_id d ≡ some r
      → After r.status r d
  found-IsTarget r d b h =
      let slot : replica_slot r ≡ (job.version_id, job.target_node_id) =
        key-find replica_slot (job.version_id, job.target_node_id) d.replicas h in
      (
        b,
        record {
          row = r;
          there =
              find_unique replica_key replica_slot (job.version_id, job.target_node_id) d.replicas
                b.consistent.replicas.key h;
          version = ap (λ (p : ℕ × Text). p.0) slot;
          node = inl (ap (λ (p : ℕ × Text). p.1) slot);
          status = refl;
        },
      )

  created-IsTarget :
      (d : Database) (r : Replica × Database)
      → create_replica job.version_id job.target_node_id d ≡ ok r
      → Before d
      → After r.0.status r.0 r.1
  created-IsTarget d r h b =
      let (_, _, _, _, _, fresh, row, e) =
        create_replica-eq-ok job.version_id job.target_node_id d h in
      let consistent =
        create_replica-IsConsistent job.version_id job.target_node_id d r h b.consistent in
      (
        record {
          consistent = consistent;
          counted = rw e (
              count-add_ill job.version_id r.0 d.replicas
                (λ p. cc (ap (λ (z : Replica). z.status) row))
              ∙ b.counted);
          same_jobs = rw e b.same_jobs;
        },
        record {
          row = r.0;
          there = rw e (
              find-add replica_key r.0.replica_id r.0 d.replicas
              ∙ (rw fresh (rw ((nat_beq_iff r.0.replica_id r.0.replica_id).1 refl) refl)));
          version = ap (λ (z : Replica). z.version_id) row;
          node = inr (ap (λ (z : Replica). z.node_id) row);
          status = refl;
        },
      )

  repairing-IsTarget :
      (x : Replica) (d : Database) (r : Replica × Database)
      → x.status ≢ ReplicaState.healthy
      → set_replica_state x.replica_id ReplicaState.repairing d ≡ ok r
      → After x.status x d
      → After ReplicaState.repairing r.0 r.1
  repairing-IsTarget x d r ill h (b, t) =
      let consistent =
        set_replica_state-IsConsistent x.replica_id ReplicaState.repairing d r h b.consistent in
      let (y, found, outcome) = set_replica_state-eq-ok x.replica_id ReplicaState.repairing d h in
      let same : y ≡ t.row = some_unique found t.there in
      let here = find_self replica_key x.replica_id d.replicas found in
      let version : y.version_id ≡ job.version_id =
        ap (λ (z : Replica). z.version_id) same ∙ t.version in
      let node : IsNode y.node_id job.target_node_id =
        subst (λ (z : Replica). IsNode z.node_id job.target_node_id) (sym same) t.node in
      elim outcome [
        | inl (status, e) ↦
            rw e
              (b, record { row = y; there = here; version = version; node = node; status = status })
        | inr (_, _, e) ↦
            let w = with_status ReplicaState.repairing y in
            let sick : y.status ≢ ReplicaState.healthy =
              λ p. ill (sym t.status ∙ ap (λ (z : Replica). z.status) (sym same) ∙ p) in
            (
              record {
                consistent = consistent;
                counted = rw e (
                    count-save_ill job.version_id w d.replicas {x = y} here sick (λ p. cc)
                    ∙ b.counted);
                same_jobs = rw e b.same_jobs;
              },
              rw e (record {
                row = w;
                there = find-save_self replica_key w d.replicas (λ p. absurd_eq p here);
                version = version;
                node = node;
                status = refl;
              }),
            )
      ]

  abbrev pub Raised : Failure → Database → Type 0
  Raised e d = Unit

  set_repairing-After :
      (x : Replica)
      → x.status ≢ ReplicaState.healthy
      → Triple
          (After x.status x)
          (calling (set_replica_state x.replica_id ReplicaState.repairing))
          (After ReplicaState.repairing)
          Raised
  set_repairing-After x ill =
      Triple-calling (After x.status x) (After ReplicaState.repairing) Raised
        (set_replica_state x.replica_id ReplicaState.repairing)
        (λ d r h a. repairing-IsTarget x d r ill h a) (λ e d a. tt)

  enter_repairing-After :
      (s : ReplicaState) (x : Replica)
      → x.status ≡ s
      → Triple (After x.status x) (enter_repairing s x) (After ReplicaState.repairing) Raised
  unfolding enter_repairing
  enter_repairing-After ReplicaState.healthy x e = λ d a. tt
  enter_repairing-After ReplicaState.pending x e = set_repairing-After x (λ p. cc (sym e ∙ p))
  enter_repairing-After ReplicaState.corrupted x e = set_repairing-After x (λ p. cc (sym e ∙ p))
  enter_repairing-After ReplicaState.stale x e = set_repairing-After x (λ p. cc (sym e ∙ p))
  enter_repairing-After ReplicaState.unavailable x e = set_repairing-After x (λ p. cc (sym e ∙ p))
  enter_repairing-After ReplicaState.repairing x e = λ d a. subst (λ s. After s x d) e a
  enter_repairing-After ReplicaState.copying x e = λ d a. tt
  enter_repairing-After ReplicaState.failed x e = λ d a. tt

  abbrev Looked : Option Replica → Database → Type 0
  Looked o d = Before d × (replica_on job.version_id job.target_node_id d ≡ o)

  or_create-After :
      (o : Option Replica) → Triple (Looked o) (or_create o job) (λ x. After x.status x) Raised
  unfolding or_create
  or_create-After (some x) = λ d (b, h). found-IsTarget x d b h
  or_create-After none =
      Triple-calling (Looked none) (λ x. After x.status x) Raised
        (create_replica job.version_id job.target_node_id) (λ d r h a. created-IsTarget d r h a.0)
        (λ e d a. tt)

  pub replica_for_target-After :
      Triple Before (replica_for_target job) (After ReplicaState.repairing) Raised
  unfolding replica_for_target
  replica_for_target-After =
      Triple->>= Before Looked (After ReplicaState.repairing) Raised
        (reading (λ db. ok (replica_on job.version_id job.target_node_id db))) _ (λ d b. (b, refl))
        (λ found.
          Triple->>= (Looked found) (λ x. After x.status x) (After ReplicaState.repairing) Raised
            (or_create found job) (λ x. enter_repairing x.status x) (or_create-After found)
            (λ x. enter_repairing-After x.status x refl))
