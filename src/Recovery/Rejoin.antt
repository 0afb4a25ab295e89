-- ===== src/Recovery/Rejoin.antt =====
-- When a node that was away is HEALTHY again.
use ps.Prelude.{
  ℕ, ◌≡◌, refl, ap, Bool, true, false, List, [], ◌∷◌, arith, length, if◌then◌else◌, not, ◌&&◌, ◌==◌,
}
use ps.Common.Text.{Text}
use ps.Common.Constants.{NodeState, node_state_eq}
use ps.Common.Errors.{VaultError, ok, vault}
use ps.Metadata.Models.{StorageNode, Replica, Database}
use ps.Metadata.Nodes.{transition_node_state}
use ps.Metadata.Session.{reading, raise_when, calling, pure, ◌>>=◌}
use ps.Metadata.Triples.{
  Triple, Post, Triple->>=, Triple-if, Triple-reading, Triple-calling, Triple-keeps, Stays-reading,
}
use ps.Maintenance.Clients.{ClientFactory}
use ps.Maintenance.Rows.{find_node}
use ps.Recovery.Reconcile.{
  RecoveryResult, PartitionRecoveryManager, is_empty_list, known_replicas, reconcile_each, started,
  finished, reconcile_node, mark_node_healthy, reconcile_and_mark_healthy,
}
use ps.Recovery.Counted.{Counts, SameNodes, Unmoved, Counted, reconcile_each-Counted}

-- What holds of the result of a reconciliation, and of the nodes after it.
pub record IsRejoined (before : Database) (node_id : Text) (result : RecoveryResult) (d : Database)
    : Type 0 where
  pub counts : Counts (length (known_replicas node_id before)) result
  pub resolved : result.complete ≡ true → result.unresolved_replica_ids ≡ []
  pub nodes : result.complete ≡ false → d.nodes ≡ before.nodes

module _ (before : Database) (m : PartitionRecoveryManager) (clients : ClientFactory) (now : ℕ)
    (node_id : Text) where
  abbrev total : ℕ
  total = length (known_replicas node_id before)

  finished-IsRejoined :
      (result : RecoveryResult) (d : Database)
      → Counted before total result d
      → SameNodes before d × IsRejoined before node_id (finished result) d
  finished-IsRejoined result d (same, c) = (
    same,
    record {
      counts = record { answered = c.answered; all_answered = λ h. c.all_answered (ground arith) };
      resolved = λ h. no_ids result.complete result.unresolved_replica_ids h;
      nodes = λ h. same;
    },
  )
    where
      no_ids : (b : Bool) (ids : List ℕ) → (b && is_empty_list ids) ≡ true → ids ≡ []
      no_ids b [] h = refl
      no_ids true (x ∷ xs) h = cc
      no_ids false (x ∷ xs) h = cc

  abbrev Reconciled : RecoveryResult → Database → Type 0
  Reconciled result d = SameNodes before d × IsRejoined before node_id result d

  abbrev Read : List Replica → Database → Type 0
  Read rs d = (d ≡ before) × (rs ≡ known_replicas node_id before)

  abbrev At : Database → Type 0
  At d = d ≡ before

  same_nodes : (d : Database) → At d → SameNodes before d
  same_nodes d e = ap (λ (x : Database). x.nodes) e

  reconcile_node-Reconciled :
      Triple At (reconcile_node m clients now node_id) Reconciled (Unmoved before)
  unfolding reconcile_node
  reconcile_node-Reconciled =
      Triple->>= At (λ _. At) Reconciled (Unmoved before) (reading (find_node node_id)) _
        (Triple-reading At (λ _. At) (Unmoved before) (find_node node_id) (λ d n h e. e)
          (λ x d e. same_nodes d e))
        (λ n.
          Triple->>= At (λ _. At) Reconciled (Unmoved before)
            (raise_when (not (n.status == NodeState.recovering)) (vault VaultError.invalid_state)) _
            (at_start (not (n.status == NodeState.recovering)))
            (λ done.
              Triple->>= At Read Reconciled (Unmoved before)
                (reading (λ db. ok (known_replicas node_id db))) _
                (λ d e. (e, ap (known_replicas node_id) e)) (λ rs. reconciled n rs)))
    where
      at_start :
          (b : Bool)
          → Triple At (raise_when b (vault VaultError.invalid_state)) (λ _. At) (Unmoved before)
      at_start true d e = same_nodes d e
      at_start false d e = e

      reconciled :
          (n : StorageNode) (rs : List Replica)
          → Triple
              (Read rs)
              (reconcile_each m clients n now rs (started node_id) >>= λ s. pure (finished s))
              Reconciled
              (Unmoved before)
      reconciled n rs d (e, known) =
          Triple->>= (SameNodes before) (Counted before total) Reconciled (Unmoved before)
            (reconcile_each m clients n now rs (started node_id)) (λ s. pure (finished s))
            (reconcile_each-Counted before m clients n now rs (started node_id) 0 total
              (rw known (omega arith)) (record { answered = refl; all_answered = λ h. refl }))
            finished-IsRejoined d (same_nodes d e)

  -- The call that makes the node HEALTHY: nodes are not written if it raises.
  mark_node_healthy-Raised :
      Triple
        (SameNodes before)
        (mark_node_healthy m clients now node_id)
        (λ _ _. Unit)
        (Unmoved before)
  unfolding mark_node_healthy
  mark_node_healthy-Raised =
      Triple->>= (SameNodes before) (λ _. SameNodes before) (λ _ _. Unit) (Unmoved before)
        (reading (find_node node_id)) _
        (Triple-keeps (reading (find_node node_id)) (Stays-reading (find_node node_id)))
        (λ n.
          Triple-if (SameNodes before) (λ _ _. Unit) (Unmoved before)
            (n.status == NodeState.recovering) _ _
            (λ h.
              Triple->>= (SameNodes before) (λ _ _. Unit) (λ _ _. Unit) (Unmoved before)
                (calling (transition_node_state node_id NodeState.healthy)) _
                (Triple-calling (SameNodes before) (λ _ _. Unit) (Unmoved before)
                  (transition_node_state node_id NodeState.healthy) (λ d r e same. tt)
                  (λ x d same. same))
                (λ done d u. tt))
            (λ h d same. tt))

  rejoins :
      Triple At
        (reconcile_and_mark_healthy m clients now node_id)
        (IsRejoined before node_id)
        (Unmoved before)
  unfolding reconcile_and_mark_healthy
  rejoins =
      Triple->>= At Reconciled (IsRejoined before node_id) (Unmoved before)
        (reconcile_node m clients now node_id) _ reconcile_node-Reconciled
        (λ result. settled result result.complete refl)
    where
      settled :
          (result : RecoveryResult) (whole : Bool)
          → result.complete ≡ whole
          → Triple
              (Reconciled result)
              ((if whole then mark_node_healthy m clients now node_id else pure tt) >>= λ done.
                pure result)
              (IsRejoined before node_id)
              (Unmoved before)
      settled result true e d (same, ends) =
          Triple->>= (SameNodes before) (λ _ _. Unit) (IsRejoined before node_id) (Unmoved before)
            (mark_node_healthy m clients now node_id) (λ done. pure result) mark_node_healthy-Raised
            (λ done d' u. record {
              counts = ends.counts;
              resolved = ends.resolved;
              nodes = λ h. cc;
            })
            d same
      settled result false e d (same, ends) = ends

-- `reconcile_and_mark_healthy` writes to the table of the nodes only after each known replica of the
-- node has been answered for: when reconciling it raises, or returns an incomplete result, the table
-- is as before; when the result is complete, as many replicas were checked as are known, each counted
-- once as HEALTHY, missing or CORRUPTED, and none is unresolved. How other operations change the
-- state of a node is not stated.
pub reconcile_and_mark_healthy_rejoins :
    (m : PartitionRecoveryManager) (clients : ClientFactory) (now : ℕ) (node_id : Text)
    (db : Database)
    → Post
        (IsRejoined db node_id)
        (λ e d. d.nodes ≡ db.nodes)
        (reconcile_and_mark_healthy m clients now node_id db)
reconcile_and_mark_healthy_rejoins m clients now node_id db =
    rejoins db m clients now node_id db refl
