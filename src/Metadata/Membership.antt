-- ===== src/Metadata/Membership.antt =====
-- Storage nodes over time: no row is lost, every change of status is one of the canonical
-- transitions, and the last heartbeat never goes back.
pub mod Runs
pub mod Heartbeats
pub mod Registration
use ps.Prelude.{
  ℕ, ◌≤◌, ◌≡◌, ◌≢◌, refl, sym, ap, subst, ◌∙◌, true, Option, none, some, List, inl, inr, arith,
  text_eq, Bool-cases, ◌==◌, text_beq_iff, absurd_eq, some_unique,
}
use ps.Table.{find, add, save, find-add_old, find-save_self, find-save_ne}
use ps.Common.Text.{Text}
use ps.Common.Constants.{NodeState, node_transition}
use ps.Metadata.Models.{StorageNode, node_key}

-- Statuses that a chain of canonical transitions joins.
pub data StatusPath (a : NodeState) : NodeState → Type 0 where
  here : StatusPath a a
  next : {b c : NodeState} → StatusPath a b → node_transition b c ≡ true → StatusPath a c

pub StatusPath-trans : {a b c : NodeState} → StatusPath a b → StatusPath b c → StatusPath a c
StatusPath-trans p here = p
StatusPath-trans p (next q t) = next (StatusPath-trans p q) t

-- REMOVED is the end.
pub removed_is_final :
    {a b : NodeState} → a ≡ NodeState.removed → StatusPath a b → b ≡ NodeState.removed
removed_is_final e here = e
removed_is_final e (next {b = b} p t) = ground (arith, removed_is_final e p)

-- A heartbeat time that has not gone back, and is not forgotten.
abbrev pub NotBefore : Option ℕ → Option ℕ → Type 0
NotBefore none t = Unit
NotBefore (some s) none = ⊥
NotBefore (some s) (some t) = s ≤ t

pub record Follows (n m : StorageNode) : Type 0 where
  pub address : m.address ≡ n.address
  pub status : StatusPath n.status m.status
  pub heartbeat : NotBefore n.last_heartbeat_at m.last_heartbeat_at

NotBefore-refl : (t : Option ℕ) → NotBefore t t
NotBefore-refl none = tt
NotBefore-refl (some s) = omega arith

NotBefore-trans : (s t u : Option ℕ) → NotBefore s t → NotBefore t u → NotBefore s u
NotBefore-trans none t u p q = tt
NotBefore-trans (some a) none u p q = absurd p
NotBefore-trans (some a) (some b) none p q = absurd q
NotBefore-trans (some a) (some b) (some c) p q = omega arith

pub Follows-refl : (n : StorageNode) → Follows n n
Follows-refl n = record {
  address = refl;
  status = here;
  heartbeat = NotBefore-refl n.last_heartbeat_at;
}

Follows-trans : (n m k : StorageNode) → Follows n m → Follows m k → Follows n k
Follows-trans n m k p q = record {
  address = q.address ∙ p.address;
  status = StatusPath-trans p.status q.status;
  heartbeat =
      NotBefore-trans n.last_heartbeat_at m.last_heartbeat_at k.last_heartbeat_at p.heartbeat
        q.heartbeat;
}

-- Every node of the first table is in the second, and has followed the rules.
pub record NodesFollow (ns ms : List StorageNode) : Type 0 where
  pub at :
      (id : Text) (n : StorageNode)
      → find node_key id ns ≡ some n
      → (m : StorageNode) × (find node_key id ms ≡ some m) × Follows n m

pub NodesFollow-refl : (ns : List StorageNode) → NodesFollow ns ns
NodesFollow-refl ns = record { at = λ id n h. (n, h, Follows-refl n) }

pub NodesFollow-trans :
    (ns ms ks : List StorageNode) → NodesFollow ns ms → NodesFollow ms ks → NodesFollow ns ks
NodesFollow-trans ns ms ks p q = record {
  at = λ id n h.
      let (m, hm, fm) = p.at id n h in
      let (k, hk, fk) = q.at id m hm in (k, hk, Follows-trans n m k fm fk);
}

pub NodesFollow-add : (n : StorageNode) (ns : List StorageNode) → NodesFollow ns (add n ns)
NodesFollow-add n ns = record {
  at = λ id m h. (m, find-add_old node_key id n ns h, Follows-refl m);
}

pub NodesFollow-save :
    (w : StorageNode) (ns : List StorageNode) {n : StorageNode}
    → find node_key w.node_id ns ≡ some n
    → Follows n w
    → NodesFollow ns (save node_key w ns)
NodesFollow-save w ns {n} found follows = record {
  at = λ id m h. elim (Bool-cases (w.node_id == id)) [
    | inl hit ↦
        let e : w.node_id ≡ id = (text_beq_iff w.node_id id).0 hit in
        let same : m ≡ n = some_unique h (subst (λ k. find node_key k ns ≡ some n) e found) in
        (
          w,
          subst (λ k. find node_key k (save node_key w ns) ≡ some w) e
              (find-save_self node_key w ns (λ p. absurd_eq p found)),
          subst (λ x. Follows x w) (sym same) follows,
        )
    | inr miss ↦ (
      m,
      find-save_ne node_key id w ns (λ e. cc ((text_beq_iff w.node_id id).1 e)) ∙ h,
      Follows-refl m,
    )
  ];
}
