-- ===== src/Health/Demotion.antt =====
-- When the failure detector takes a node down.
use ps.Prelude.{
  ℕ, ◌-◌, ◌≤◌, ◌≡◌, ◌⊎◌, refl, inl, inr, Option, none, some, List, arith, Bool-cases, ltb, leb,
  leb→le,
}
use ps.Common.Text.{Text}
use ps.Common.Constants.{NodeState, node_state_eq, node_state_beq_iff}
use ps.Common.Errors.{Failure, ok}
use ps.Metadata.Models.{StorageNode, Database}
use ps.Metadata.Nodes.{transition_node_state}
use ps.Metadata.Session.{pure, calling}
use ps.Metadata.Triples.{
  Triple, Triple->>=, Triple-calling, Triple-if, Triple-Stays, Triple-returned,
}
use ps.Health.Registry.{mark_suspect, mark_unavailable}
use ps.Health.Detector.{
  FailureDetector, NodeTransition, schedule_repairs, transition, suspect, mark_lost, judge,
  evaluate_at, evaluate,
}

transition_status :
    (n : Text) (s : NodeState) (db : Database) (r : StorageNode × Database)
    → transition_node_state n s db ≡ ok r
    → r.0.status ≡ s
unfolding transition_node_state
transition_status n s db r h = ground (arith, node_state_beq_iff s r.0.status)

-- A node goes down by one step, after so long a silence.
pub record IsStep (from to : NodeState) (limit silence : ℕ) (t : NodeTransition) : Type 0 where
  pub previous : t.previous ≡ from
  pub current : t.current ≡ to
  pub silent : limit ≤ silence

-- The three steps: to SUSPECT from HEALTHY or RECOVERING, and to UNAVAILABLE from SUSPECT only.
abbrev pub IsDemotion : FailureDetector → NodeState → ℕ → NodeTransition → Type 0
IsDemotion d status silence t =
    (status ≡ t.previous)
    × (IsStep NodeState.healthy NodeState.suspect d.suspect_after silence t
        ⊎ (IsStep NodeState.recovering NodeState.suspect d.suspect_after silence t
            ⊎ IsStep NodeState.suspect NodeState.unavailable d.unavailable_after silence t))

abbrev Anything : Database → Type 0
Anything d = Unit

abbrev Raised : Failure → Database → Type 0
Raised e d = Unit

module _ (d : FailureDetector) where
  abbrev Found : NodeState → ℕ → Option NodeTransition → Database → Type 0
  Found status silence none db = Unit
  Found status silence (some t) db = IsDemotion d status silence t

  suspect-Found :
      (from : NodeState) (node : StorageNode) (silence : ℕ)
      → d.suspect_after ≤ silence
      → (from ≡ NodeState.healthy) ⊎ (from ≡ NodeState.recovering)
      → Triple Anything (suspect d from node) (Found from silence) Raised
  unfolding suspect
  suspect-Found from node silence long which =
      let S = λ (m : StorageNode) (db : Database). m.status ≡ NodeState.suspect in
      Triple->>= Anything S (Found from silence) Raised (calling (mark_suspect node.node_id)) _
        (Triple-calling Anything S Raised (mark_suspect node.node_id)
          (λ db r h p. transition_status node.node_id NodeState.suspect db r h) (λ e db p. tt))
        (λ m db s. (
          refl,
          elim which [
            | inl e ↦ inl (record { previous = e; current = s; silent = long })
            | inr e ↦ inr (inl (record { previous = e; current = s; silent = long }))
          ],
        ))

  scheduled :
      (silence : ℕ) (m : StorageNode) (ids : List ℕ)
      → m.status ≡ NodeState.unavailable
      → d.unavailable_after ≤ silence
      → IsDemotion d NodeState.suspect silence (record {
        node_id = m.node_id;
        previous = NodeState.suspect;
        current = m.status;
        repair_ids = ids;
      })
  scheduled silence m ids s long =
      (refl, inr (inr (record { previous = refl; current = s; silent = long })))

  mark_lost-Found :
      (node : StorageNode) (silence : ℕ)
      → d.unavailable_after ≤ silence
      → Triple Anything (mark_lost d node) (Found NodeState.suspect silence) Raised
  unfolding mark_lost
  mark_lost-Found node silence long =
      let S = λ (m : StorageNode) (db : Database). m.status ≡ NodeState.unavailable in
      let Q = Found NodeState.suspect silence in
      Triple->>= Anything S Q Raised (calling (mark_unavailable node.node_id)) _
        (Triple-calling Anything S Raised (mark_unavailable node.node_id)
          (λ db r h p. transition_status node.node_id NodeState.unavailable db r h) (λ e db p. tt))
        (λ m db s.
          Triple->>= Anything (λ _. Anything) Q Raised (schedule_repairs d m.node_id)
            (λ ids. pure (transition d NodeState.suspect m ids))
            (Triple-Stays (schedule_repairs d m.node_id) (record { at = λ db' p. tt }))
            (λ ids db' p. scheduled silence m ids s long) db tt)

  judge-Found :
      (status : NodeState) (node : StorageNode) (silence : ℕ)
      → Triple Anything (judge d status node silence) (Found status silence) Raised
  unfolding judge
  judge-Found NodeState.healthy node silence =
      Triple-if Anything (Found NodeState.healthy silence) Raised (leb d.suspect_after silence)
        (suspect d NodeState.healthy node) (pure none)
        (λ long.
          suspect-Found NodeState.healthy node silence (leb→le d.suspect_after silence long)
            (inl refl))
        (λ short db p. tt)
  judge-Found NodeState.recovering node silence =
      Triple-if Anything (Found NodeState.recovering silence) Raised (leb d.suspect_after silence)
        (suspect d NodeState.recovering node) (pure none)
        (λ long.
          suspect-Found NodeState.recovering node silence (leb→le d.suspect_after silence long)
            (inr refl))
        (λ short db p. tt)
  judge-Found NodeState.suspect node silence =
      Triple-if Anything (Found NodeState.suspect silence) Raised (leb d.unavailable_after silence)
        (mark_lost d node) (pure none)
        (λ long. mark_lost-Found node silence (leb→le d.unavailable_after silence long))
        (λ short db p. tt)
  judge-Found NodeState.joining node silence = λ db p. tt
  judge-Found NodeState.unavailable node silence = λ db p. tt
  judge-Found NodeState.draining node silence = λ db p. tt
  judge-Found NodeState.removed node silence = λ db p. tt

  evaluate_at-Found :
      (heard : Option ℕ) (node : StorageNode) (now : ℕ) (db after : Database) (t : NodeTransition)
      → evaluate_at d heard node now db ≡ (ok (some t), after)
      → (last : ℕ) × (heard ≡ some last) × (last ≤ now) × IsDemotion d node.status (now - last) t
  unfolding evaluate_at
  evaluate_at-Found none node now db after t h = cc
  evaluate_at-Found (some last) node now db after t h = elim (Bool-cases (ltb now last)) [
    | inl early ↦ cc (rw early at h)
    | inr late ↦ (
      last,
      refl,
      ground arith,
      Triple-returned Anything (Found node.status (now - last)) Raised
          (judge d node.status node (now - last)) db {a = some t} {d = after}
          (judge-Found node.status node (now - last)) tt (rw late at h),
    )
  ]

  -- A node that the detector takes down has sent a heartbeat at a time that is not in the future,
  -- and goes down by one step after a long enough silence: to SUSPECT from HEALTHY or RECOVERING,
  -- to UNAVAILABLE from SUSPECT only, so that no single check makes a HEALTHY node UNAVAILABLE.
  pub evaluate_demotes :
      (node : StorageNode) (now : ℕ) (db after : Database) (t : NodeTransition)
      → evaluate d node now db ≡ (ok (some t), after)
      → (last : ℕ) × (node.last_heartbeat_at ≡ some last)
        × (last ≤ now)
        × IsDemotion d node.status (now - last) t
  unfolding evaluate
  evaluate_demotes node now db after t h =
      evaluate_at-Found node.last_heartbeat_at node now db after t h
