-- ===== src/Health/Driven.antt =====
-- How an accepted heartbeat drives the state of its node.
use ps.Prelude.{
  pos, ◌≤◌, ◌≡◌, ◌≢◌, refl, sym, ap, ◌∙◌, subst, Bool, true, false, some, arith, text_eq, absurd_eq,
}
use ps.Table.{find, save, find_self, find-save_self, key-find}
use ps.Common.Text.{strip}
use ps.Common.Constants.{NodeState, node_state_eq, node_transition}
use ps.Common.Errors.{Result, ok}
use ps.Common.Validation.{is_empty}
use ps.Common.Validation.Strip.{strip-strip}
use ps.Metadata.Models.{StorageNode, Database, node_key, node_at}
use ps.Metadata.Checks.{is_blank, transaction}
use ps.Metadata.Nodes.{process_node_heartbeat, transition_node_state, is_stale}
use ps.Metadata.Nodes.Outcomes.{beaten}
use ps.Metadata.Session.{Session, ◌>>=◌, pure, calling, continue}
use ps.Health.Payload.{HeartbeatPayload}
use ps.Health.Heartbeats.{HeartbeatResult, heartbeat_result, drive, follow_up, ingest}

-- The state that an accepted heartbeat leads to.
abbrev pub driven : NodeState → NodeState
driven NodeState.joining = NodeState.healthy
driven NodeState.suspect = NodeState.healthy
driven NodeState.unavailable = NodeState.recovering
driven s = s

calling-returns :
    {A : Type 0} (operation : Database → Result (A × Database)) (db : Database) {r : A × Database}
    → operation db ≡ ok r
    → calling operation db ≡ (ok r.0, r.1)
unfolding transaction
calling-returns operation db h = ground arith

module _ (n : StorageNode) (db : Database) where
  transition_returns :
      (wanted : NodeState)
      → is_blank n.node_id ≡ false
      → node_at (strip n.node_id) db ≡ some n
      → node_transition n.status wanted ≡ true
      → wanted ≢ n.status
      → calling (transition_node_state n.node_id wanted) db ≡ (
        ok (record n { status = wanted }),
        record db { nodes = save node_key (record n { status = wanted }) db.nodes },
      )
  unfolding transition_node_state
  transition_returns wanted named found allowed other =
      calling-returns (transition_node_state n.node_id wanted) db (ground arith)

  saved_in :
      (m : StorageNode)
      → m.node_id ≡ n.node_id
      → find node_key n.node_id db.nodes ≡ some n
      → find node_key n.node_id (save node_key m db.nodes) ≡ some m
  saved_in m same found =
      subst (λ k. find node_key k (save node_key m db.nodes) ≡ some m) same
        (find-save_self node_key m db.nodes (λ p. absurd_eq (rw same at p) found))

module _ (n : StorageNode) (db : Database) (named : is_blank n.node_id ≡ false)
    (canonical : strip n.node_id ≡ n.node_id)
    (found : find node_key n.node_id db.nodes ≡ some n) where
  abbrev pub Driven : NodeState → Result StorageNode × Database → Type 0
  Driven wanted r =
      (d : Database) × (r ≡ (ok (record n { status = wanted }), d))
      × (node_at n.node_id d ≡ some (record n { status = wanted }))

  moved :
      (wanted : NodeState)
      → node_transition n.status wanted ≡ true
      → wanted ≢ n.status
      → Driven wanted (calling (transition_node_state n.node_id wanted) db)
  moved wanted allowed other = (
    record db { nodes = save node_key (record n { status = wanted }) db.nodes },
    transition_returns n db wanted named (rw canonical found) allowed other,
    saved_in n db (record n { status = wanted }) refl found,
  )

  drive-Driven :
      (s : NodeState) → n.status ≡ s → s ≢ NodeState.removed → Driven (driven s) (drive s n db)
  unfolding drive
  drive-Driven NodeState.joining e present = moved NodeState.healthy (ground arith) (ground arith)
  drive-Driven NodeState.suspect e present = moved NodeState.healthy (ground arith) (ground arith)
  drive-Driven NodeState.unavailable e present =
      moved NodeState.recovering (ground arith) (ground arith)
  drive-Driven NodeState.removed e present = absurd (present refl)
  drive-Driven NodeState.healthy e present = (db, ground arith, ground arith)
  drive-Driven NodeState.recovering e present = (db, ground arith, ground arith)
  drive-Driven NodeState.draining e present = (db, ground arith, ground arith)

processed :
    (payload : HeartbeatPayload) (db : Database) (n : StorageNode)
    → is_blank payload.node_id ≡ false
    → node_at (strip payload.node_id) db ≡ some n
    → n.status ≢ NodeState.removed
    → is_stale payload.timestamp n.last_heartbeat_at ≡ false
    → payload.used_bytes ≤ payload.capacity_bytes
    → process_node_heartbeat payload.node_id
        (some (pos payload.capacity_bytes))
        (some (pos payload.used_bytes))
        payload.timestamp
        db
      ≡ ok (
        (beaten n payload.capacity_bytes payload.used_bytes payload.timestamp, true),
        record db {
          nodes =
              save node_key
                (beaten n payload.capacity_bytes payload.used_bytes payload.timestamp)
                db.nodes;
        },
      )
unfolding process_node_heartbeat
processed payload db n named found present fresh fits = ground arith

-- A heartbeat that is newer than the last one of its node is accepted, unless the node was REMOVED:
-- the node has the capacity, the use and the time of the payload, a JOINING or SUSPECT node becomes
-- HEALTHY, an UNAVAILABLE one RECOVERING, and any other stays in its state.
pub ingest_drives :
    (payload : HeartbeatPayload) (db : Database) (n : StorageNode)
    → is_blank payload.node_id ≡ false
    → node_at (strip payload.node_id) db ≡ some n
    → n.status ≢ NodeState.removed
    → is_stale payload.timestamp n.last_heartbeat_at ≡ false
    → payload.used_bytes ≤ payload.capacity_bytes
    → (d : Database) × (m : StorageNode) × (m
        ≡ record (beaten n payload.capacity_bytes payload.used_bytes payload.timestamp) {
          status = driven n.status;
        })
      × (ingest payload db ≡ (ok (heartbeat_result m true), d))
      × (node_at n.node_id d ≡ some m)
unfolding ingest follow_up
ingest_drives payload db n named found present fresh fits =
    let b = beaten n payload.capacity_bytes payload.used_bytes payload.timestamp in
    let db1 : Database = record db { nodes = save node_key b db.nodes } in
    let id : n.node_id ≡ strip payload.node_id =
      key-find node_key (strip payload.node_id) db.nodes found in
    let canonical : strip n.node_id ≡ n.node_id =
      ap strip id ∙ strip-strip payload.node_id ∙ sym id in
    let named1 : is_blank n.node_id ≡ false =
      ap is_empty (ap strip id ∙ strip-strip payload.node_id) ∙ named in
    let found1 = saved_in n db b refl (find_self node_key (strip payload.node_id) db.nodes found) in
    let (d, e, there) = drive-Driven b db1 named1 canonical found1 n.status refl present in
    let returned =
      calling-returns
        (process_node_heartbeat payload.node_id (some (pos payload.capacity_bytes))
          (some (pos payload.used_bytes)) payload.timestamp)
        db (processed payload db n named found present fresh fits) in
    let report : StorageNode → Session HeartbeatResult =
      λ node. pure (heartbeat_result node true) in
    (
      d,
      record b { status = driven n.status },
      refl,
      ap
            (λ (o : Result (StorageNode × Bool) × Database). continue o (λ processed.
              follow_up processed.0 processed.1 >>= λ node.
              pure (heartbeat_result node processed.1)))
            returned
          ∙ ap (λ (o : Result StorageNode × Database). continue o report) e,
      there,
    )
