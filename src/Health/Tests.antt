-- ===== src/Health/Tests.antt =====
-- A suspected node that sends a heartbeat, and the nodes that may take a replica.
use ps.Prelude.{
  text_beq, ℕ, ◌-◌, ◌≤◌, pos, ◌≡◌, ◌↔◌, refl, true, some, [], ◌∷◌, All, arith, text_eq,
}
use ps.Table.{find, save}
use ps.Common.Text.{strip, lstrip_by, rstrip_by, is_space, text_ltb}
use ps.Common.Constants.{NodeState}
use ps.Common.Errors.{ok}
use ps.Metadata.Models.{StorageNode, Database, node_key, node_at}
use ps.Metadata.Consistency.{IsConsistent}
use ps.Metadata.Consistency.Preserved.Runs.{empty_database}
use ps.Placement.{order_nodes, insert_ordered, is_before, has_more_free}
use ps.Placement.Order.{Sorted}
use ps.Health.Registry.{healthy_nodes}
use ps.Health.Payload.{HeartbeatPayload}
use ps.Health.Heartbeats.{ingest, heartbeat_result}
use ps.Health.Driven.{ingest_drives}
use ps.Metadata.Checks.{transaction}
use ps.Metadata.Nodes.{transition_node_state}
use ps.Health.Detector.{FailureDetector, NodeTransition, evaluate, evaluate_at, judge, suspect}
use ps.Health.Demotion.{IsDemotion, evaluate_demotes}
use ps.Health.Candidates.{IsCandidate, healthy_nodes_candidates}

abbrev node : ℕ → NodeState → StorageNode
node c status = record {
  node_id = c ∷ [];
  address = c ∷ c ∷ [];
  status = status;
  capacity_bytes = 100;
  used_bytes = 0;
  last_heartbeat_at = some 10;
}

abbrev cluster : Database
cluster = record (empty_database (λ n. n) (λ n. n)) {
  nodes =
      node b'a' NodeState.suspect ∷ node b'b' NodeState.healthy ∷ node b'c' NodeState.healthy ∷ [];
}

abbrev payload : HeartbeatPayload
payload = record { node_id = b'a' ∷ []; capacity_bytes = 90; used_bytes = 30; timestamp = 12 }

abbrev recovered : StorageNode
recovered = record (node b'a' NodeState.healthy) {
  capacity_bytes = 90;
  used_bytes = 30;
  last_heartbeat_at = some 12;
}

ingest_drives_example :
    (d : Database) × (m : StorageNode) × (m ≡ recovered)
    × (ingest payload cluster ≡ (ok (heartbeat_result m true), d))
    × (node_at (b'a' ∷ []) d ≡ some m)
unfolding find text_beq strip lstrip_by rstrip_by is_space
ingest_drives_example =
    ingest_drives payload cluster (node b'a' NodeState.suspect) refl refl (λ e. cc) refl
      (omega arith)

cluster-IsConsistent : IsConsistent cluster
unfolding find text_beq
cluster-IsConsistent = record {
  objects = record { key = tt; name = tt; latest = tt };
  versions = record { key = tt; slot = tt; numbered = tt; owned = tt };
  nodes = record {
    key = (refl, (refl, (refl, tt)));
    address = (refl, (refl, (refl, tt)));
    within = (omega arith, (omega arith, (omega arith, tt)));
  };
  replicas = record { key = tt; slot = tt; certified = tt; placed = tt };
}

only_c :
    healthy_nodes (pos 50) ((b' ' ∷ b'b' ∷ []) ∷ []) cluster ≡ ok (node b'c' NodeState.healthy ∷ [])
unfolding healthy_nodes order_nodes insert_ordered is_before has_more_free text_ltb text_beq strip
    lstrip_by rstrip_by is_space
only_c = refl

healthy_nodes_candidates_example :
    All (IsCandidate 50 ((b' ' ∷ b'b' ∷ []) ∷ [])) (node b'c' NodeState.healthy ∷ [])
    × ((find node_key (b'b' ∷ []) (node b'c' NodeState.healthy ∷ [])
          ≡ some (node b'b' NodeState.healthy))
        ↔ IsCandidate 50 ((b' ' ∷ b'b' ∷ []) ∷ []) (node b'b' NodeState.healthy))
    × Sorted (node b'c' NodeState.healthy ∷ [])
unfolding find text_beq
healthy_nodes_candidates_example =
    healthy_nodes_candidates 50 ((b' ' ∷ b'b' ∷ []) ∷ []) cluster (node b'c' NodeState.healthy ∷ [])
      (b'b' ∷ []) (node b'b' NodeState.healthy) cluster-IsConsistent only_c refl

abbrev detector : FailureDetector
detector = record {
  suspect_after = 5;
  unavailable_after = 9;
  replication_factor = pos 2;
  repairs = record { max_attempts = 3; replication_factor = 2 };
}

-- The node b is silent for six ticks.
abbrev silent : NodeTransition
silent = record {
  node_id = b'b' ∷ [];
  previous = NodeState.healthy;
  current = NodeState.suspect;
  repair_ids = [];
}

abbrev later : Database
later = record cluster {
  nodes =
      node b'a' NodeState.suspect ∷ node b'b' NodeState.suspect ∷ node b'c' NodeState.healthy ∷ [];
}

demoted : evaluate detector (node b'b' NodeState.healthy) 16 cluster ≡ (ok (some silent), later)
unfolding evaluate evaluate_at judge suspect transaction transition_node_state find save text_beq
    strip lstrip_by rstrip_by is_space
demoted = refl

evaluate_demotes_example :
    (last : ℕ) × (some 10 ≡ some last)
    × (last ≤ 16)
    × IsDemotion detector NodeState.healthy (16 - last) silent
evaluate_demotes_example =
    evaluate_demotes detector (node b'b' NodeState.healthy) 16 cluster later silent demoted
