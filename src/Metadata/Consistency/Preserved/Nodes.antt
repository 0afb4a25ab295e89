-- ===== src/Metadata/Consistency/Preserved/Nodes.antt =====
-- The operations on storage nodes keep the invariant.
use ps.Prelude.{ℕ, ℤ, ◌≤◌, ◌≡◌, refl, ap, Bool, Option, inl, inr, arith, nat_eq, text_eq}
use ps.Table.{find_self, All-find, Grows, Grows-add, Grows-save}
use ps.Common.Text.{Text, strip}
use ps.Common.Constants.{NodeState}
use ps.Common.Errors.{ok}
use ps.Metadata.Models.{StorageNode, Database, node_key, node_address}
use ps.Metadata.Nodes
use ps.Metadata.Nodes.Outcomes.{
  transition_node_state-eq-ok, register_node-eq-ok, process_node_heartbeat-eq-ok,
}
use ps.Metadata.Versions.{Extends-refl}
use ps.Metadata.Consistency.{IsConsistent, NodesAreValid}
use ps.Metadata.Consistency.Nodes.{NodesAreValid-add, NodesAreValid-save}
use ps.Metadata.Consistency.Replicas.{ReplicasAreValid-grow}

-- Only the nodes have changed, and none is gone.
module _ (db db' : Database) (c : IsConsistent db) where
  IsConsistent-nodes :
      (objects : db'.objects ≡ db.objects)
      → db'.versions ≡ db.versions
      → db'.replicas ≡ db.replicas
      → Grows node_key db.nodes db'.nodes
      → NodesAreValid db'.nodes
      → IsConsistent db'
  IsConsistent-nodes same_objects same_versions same_replicas grown valid = record {
    objects = rw (same_versions, same_objects) c.objects;
    versions = rw (same_versions, same_objects) c.versions;
    nodes = valid;
    replicas =
        rw (same_versions, same_replicas)
          (ReplicasAreValid-grow db.versions db.versions db.nodes db'.nodes db.replicas
            (Extends-refl db.versions) grown c.replicas);
  }

pub transition_node_state-IsConsistent :
    (node_id : Text) (wanted : NodeState) (db : Database) (r : StorageNode × Database)
    → Nodes.transition_node_state node_id wanted db ≡ ok r
    → IsConsistent db
    → IsConsistent r.1
transition_node_state-IsConsistent node_id wanted db r h c =
    let (n, found, outcome) = transition_node_state-eq-ok node_id wanted db h in
    let here = find_self node_key (strip node_id) db.nodes found in
    let within =
      All-find node_key (λ (m : StorageNode). m.used_bytes ≤ m.capacity_bytes) n.node_id db.nodes
        c.nodes.within here in
    let w : StorageNode = record n { status = wanted } in
    elim outcome [
      | inl e ↦ rw e c
      | inr (_, e) ↦ rw e (
          IsConsistent-nodes db _ c refl refl refl (Grows-save node_key w db.nodes)
            (NodesAreValid-save w db.nodes c.nodes here refl refl within))
    ]

pub process_node_heartbeat-IsConsistent :
    (node_id : Text) (capacity used : Option ℤ) (timestamp : ℕ) (db : Database)
    (r : (StorageNode × Bool) × Database)
    → Nodes.process_node_heartbeat node_id capacity used timestamp db ≡ ok r
    → IsConsistent db
    → IsConsistent r.1
process_node_heartbeat-IsConsistent node_id capacity used timestamp db r h c =
    let (n, found, _, outcome) =
      process_node_heartbeat-eq-ok node_id capacity used timestamp db h in
    let here = find_self node_key (strip node_id) db.nodes found in
    elim outcome [
      | inl (_, e) ↦ rw e c
      | inr (e, _, _, row, within) ↦ rw e (
          IsConsistent-nodes db _ c refl refl refl (Grows-save node_key r.0.0 db.nodes) (
            NodesAreValid-save r.0.0 db.nodes {old = n} c.nodes (rw (ap node_key row) here)
              (ap node_key row) (ap node_address row) within))
    ]

pub register_node-IsConsistent :
    (node_id : Option Text) (address : Text) (capacity : ℤ) (status : NodeState) (db : Database)
    (r : StorageNode × Database)
    → Nodes.register_node node_id address capacity status db ≡ ok r
    → IsConsistent db
    → IsConsistent r.1
register_node-IsConsistent node_id address capacity status db r h c =
    elim (register_node-eq-ok node_id address capacity status db h) [
      | inl (_, e) ↦ rw e c
      | inr (new_id, new_address, _, unused, _, e) ↦ rw e (
          IsConsistent-nodes db _ c refl refl refl (Grows-add node_key r.0 db.nodes)
            (NodesAreValid-add r.0 db.nodes c.nodes new_id new_address (omega arith)))
    ]
