-- ===== src/Metadata/Consistency/Nodes.antt =====
-- The table of storage nodes stays valid.
use ps.Prelude.{◌≤◌, ◌≡◌, none, some, List, text_eq}
use ps.Table.{find, add, save, IsUnique-add, IsUnique-save, All-add, All-save}
use ps.Metadata.Models.{StorageNode, node_key, node_address}
use ps.Metadata.Consistency.{NodesAreValid}

abbrev IsWithin : StorageNode → Type 0
IsWithin n = n.used_bytes ≤ n.capacity_bytes

pub NodesAreValid-add :
    (n : StorageNode) (nodes : List StorageNode)
    → NodesAreValid nodes
    → find node_key n.node_id nodes ≡ none
    → find node_address n.address nodes ≡ none
    → n.used_bytes ≤ n.capacity_bytes
    → NodesAreValid (add n nodes)
NodesAreValid-add n nodes valid new_id new_address within = record {
  key = IsUnique-add node_key n nodes new_id valid.key;
  address = IsUnique-add node_address n nodes new_address valid.address;
  within = All-add IsWithin n nodes within valid.within;
}

pub NodesAreValid-save :
    (n : StorageNode) (nodes : List StorageNode) {old : StorageNode}
    → NodesAreValid nodes
    → find node_key n.node_id nodes ≡ some old
    → n.node_id ≡ old.node_id
    → n.address ≡ old.address
    → n.used_bytes ≤ n.capacity_bytes
    → NodesAreValid (save node_key n nodes)
NodesAreValid-save n nodes valid found same_id same_address within = record {
  key = IsUnique-save node_key node_key n nodes found same_id valid.key;
  address = IsUnique-save node_key node_address n nodes found same_address valid.address;
  within = All-save node_key IsWithin n nodes within valid.within;
}
