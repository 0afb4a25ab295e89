-- ===== src/Metadata/Membership/Registration.antt =====
-- Registering a storage node again.
use ps.Prelude.{
  ℤ, ◌≡◌, refl, sym, subst, false, Option, none, some, arith, text_eq, text_beq_iff, inl, inr,
  Option-cases,
}
use ps.Table.{find, add, find-add}
use ps.Common.Text.{Text, strip}
use ps.Common.Constants.{NodeState}
use ps.Common.Errors.{ok}
use ps.Metadata.Models.{StorageNode, Database, node_address}
use ps.Metadata.Nodes.{register_node, add_node, normalize_address, names_another, chosen_node_id}

-- A node that was added has the address and the identifier that were given.
register_node_added :
    (node_id : Option Text) (address : Text) (capacity : ℤ) (status : NodeState) (db : Database)
    (r : StorageNode × Database)
    → register_node node_id address capacity status db ≡ ok r
    → find node_address (normalize_address address) db.nodes ≡ none
    → (r.0.address ≡ normalize_address address)
      × (r.0.node_id ≡ chosen_node_id node_id db)
      × (r.1.nodes ≡ add r.0 db.nodes)
unfolding register_node add_node
register_node_added node_id address capacity status db r h new = ground arith

named_right :
    (node_id : Option Text) (db : Database) (n : StorageNode)
    → n.node_id ≡ chosen_node_id node_id db
    → names_another node_id n ≡ false
named_right none db n h = refl
named_right (some node_id) db n h = ground (arith, text_beq_iff n.node_id (strip node_id))

found_again :
    (node_id : Option Text) (address : Text) (capacity : ℤ) (status : NodeState) (db d : Database)
    (r : StorageNode × Database)
    → register_node node_id address capacity status db ≡ ok r
    → find node_address (normalize_address address) d.nodes ≡ some r.0
    → names_another node_id r.0 ≡ false
    → register_node node_id address capacity status d ≡ ok (r.0, d)
unfolding register_node
found_again node_id address capacity status db d r h found named = ground arith

register_node_found :
    (node_id : Option Text) (address : Text) (capacity : ℤ) (status : NodeState) (db : Database)
    (r : StorageNode × Database) (existing : StorageNode)
    → register_node node_id address capacity status db ≡ ok r
    → find node_address (normalize_address address) db.nodes ≡ some existing
    → r.1 ≡ db
unfolding register_node
register_node_found node_id address capacity status db r existing h there = ground arith

-- A registration that has returned may be repeated: it returns the same node, and changes nothing.
pub register_node_again :
    (node_id : Option Text) (address : Text) (capacity : ℤ) (status : NodeState) (db : Database)
    (r : StorageNode × Database)
    → register_node node_id address capacity status db ≡ ok r
    → register_node node_id address capacity status r.1 ≡ ok (r.0, r.1)
register_node_again node_id address capacity status db r h =
    elim (Option-cases (find node_address (normalize_address address) db.nodes)) [
      | inl new ↦
          let (a, i, rows) = register_node_added node_id address capacity status db r h new in
          found_again node_id address capacity status db r.1 r h
            (rw rows (
              ground (
                arith,
                a,
                new,
                find-add node_address (normalize_address address) r.0 db.nodes,
                text_beq_iff r.0.address (normalize_address address),
              )))
            (named_right node_id db r.0 i)
      | inr (existing, there) ↦
          let same = register_node_found node_id address capacity status db r existing h there in
          subst (λ d. register_node node_id address capacity status d ≡ ok r) (sym same) h
    ]
