-- ===== src/Gateway/Consistent.antt =====
-- Deleting an object keeps the database consistent.
use ps.Prelude.{ℕ, refl, List, [], ◌∷◌, nat_eq}
use ps.Table.{remove}
use ps.Common.Text.{Text}
use ps.Common.Constants.{ObjectState}
use ps.Metadata.Models.{Object, StorageNode, Version, Replica, Database, replica_key}
use ps.Metadata.Objects.{transition_object_state}
use ps.Metadata.Session.{calling}
use ps.Metadata.Triples.{updating, Stays, Stays-calling, stays}
use ps.Metadata.Consistency.{IsConsistent, ReplicasAreValid}
use ps.Metadata.Consistency.Replicas.{ReplicasAreValid-remove}
use ps.Metadata.Consistency.Preserved.Objects.{transition_object_state-IsConsistent}
use ps.Metadata.Consistency.Preserved.Replicas.{IsConsistent-replicas}
use ps.Maintenance.Clients.{ClientFactory}
use ps.Gateway.Deletes.{remove_each, remove_rows, begin_deletion, delete_live, delete_object}

ReplicasAreValid-remove_each :
    (vs : List Version) (ns : List StorageNode) (ids : List ℕ) (rs : List Replica)
    → ReplicasAreValid vs ns rs
    → ReplicasAreValid vs ns (remove_each ids rs)
ReplicasAreValid-remove_each vs ns [] rs valid = valid
ReplicasAreValid-remove_each vs ns (i ∷ ids) rs valid =
    ReplicasAreValid-remove_each vs ns ids (remove replica_key i rs)
      (ReplicasAreValid-remove vs ns i rs valid)

removing : (ids : List ℕ) → Stays IsConsistent (updating (remove_rows ids))
removing ids = record {
  at = λ db c.
      IsConsistent-replicas db (remove_rows ids db) c refl refl refl
        (ReplicasAreValid-remove_each db.versions db.nodes ids db.replicas c.replicas);
}

moving : (i : ℕ) (s : ObjectState) → Stays IsConsistent (calling (transition_object_state i s))
moving i s = Stays-calling (transition_object_state i s) (transition_object_state-IsConsistent i s)

begin_deletion-Stays : (o : Object) → Stays IsConsistent (begin_deletion o)
unfolding begin_deletion
begin_deletion-Stays o = search (stays, moving)

module _ (clients : ClientFactory) (now : ℕ) where
  delete_live-Stays : (o : Object) → Stays IsConsistent (delete_live clients now o)
  unfolding delete_live
  delete_live-Stays o = search (stays, begin_deletion-Stays, removing, moving) depth 12

  delete_object-Stays : (name : Text) → Stays IsConsistent (delete_object clients now name)
  unfolding delete_object
  delete_object-Stays name = search (stays, delete_live-Stays)

-- A deletion keeps the database consistent, whatever the storage nodes answer and whatever is raised
-- on the way.
pub delete_object-IsConsistent :
    (clients : ClientFactory) (now : ℕ) (name : Text) (db : Database)
    → IsConsistent db
    → IsConsistent (delete_object clients now name db).1
delete_object-IsConsistent clients now name db c = (delete_object-Stays clients now name).at db c
