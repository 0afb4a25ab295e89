-- ===== src/Metadata/Consistency/Replicas.antt =====
-- The table of replicas stays valid.
use ps.Prelude.{
  ℕ, ◌≡◌, ◌≢◌, refl, Bool, true, false, none, some, List, All-weaken, if◌then◌else◌, nat_eq,
  text_eq, pair_eq,
}
use ps.Table.{
  find, add, save, remove, update_where, IsUnique-add, IsUnique-save, IsUnique-remove,
  IsUnique-update_where, All-add, All-save, All-remove, All-update_where, Grows,
}
use ps.Common.Constants.{ReplicaState}
use ps.Metadata.Models.{Version, StorageNode, Replica, replica_key, replica_slot, node_key}
use ps.Metadata.Versions.{Extends}
use ps.Metadata.Consistency.{ReplicasAreValid, IsCertified, IsPlaced}
use ps.Metadata.Replicas.{with_status}

-- What replicas rest on may grow.
IsCertified-Extends :
    (vs ws : List Version) (r : Replica) → Extends vs ws → IsCertified vs r → IsCertified ws r
IsCertified-Extends vs ws r grown (v, found, good) =
    let (w, found', same, _) = grown.at r.version_id v found in
    (w, found', λ h. rw (same.checksum, same.size_bytes) (good h))

IsPlaced-Grows :
    (ns ms : List StorageNode) (r : Replica) → Grows node_key ns ms → IsPlaced ns r → IsPlaced ms r
IsPlaced-Grows ns ms r grown (n, found) = grown r.node_id n found

pub ReplicasAreValid-grow :
    (vs ws : List Version) (ns ms : List StorageNode) (replicas : List Replica)
    → Extends vs ws
    → Grows node_key ns ms
    → ReplicasAreValid vs ns replicas
    → ReplicasAreValid ws ms replicas
ReplicasAreValid-grow vs ws ns ms replicas more_versions more_nodes valid = record {
  key = valid.key;
  slot = valid.slot;
  certified =
      All-weaken (IsCertified vs) (IsCertified ws) replicas valid.certified
        (λ r. IsCertified-Extends vs ws r more_versions);
  placed =
      All-weaken (IsPlaced ns) (IsPlaced ms) replicas valid.placed
        (λ r. IsPlaced-Grows ns ms r more_nodes);
}

module _ (versions : List Version) (nodes : List StorageNode) where
  pub ReplicasAreValid-add :
      (r : Replica) (replicas : List Replica)
      → ReplicasAreValid versions nodes replicas
      → find replica_key r.replica_id replicas ≡ none
      → find replica_slot (r.version_id, r.node_id) replicas ≡ none
      → IsCertified versions r
      → IsPlaced nodes r
      → ReplicasAreValid versions nodes (add r replicas)
  ReplicasAreValid-add r replicas valid new_id new_slot certified placed = record {
    key = IsUnique-add replica_key r replicas new_id valid.key;
    slot = IsUnique-add replica_slot r replicas new_slot valid.slot;
    certified = All-add (IsCertified versions) r replicas certified valid.certified;
    placed = All-add (IsPlaced nodes) r replicas placed valid.placed;
  }

  -- A row that was read and is saved with its version and node.
  pub ReplicasAreValid-save :
      (r : Replica) (replicas : List Replica) {old : Replica}
      → ReplicasAreValid versions nodes replicas
      → find replica_key r.replica_id replicas ≡ some old
      → r.replica_id ≡ old.replica_id
      → replica_slot r ≡ replica_slot old
      → IsCertified versions r
      → IsPlaced nodes r
      → ReplicasAreValid versions nodes (save replica_key r replicas)
  ReplicasAreValid-save r replicas valid found same_id same_slot certified placed = record {
    key = IsUnique-save replica_key replica_key r replicas found same_id valid.key;
    slot = IsUnique-save replica_key replica_slot r replicas found same_slot valid.slot;
    certified = All-save replica_key (IsCertified versions) r replicas certified valid.certified;
    placed = All-save replica_key (IsPlaced nodes) r replicas placed valid.placed;
  }

  pub ReplicasAreValid-remove :
      (replica_id : ℕ) (replicas : List Replica)
      → ReplicasAreValid versions nodes replicas
      → ReplicasAreValid versions nodes (remove replica_key replica_id replicas)
  ReplicasAreValid-remove replica_id replicas valid = record {
    key = IsUnique-remove replica_key replica_key replica_id replicas valid.key;
    slot = IsUnique-remove replica_key replica_slot replica_id replicas valid.slot;
    certified = All-remove replica_key (IsCertified versions) replica_id replicas valid.certified;
    placed = All-remove replica_key (IsPlaced nodes) replica_id replicas valid.placed;
  }

  -- A row that leaves HEALTHY, or never was, needs no certificate.
  pub IsCertified-with_status :
      (r : Replica) (wanted : ReplicaState)
      → wanted ≢ ReplicaState.healthy
      → IsCertified versions r
      → IsCertified versions (with_status wanted r)
  IsCertified-with_status r wanted other (v, found, good) = (v, found, λ h. absurd (other h))

  IsCertified-if :
      (b : Bool) (r : Replica) (wanted : ReplicaState)
      → wanted ≢ ReplicaState.healthy
      → IsCertified versions r
      → IsCertified versions (if b then with_status wanted r else r)
  IsCertified-if true r wanted other c = IsCertified-with_status r wanted other c
  IsCertified-if false r wanted other c = c

  IsPlaced-if :
      (b : Bool) (r : Replica) (wanted : ReplicaState)
      → IsPlaced nodes r
      → IsPlaced nodes (if b then with_status wanted r else r)
  IsPlaced-if true r wanted p = p
  IsPlaced-if false r wanted p = p

  pub ReplicasAreValid-update_where :
      (p : Replica → Bool) (wanted : ReplicaState) (replicas : List Replica)
      → wanted ≢ ReplicaState.healthy
      → ReplicasAreValid versions nodes replicas
      → ReplicasAreValid versions nodes (update_where p (with_status wanted) replicas)
  ReplicasAreValid-update_where p wanted replicas other valid = record {
    key = IsUnique-update_where replica_key p (with_status wanted) (λ r. refl) replicas valid.key;
    slot =
        IsUnique-update_where replica_slot p (with_status wanted) (λ r. refl) replicas valid.slot;
    certified = All-update_where (IsCertified versions) p (with_status wanted) replicas (
        All-weaken (IsCertified versions)
          (λ r. IsCertified versions (if p r then with_status wanted r else r)) replicas
          valid.certified (λ r. IsCertified-if (p r) r wanted other));
    placed = All-update_where (IsPlaced nodes) p (with_status wanted) replicas (
        All-weaken (IsPlaced nodes) (λ r. IsPlaced nodes (if p r then with_status wanted r else r))
          replicas valid.placed (λ r. IsPlaced-if (p r) r wanted));
  }
