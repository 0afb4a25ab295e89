-- ===== src/Maintenance/Fixture.antt =====
-- Test data of the managers: a committed version on the first of two nodes.
use ps.Prelude.{
  text_beq, ℕ, suc, zero, refl, true, none, some, [], ◌∷◌, arith, nat_eq, text_eq, pair_eq,
}
use ps.Table.{find}
use ps.Common.Text.{Text}
use ps.Common.Constants.{ObjectState, VersionState, NodeState, ReplicaState}
use ps.Common.Errors.{ok}
use ps.Metadata.Models.{Object, Version, StorageNode, Replica, Database}
use ps.Metadata.Consistency.{IsConsistent}
use ps.Metadata.Consistency.Preserved.Runs.{empty_database}
use ps.Replication.Writes.{Verification}
use ps.Maintenance.Clients.{ClientFactory}

abbrev repeat : ℕ → ℕ → Text
repeat zero c = []
repeat (suc n) c = c ∷ repeat n c

abbrev pub digest : Text
digest = repeat 64 b'a'

abbrev pub node : ℕ → StorageNode
node c = record {
  node_id = c ∷ [];
  address = c ∷ c ∷ [];
  status = NodeState.healthy;
  capacity_bytes = 100;
  used_bytes = 0;
  last_heartbeat_at = none;
}

abbrev pub object : Object
object = record {
  object_id = 1;
  name = b'o' ∷ [];
  current_version_id = some 2;
  state = ObjectState.active;
}

abbrev pub version : Version
version = record {
  version_id = 2;
  object_id = 1;
  version_number = 1;
  size_bytes = 5;
  checksum = digest;
  state = VersionState.committed;
  committed_at = some 0;
}

abbrev pub replica : ℕ → ℕ → Replica
replica id c = record {
  replica_id = id;
  version_id = 2;
  node_id = c ∷ [];
  status = ReplicaState.healthy;
  checksum = some digest;
  size_bytes = some 5;
  last_verified_at = some 0;
}

abbrev pub stored : Database
stored = record (empty_database (λ n. n) (λ n. n)) {
  objects = object ∷ [];
  versions = version ∷ [];
  nodes = node b'a' ∷ node b'b' ∷ [];
  replicas = replica 3 b'a' ∷ [];
  drawn = 4;
}

pub stored-IsConsistent : IsConsistent stored
unfolding find text_beq
stored-IsConsistent = record {
  objects = record {
    key = (refl, tt);
    name = (refl, tt);
    latest = ((some 1, (version, refl, refl, refl, refl), (λ e c. omega arith, tt)), tt);
  };
  versions = record {
    key = (refl, tt);
    slot = (refl, tt);
    numbered = (omega arith, tt);
    owned = ((object, refl), tt);
  };
  nodes = record {
    key = (refl, (refl, tt));
    address = (refl, (refl, tt));
    within = (omega arith, (omega arith, tt));
  };
  replicas = record {
    key = (refl, tt);
    slot = (refl, tt);
    certified = ((version, refl, λ h. (refl, refl)), tt);
    placed = ((node b'a', refl), tt);
  };
}

abbrev pub measured : Verification
measured = record { verified = true; valid = true; checksum = digest; size_bytes = 5 }

-- Every node answers, and confirms what it is asked for.
abbrev pub answering : ClientFactory
answering now address = record {
  verify_object = λ o v. ok measured;
  delete_object = λ o v. ok tt;
  stream_object = λ o v. ok tt;
  put_object = λ o v. ok tt;
}
