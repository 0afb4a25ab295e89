-- ===== src/Replication/Owned.antt =====
-- The replicas that replication adds are those of the version, and stay so.
use ps.Prelude.{
  ℕ, ◌+◌, ◌≡◌, refl, ap, ◌∙◌, Bool, none, some, List, [], ◌∷◌, map, arith, nat_eq, text_eq, All,
  Bool-cases, inl, inr, some_unique, ◌==◌, nat_beq_iff,
}
use ps.Table.{find, add, update_where, find-add_old, find-add}
use ps.Common.Text.{Text, strip}
use ps.Common.Constants.{ReplicaState, version_state_eq}
use ps.Common.Errors
use ps.Common.Errors.{Failure, Result, ok, err}
use ps.Metadata.Models.{Replica, Database, replica_key}
use ps.Metadata.Checks.{flush_new, mem}
use ps.Metadata.Replicas.{create_replicas, set_replica_states, new_replicas, flush_all, with_status}
use ps.Metadata.Replicas.Outcomes.{create_replicas-eq-ok, set_replica_states-eq-ok}
use ps.Metadata.Session.{Keeps, Keeps-calling}
use ps.Replication.Commit.{start_copies}
use ps.Replication.Counts.{OwnedBy}

flush_new_added :
    (r : Replica) (rows : List Replica) {next : List Replica}
    → flush_new replica_key r rows ≡ ok next
    → (find replica_key r.replica_id rows ≡ none) × (next ≡ add r rows)
flush_new_added r rows h = ground arith

flush_all_keeps :
    (rs rows : List Replica) {more : List Replica} (i : ℕ) {x : Replica}
    → flush_all rs rows ≡ ok more
    → find replica_key i rows ≡ some x
    → find replica_key i more ≡ some x
unfolding flush_all
flush_all_keeps [] rows i h found = ground arith
flush_all_keeps (r ∷ rs) rows i h found =
    let (next, flushed, rest) = Errors.>>=-eq-ok (flush_new replica_key r rows) (flush_all rs) h in
    let (_, e) = flush_new_added r rows flushed in
    flush_all_keeps rs next i rest (rw e (find-add_old replica_key i r rows found))

-- Every row that was flushed is found.
flush_all_finds :
    (rs rows : List Replica) {more : List Replica}
    → flush_all rs rows ≡ ok more
    → All (λ (r : Replica). find replica_key r.replica_id more ≡ some r) rs
unfolding flush_all
flush_all_finds [] rows h = tt
flush_all_finds (r ∷ rs) rows h =
    let (next, flushed, rest) = Errors.>>=-eq-ok (flush_new replica_key r rows) (flush_all rs) h in
    let (new, e) = flush_new_added r rows flushed in
    let here : find replica_key r.replica_id next ≡ some r = ground (
      arith,
      e,
      new,
      find-add replica_key r.replica_id r rows,
      nat_beq_iff r.replica_id r.replica_id,
    ) in
    (flush_all_keeps rs next r.replica_id rest here, flush_all_finds rs next rest)

new_replicas_version :
    (uuids : ℕ → ℕ) (drawn v : ℕ) (node_ids : List Text)
    → All (λ (r : Replica). r.version_id ≡ v) (new_replicas uuids drawn v node_ids)
unfolding new_replicas
new_replicas_version uuids drawn v [] = tt
new_replicas_version uuids drawn v (n ∷ ns) = (refl, new_replicas_version uuids (drawn + 1) v ns)

All-OwnedBy :
    (v : ℕ) (rs rows : List Replica)
    → All (λ (r : Replica). r.version_id ≡ v) rs
    → All (λ (r : Replica). find replica_key r.replica_id rows ≡ some r) rs
    → All (λ (r : Replica). OwnedBy v r.replica_id rows) rs
All-OwnedBy v [] rows mine found = tt
All-OwnedBy v (r ∷ rs) rows mine found = (
  record { at = λ x h. ap (λ (z : Replica). z.version_id) (some_unique h found.0) ∙ mine.0 },
  All-OwnedBy v rs rows mine.1 found.1,
)

pub create_replicas-OwnedBy :
    (v : ℕ) (node_ids : List Text) (db : Database) {r : List Replica × Database}
    → create_replicas v node_ids db ≡ ok r
    → All (λ (x : Replica). OwnedBy v x.replica_id r.1.replicas) r.0
create_replicas-OwnedBy v node_ids db {r} h =
    let (_, _, _, _, _, rows, flushed, _) = create_replicas-eq-ok v node_ids db h in
    All-OwnedBy v r.0 r.1.replicas
      (rw rows (new_replicas_version db.uuids db.drawn v (map strip node_ids)))
      (flush_all_finds r.0 db.replicas flushed)

find-update :
    (i : ℕ) (p : Replica → Bool) (wanted : ReplicaState) (rows : List Replica) {x : Replica}
    → find replica_key i (update_where p (with_status wanted) rows) ≡ some x
    → (y : Replica) × (find replica_key i rows ≡ some y) × (x.version_id ≡ y.version_id)
unfolding find update_where
find-update i p wanted [] h = cc
find-update i p wanted (y ∷ rows) {x} h = elim (Bool-cases (y.replica_id == i)) [
  | inl hit ↦ (y, rw hit refl, ground arith)
  | inr miss ↦
      let (z, found, same) = find-update i p wanted rows {x = x} (ground arith) in
      (z, rw miss found, same)
]

pub start_copies-OwnedBy :
    (v i : ℕ) (rs : List Replica) → Keeps (λ db. OwnedBy v i db.replicas) (start_copies rs)
start_copies-OwnedBy v i rs =
    let ids = map (λ (r : Replica). r.replica_id) rs in
    Keeps-calling (λ db. OwnedBy v i db.replicas) (set_replica_states ids ReplicaState.copying)
      (λ db r h owned. elim (set_replica_states-eq-ok ids ReplicaState.copying db h) [
        | inl e ↦ rw e owned
        | inr (_, _, e) ↦ rw e (record {
          at = λ x there.
              let (y, found, same) =
                find-update i (λ (z : Replica). mem z.replica_id ids) ReplicaState.copying
                  db.replicas there in
              same ∙ owned.at y found;
        })
      ])
