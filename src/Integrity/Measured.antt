-- ===== src/Integrity/Measured.antt =====
-- What `is_match` of integrity/manager.py accepts.
use ps.Prelude.{
  ℕ, ◌≡◌, refl, true, Option, none, some, arith, nat_eq, text_eq, [], ◌∷◌, ◌==◌, text_beq_iff,
  nat_beq_iff,
}
use ps.Common.Text.{Text, lower}
use ps.Metadata.Models.{Version, Replica}
use ps.Replication.Writes.{Verification}
use ps.Integrity.Verify.{is_match, expected_checksum, expected_size}

-- The checksum that a replica may carry, of which only its case may differ from the measured one.
abbrev pub AgreesWith : Option Text → Text → Type 0
AgreesWith none measured = Unit
AgreesWith (some []) measured = Unit
AgreesWith (some (c ∷ checksum)) measured = lower measured ≡ lower (c ∷ checksum)

-- The size that a replica may carry.
abbrev pub Measures : Option ℕ → ℕ → Type 0
Measures none measured = Unit
Measures (some size) measured = measured ≡ size

-- The node found the object whole, with the checksum and the size that its version has, and with
-- those that the row of the replica carries, if it carries any.
abbrev pub IsMeasured : Replica → Version → Verification → Type 0
IsMeasured replica version measured =
    (measured.verified ≡ true)
    × (measured.valid ≡ true)
    × (lower measured.checksum ≡ lower version.checksum)
    × (measured.size_bytes ≡ version.size_bytes)
    × AgreesWith replica.checksum measured.checksum
    × Measures replica.size_bytes measured.size_bytes

agrees :
    (c : Option Text) (v m : Text)
    → (lower m == lower (expected_checksum c v)) ≡ true
    → AgreesWith c m
agrees none v m h = tt
agrees (some []) v m h = tt
agrees (some (x ∷ c)) v m h = (text_beq_iff (lower m) (lower (x ∷ c))).0 h

measures : (c : Option ℕ) (v m : ℕ) → (m == expected_size c v) ≡ true → Measures c m
measures none v m h = tt
measures (some c) v m h = (nat_beq_iff m c).0 h

agreed :
    (c : Option Text) (v m : Text)
    → lower m ≡ lower v
    → AgreesWith c m
    → (lower m == lower (expected_checksum c v)) ≡ true
agreed none v m same h = (text_beq_iff (lower m) (lower v)).1 same
agreed (some []) v m same h = (text_beq_iff (lower m) (lower v)).1 same
agreed (some (x ∷ c)) v m same h = (text_beq_iff (lower m) (lower (x ∷ c))).1 h

in_size : (c : Option ℕ) (v m : ℕ) → m ≡ v → Measures c m → (m == expected_size c v) ≡ true
in_size none v m same h = (nat_beq_iff m v).1 same
in_size (some c) v m same h = (nat_beq_iff m c).1 h

pub IsMeasured-is_match :
    (replica : Replica) (version : Version) (measured : Verification)
    → is_match replica version measured ≡ true
    → IsMeasured replica version measured
unfolding is_match
IsMeasured-is_match replica version measured h = (
  ground arith,
  ground arith,
  (text_beq_iff (lower measured.checksum) (lower version.checksum)).0 (ground arith),
  (nat_beq_iff measured.size_bytes version.size_bytes).0 (ground arith),
  agrees replica.checksum version.checksum measured.checksum (ground arith),
  measures replica.size_bytes version.size_bytes measured.size_bytes (ground arith),
)

pub is_match-IsMeasured :
    (replica : Replica) (version : Version) (measured : Verification)
    → IsMeasured replica version measured
    → is_match replica version measured ≡ true
unfolding is_match
is_match-IsMeasured replica version measured (verified, valid, checksum, size, own, own_size) =
    let a = (text_beq_iff (lower measured.checksum) (lower version.checksum)).1 checksum in
    let b = (nat_beq_iff measured.size_bytes version.size_bytes).1 size in
    let c = agreed replica.checksum version.checksum measured.checksum checksum own in
    let d = in_size replica.size_bytes version.size_bytes measured.size_bytes size own_size in
    rw (verified, valid, a, b, c, d) refl
