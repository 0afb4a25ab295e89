-- ===== src/Metadata/Versions.antt =====
-- The table of versions never loses a row, and changes none that is committed.
pub mod History
use ps.Prelude.{
  ℕ, ◌≡◌, ◌≢◌, refl, sym, ap, ◌∙◌, Option, none, some, List, arith, nat_eq, inl, inr, Bool-cases,
  ◌==◌, nat_beq_iff,
}
use ps.Table.{find, add, save, find-add_old, find-save_self, find-save_ne, key-find}
use ps.Common.Constants.{VersionState}
use ps.Metadata.Models.{Version, version_key}

-- What no operation changes in a row.
pub record SameContent (v w : Version) : Type 0 where
  pub object_id : w.object_id ≡ v.object_id
  pub version_number : w.version_number ≡ v.version_number
  pub size_bytes : w.size_bytes ≡ v.size_bytes
  pub checksum : w.checksum ≡ v.checksum

pub record Extends (vs ws : List Version) : Type 0 where
  pub at :
      (id : ℕ) (v : Version)
      → find version_key id vs ≡ some v
      → (w : Version) × (find version_key id ws ≡ some w)
        × SameContent v w
        × (v.state ≡ VersionState.committed → w ≡ v)

pub SameContent-refl : (v : Version) → SameContent v v
SameContent-refl v = record {
  object_id = refl;
  version_number = refl;
  size_bytes = refl;
  checksum = refl;
}

pub Extends-refl : (vs : List Version) → Extends vs vs
Extends-refl vs = record { at = λ id v h. (v, h, SameContent-refl v, λ _. refl) }

SameContent-trans : (u v w : Version) → SameContent u v → SameContent v w → SameContent u w
SameContent-trans u v w a b = ground arith

pub Extends-trans : (us vs ws : List Version) → Extends us vs → Extends vs ws → Extends us ws
Extends-trans us vs ws a b = record {
  at = λ id u h.
      let (v, hv, sv, cv) = a.at id u h in
      let (w, hw, sw, cw) = b.at id v hv in
      (
        w,
        hw,
        SameContent-trans u v w sv sw,
        λ c. cw (ap (λ (x : Version). x.state) (cv c) ∙ c) ∙ cv c,
      );
}

pub Extends-add : (v : Version) (vs : List Version) → Extends vs (add v vs)
Extends-add v vs = record {
  at = λ id u h. (u, find-add_old version_key id v vs h, SameContent-refl u, λ _. refl);
}

pub Extends-save :
    (w : Version) (vs : List Version) {v : Version}
    → find version_key (version_key w) vs ≡ some v
    → SameContent v w
    → v.state ≢ VersionState.committed
    → Extends vs (save version_key w vs)
Extends-save w vs {v} found same open_ = record {
  at = λ id u h. elim (Bool-cases (version_key w == id)) [
    | inl hit ↦
        let e : version_key w ≡ id = (nat_beq_iff (version_key w) id).0 hit in
        let u_v : u ≡ v = ground (arith, e, h, found) in
        (
          w,
          rw (← e) (find-save_self version_key w vs (λ p. ground arith)),
          rw u_v same,
          λ c. absurd (open_ (rw (← u_v) c)),
        )
    | inr miss ↦ (
      u,
      find-save_ne version_key id w vs (λ e. cc ((nat_beq_iff (version_key w) id).1 e)) ∙ h,
      SameContent-refl u,
      λ _. refl,
    )
  ];
}
