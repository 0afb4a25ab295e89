-- ===== src/Storage/Layout.antt =====
-- The chunk files of an object: they hold what came in, in order, and every one but the last is
-- full.
use ps.Prelude.{
  ℕ, zero, suc, ◌-◌, ◌≤◌, ◌<◌, ◌≡◌, ap, sym, ◌∙◌, Option, none, some, List, [], ◌∷◌, ◌++◌, take,
  drop, concat, length, nat_beq, nat_beq_iff, arith, All, Bool-cases, inl, inr, append_assoc,
  append_nil, concat-append, take-append-drop, length-drop, length-take, length-append,
}
use ps.Storage.Chunks.{
  Bytes, Writer, new_writer, opened, write_piece, write_incoming, write_all, close_handle,
  written_chunks, read_bytes,
}

-- What the writer holds.
abbrev pub flat : Writer → Bytes
flat w = concat w.closed ++ opened w.handle

abbrev pub Open : ℕ → Option Bytes → Type 0
Open size none = Unit
Open size (some bytes) = (0 < length bytes) × (length bytes < size)

pub record IsLaidOut (size : ℕ) (w : Writer) : Type 0 where
  pub full : All (λ (c : Bytes). length c ≡ size) w.closed
  pub open_ : Open size w.handle

All-snoc {κ} :
    (P : Bytes → Type κ) (xs : List Bytes) (y : Bytes) → All P xs → P y → All P (xs ++ (y ∷ []))
All-snoc P [] y all p = (p, tt)
All-snoc P (x ∷ xs) y all p = (all.0, All-snoc P xs y all.1 p)

concat-snoc : (xs : List Bytes) (y : Bytes) → concat (xs ++ (y ∷ [])) ≡ concat xs ++ y
concat-snoc xs y = concat-append xs (y ∷ []) ∙ ap (λ (t : Bytes). concat xs ++ t) (append_nil y)

module _ (size : ℕ) (positive : 0 < size) where
  opened-lt : (h : Option Bytes) → Open size h → length (opened h) < size
  opened-lt none o = positive
  opened-lt (some bytes) o = o.1

  write_piece-flat :
      (w : Writer) (incoming : Bytes)
      → flat (write_piece size w incoming)
        ≡ flat w ++ take (size - length (opened w.handle)) incoming
  unfolding write_piece
  write_piece-flat w incoming =
      let piece = take (size - length (opened w.handle)) incoming in
      let bytes = opened w.handle ++ piece in
      elim (Bool-cases (nat_beq (length bytes) size)) [
        | inl e ↦ rw e (
            append_nil (concat (w.closed ++ (bytes ∷ [])))
            ∙ concat-snoc w.closed bytes
            ∙ sym (append_assoc (concat w.closed) (opened w.handle) piece))
        | inr e ↦ rw e (sym (append_assoc (concat w.closed) (opened w.handle) piece))
      ]

  write_piece-IsLaidOut :
      (w : Writer) (b : ℕ) (incoming : Bytes)
      → IsLaidOut size w
      → IsLaidOut size (write_piece size w (b ∷ incoming))
  unfolding write_piece
  write_piece-IsLaidOut w b incoming laid =
      let piece = take (size - length (opened w.handle)) (b ∷ incoming) in
      let bytes = opened w.handle ++ piece in
      let room = opened-lt w.handle laid.open_ in
      let count = length-append (opened w.handle) piece in
      let taken = length-take (size - length (opened w.handle)) (b ∷ incoming) in
      elim (Bool-cases (nat_beq (length bytes) size)) [
        | inl e ↦ rw e (record {
          full =
              All-snoc (λ (c : Bytes). length c ≡ size) w.closed bytes laid.full
                ((nat_beq_iff (length bytes) size).0 e);
          open_ = tt;
        })
        | inr e ↦ rw e (record {
          full = laid.full;
          open_ = (omega (arith, room, count, taken), ground (arith, room, count, taken));
        })
      ]

  -- The inner loop takes everything, if it has fuel for a round on every byte.
  write_incoming-flat :
      (fuel : ℕ) (w : Writer) (incoming : Bytes)
      → IsLaidOut size w
      → length incoming ≤ fuel
      → (flat (write_incoming size fuel w incoming) ≡ flat w ++ incoming)
        × IsLaidOut size (write_incoming size fuel w incoming)
  unfolding write_incoming
  write_incoming-flat zero w [] laid enough = (sym (append_nil (flat w)), laid)
  write_incoming-flat zero w (b ∷ incoming) laid enough = absurd (omega arith)
  write_incoming-flat (suc fuel) w [] laid enough = (sym (append_nil (flat w)), laid)
  write_incoming-flat (suc fuel) w (b ∷ incoming) laid enough =
      let n = size - length (opened w.handle) in
      let room = opened-lt w.handle laid.open_ in
      let (same, more) =
        write_incoming-flat fuel (write_piece size w (b ∷ incoming)) (drop n (b ∷ incoming))
          (write_piece-IsLaidOut w b incoming laid)
          (omega (arith, length-drop n (b ∷ incoming), room)) in
      (
        same
            ∙ ap (λ (t : Bytes). t ++ drop n (b ∷ incoming)) (write_piece-flat w (b ∷ incoming))
            ∙ append_assoc (flat w) (take n (b ∷ incoming)) (drop n (b ∷ incoming))
            ∙ ap (λ (t : Bytes). flat w ++ t) (take-append-drop n (b ∷ incoming)),
        more,
      )

  pub write_all-flat :
      (stream : List Bytes) (w : Writer)
      → IsLaidOut size w
      → (flat (write_all size w stream) ≡ flat w ++ concat stream)
        × IsLaidOut size (write_all size w stream)
  unfolding write_all
  write_all-flat [] w laid = (sym (append_nil (flat w)), laid)
  write_all-flat (incoming ∷ stream) w laid =
      let (one, still) = write_incoming-flat (length incoming) w incoming laid (omega arith) in
      let (rest, more) =
        write_all-flat stream (write_incoming size (length incoming) w incoming) still in
      (
        rest
            ∙ ap (λ (t : Bytes). t ++ concat stream) one
            ∙ append_assoc (flat w) incoming (concat stream),
        more,
      )

  close_handle-flat :
      (h : Option Bytes) (closed : List Bytes)
      → concat (close_handle size (record { closed = closed; handle = h }))
        ≡ concat closed ++ opened h
  close_handle-flat none closed = sym (append_nil (concat closed))
  close_handle-flat (some bytes) closed = concat-snoc closed bytes

-- What is read from the chunk files of an object is what came in, in whatever pieces it came.
pub read-written :
    (size : ℕ) (stream : List Bytes)
    → 0 < size
    → read_bytes (written_chunks size stream) ≡ concat stream
unfolding written_chunks
read-written size stream positive =
    let w = write_all size new_writer stream in
    close_handle-flat size positive w.handle w.closed
    ∙ (write_all-flat size positive stream new_writer (record { full = tt; open_ = tt })).0
