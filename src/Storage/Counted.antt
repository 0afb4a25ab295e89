-- ===== src/Storage/Counted.antt =====
-- The number of chunk files that an object is cut into.
use native.Mathlib.Nat.{div-eq_of_lt, add-mul-div_right}
use ps.Prelude.{
  ℕ, zero, suc, ◌+◌, ◌-◌, ◌*◌, ◌/◌, ◌<◌, ◌≡◌, ap, sym, ◌∙◌, Option, none, some, List, [], ◌∷◌, ◌++◌,
  concat, length, arith, All, append_nil, length-append,
}
use ps.Storage.Chunks.{
  Bytes, new_writer, opened, write_all, close_handle, written_chunks, expected_count,
}
use ps.Storage.Layout.{IsLaidOut, write_all-flat}

div-rest : (x c size : ℕ) → x < size → (x + c * size) / size ≡ c
div-rest x c size h =
    omega (arith, add-mul-div_right x c {z = size} (omega arith), div-eq_of_lt {n = x} {m = size} h)

length-concat :
    (size : ℕ) (chunks : List Bytes)
    → All (λ (c : Bytes). length c ≡ size) chunks
    → length (concat chunks) ≡ length chunks * size
length-concat size [] full = omega arith
length-concat size (c ∷ chunks) full =
    omega (arith, length-append c (concat chunks), length-concat size chunks full.1, full.0)

expected_count-full : (c size : ℕ) → 0 < size → expected_count size (c * size) ≡ c
unfolding expected_count
expected_count-full zero size h = ground arith
expected_count-full (suc c) size h =
    let e : (size - 1) + suc c * size ≡ suc c * size + size - 1 = omega arith in
    ground (arith, div-rest (size - 1) (suc c) size, e)

expected_count-rest : (c n size : ℕ) → 0 < n → n < size → expected_count size (c * size + n) ≡ suc c
unfolding expected_count
expected_count-rest c n size positive h =
    let e : (n - 1) + suc c * size ≡ c * size + n + size - 1 = omega arith in
    ground (arith, div-rest (n - 1) (suc c) size, e)

close_handle-count :
    (size : ℕ) (h : Option Bytes) (closed : List Bytes)
    → 0 < size
    → IsLaidOut size (record { closed = closed; handle = h })
    → length (close_handle size (record { closed = closed; handle = h }))
      ≡ expected_count size (length (concat closed ++ opened h))
close_handle-count size none closed positive laid =
    let total : length (concat closed ++ []) ≡ length closed * size =
      ap (λ (t : Bytes). length t) (append_nil (concat closed))
      ∙ length-concat size closed laid.full in
    sym (ap (expected_count size) total ∙ expected_count-full (length closed) size positive)
close_handle-count size (some bytes) closed positive laid =
    let total : length (concat closed ++ bytes) ≡ length closed * size + length bytes =
      omega (arith, length-append (concat closed) bytes, length-concat size closed laid.full) in
    let more : length (closed ++ (bytes ∷ [])) ≡ suc (length closed) =
      omega (arith, length-append closed (bytes ∷ [])) in
    more
    ∙ sym (
        ap (expected_count size) total
        ∙ expected_count-rest (length closed) (length bytes) size laid.open_.0 laid.open_.1)

-- An object is cut into as many chunk files as `verify` expects for its size.
pub written_chunks-count :
    (size : ℕ) (stream : List Bytes)
    → 0 < size
    → length (written_chunks size stream) ≡ expected_count size (length (concat stream))
unfolding written_chunks
written_chunks-count size stream positive =
    let w = write_all size new_writer stream in
    let (same, laid) =
      write_all-flat size positive stream new_writer (record { full = tt; open_ = tt }) in
    close_handle-count size w.handle w.closed positive laid
    ∙ ap (λ (t : Bytes). expected_count size (length t)) same
