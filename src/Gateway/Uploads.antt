-- ===== src/Gateway/Uploads.antt =====
-- gateway/service.py: `stage_upload`, which writes the chunks of a request to a file. SHA-256 is
-- hashlib's and a parameter; a chunk that is no bytes is outside the types.
use ps.Prelude.{
  ℕ, ℤ, pos, suc, ◌+◌, ◌≤◌, ◌≡◌, refl, sym, ap, ◌∙◌, true, List, [], ◌∷◌, ◌++◌, if◌then◌else◌,
  length, concat, ltb, leb, arith, append_nil, append_assoc, length-append, Bool-cases, inl, inr,
}
use ps.Common.Text.{Text}
use ps.Common.Errors.{VaultError, Result, ok, err, vault, ◌>>=◌}
use ps.Placement.{validate_factor}

abbrev pub Bytes : Type 0
Bytes = List ℕ

-- `path` stands for the bytes of the file.
pub record StagedUpload : Type 0 where
  pub path : Bytes
  pub size_bytes : ℕ
  pub checksum : Text

-- The loop, after the bytes that are written already; an empty chunk is passed over.
unfoldable pub write_chunks : ℕ → Bytes → List Bytes → Result Bytes
write_chunks max_bytes written [] = ok written
write_chunks max_bytes written ([] ∷ chunks) = write_chunks max_bytes written chunks
write_chunks max_bytes written ((b ∷ bytes) ∷ chunks) =
    let rest = write_chunks max_bytes (written ++ (b ∷ bytes)) chunks in
    if ltb max_bytes (length written + length (b ∷ bytes))
    then err (vault VaultError.payload_too_large)
    else rest

-- A positive limit is tested before the file is made; a file that is not complete is removed.
unfoldable pub stage_upload : (Bytes → Text) → List Bytes → ℤ → Result StagedUpload
unfolding write_chunks
stage_upload digest chunks max_bytes = do
  limit ← validate_factor max_bytes
  written ← write_chunks limit [] chunks
  ok (record { path = written; size_bytes = length written; checksum = digest written })

-- What the loop should decide, from all the bytes.
abbrev fitting : ℕ → Bytes → Result Bytes
fitting max_bytes all =
    if leb (length all) max_bytes then ok all else err (vault VaultError.payload_too_large)

too_long :
    (max_bytes : ℕ) (all : Bytes)
    → ltb max_bytes (length all) ≡ true
    → fitting max_bytes all ≡ err (vault VaultError.payload_too_large)
too_long max_bytes all h = ground arith

write_chunks-fitting :
    (max_bytes : ℕ) (written : Bytes) (chunks : List Bytes)
    → length written ≤ max_bytes
    → write_chunks max_bytes written chunks ≡ fitting max_bytes (written ++ concat chunks)
unfolding write_chunks
write_chunks-fitting max_bytes written [] within = rw (append_nil written) (ground arith)
write_chunks-fitting max_bytes written ([] ∷ chunks) within =
    write_chunks-fitting max_bytes written chunks within
write_chunks-fitting max_bytes written ((b ∷ bytes) ∷ chunks) within =
    elim (Bool-cases (ltb max_bytes (length written + length (b ∷ bytes)))) [
      | inl over ↦
          let all = written ++ ((b ∷ bytes) ++ concat chunks) in
          let count : length all ≡ length written + (length (b ∷ bytes) + length (concat chunks)) =
            length-append written ((b ∷ bytes) ++ concat chunks)
            ∙ ap (λ n. length written + n) (length-append (b ∷ bytes) (concat chunks)) in
          rw over (sym (too_long max_bytes all (ground (arith, over, count))))
      | inr fits ↦
          let next = written ++ (b ∷ bytes) in
          let within' : length next ≤ max_bytes =
            ground (arith, fits, length-append written (b ∷ bytes)) in
          rw fits (
            write_chunks-fitting max_bytes next chunks within'
            ∙ ap (fitting max_bytes) (append_assoc written (b ∷ bytes) (concat chunks)))
    ]

accepted : (limit : ℕ) → validate_factor (pos (suc limit)) ≡ ok (suc limit)
unfolding validate_factor
accepted limit = ground arith

-- With a positive limit, staging an upload fails with PayloadTooLarge exactly if its chunks have more
-- bytes than the limit together; else the file holds all of them in order, with their number and
-- their digest.
pub stage_upload_decides :
    (digest : Bytes → Text) (chunks : List Bytes) (limit : ℕ)
    → stage_upload digest chunks (pos (suc limit)) ≡ (
        if leb (length (concat chunks)) (suc limit)
        then ok (record {
          path = concat chunks;
          size_bytes = length (concat chunks);
          checksum = digest (concat chunks);
        })
        else err (vault VaultError.payload_too_large))
unfolding stage_upload
stage_upload_decides digest chunks limit =
    let staged = write_chunks-fitting (suc limit) [] chunks (omega arith) in
    elim (Bool-cases (leb (length (concat chunks)) (suc limit))) [
      | inl h ↦ rw (stage_upload, accepted limit, staged, h) refl
      | inr h ↦ rw (stage_upload, accepted limit, staged, h) refl
    ]
