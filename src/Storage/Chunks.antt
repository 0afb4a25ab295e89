-- ===== src/Storage/Chunks.antt =====
-- storage/storage_engine.py: the loop of `write_stream` that cuts what comes in into chunks of
-- `chunk_size_bytes`, and `read_bytes`, which puts them together. A file is the list of its bytes.
use ps.Prelude.{
  ℕ, zero, suc, ◌+◌, ◌-◌, ◌/◌, Option, none, some, List, [], ◌∷◌, ◌++◌, take, drop, concat, length,
  nat_beq, if◌then◌else◌,
}

abbrev pub Bytes : Type 0
Bytes = List ℕ

-- The chunk files that are closed, and what is in the open one.
pub record Writer : Type 0 where
  pub closed : List Bytes
  pub handle : Option Bytes

abbrev pub new_writer : Writer
new_writer = record { closed = []; handle = none }

-- `chunk_handle`, opened if it is None
abbrev pub opened : Option Bytes → Bytes
opened none = []
opened (some bytes) = bytes

module _ (chunk_size : ℕ) where
  -- One round of the inner loop, which writes a piece of what came in.
  unfoldable pub write_piece : Writer → Bytes → Writer
  write_piece w incoming =
      let piece = take (chunk_size - length (opened w.handle)) incoming in
      let bytes = opened w.handle ++ piece in
      if nat_beq (length bytes) chunk_size
      then record { closed = w.closed ++ (bytes ∷ []); handle = none }
      else record { closed = w.closed; handle = some bytes }

  -- `while offset < len(incoming)`, with fuel.
  unfoldable pub write_incoming : ℕ → Writer → Bytes → Writer
  unfolding write_piece
  write_incoming zero w incoming = w
  write_incoming (suc fuel) w [] = w
  write_incoming (suc fuel) w (b ∷ incoming) =
      write_incoming fuel (write_piece w (b ∷ incoming))
        (drop (chunk_size - length (opened w.handle)) (b ∷ incoming))

  -- The loop over the request stream; each round takes at least one byte.
  unfoldable pub write_all : Writer → List Bytes → Writer
  unfolding write_incoming
  write_all w [] = w
  write_all w (incoming ∷ stream) = write_all (write_incoming (length incoming) w incoming) stream

  -- After the stream the open chunk, if any, is closed.
  abbrev pub close_handle : Writer → List Bytes
  close_handle w = elim w.handle [ none ↦ w.closed | some bytes ↦ w.closed ++ (bytes ∷ []) ]

  -- The chunk files of an object.
  unfoldable pub written_chunks : List Bytes → List Bytes
  unfolding write_all
  written_chunks stream = close_handle (write_all new_writer stream)

-- `b"".join(self.iter_chunks(…))` on the contents of the chunk files in their order. What
-- `iter_chunks` reads of the metadata before, and its checks of it, are not modelled.
abbrev pub read_bytes : List Bytes → Bytes
read_bytes chunks = concat chunks

-- `0 if size_bytes == 0 else (size_bytes + chunk_size_bytes - 1) // chunk_size_bytes`, by which
-- `verify` judges the number of chunks.
unfoldable pub expected_count : ℕ → ℕ → ℕ
expected_count chunk_size size_bytes =
    if nat_beq size_bytes 0 then 0 else (size_bytes + chunk_size - 1) / chunk_size
