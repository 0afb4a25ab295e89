-- ===== src/Storage/Tests.antt =====
-- Nine bytes that come in three pieces, in chunks of four.
use ps.Prelude.{◌≡◌, refl, List, [], ◌∷◌, length, arith}
use ps.Storage.Chunks.{
  Bytes, written_chunks, write_all, write_incoming, write_piece, read_bytes, expected_count,
}
use ps.Storage.Layout.{read-written}
use ps.Storage.Counted.{written_chunks-count}

abbrev stream : List Bytes
stream = (1 ∷ 2 ∷ 3 ∷ []) ∷ [] ∷ (4 ∷ 5 ∷ 6 ∷ 7 ∷ 8 ∷ []) ∷ (9 ∷ []) ∷ []

chunks : written_chunks 4 stream ≡ (1 ∷ 2 ∷ 3 ∷ 4 ∷ []) ∷ (5 ∷ 6 ∷ 7 ∷ 8 ∷ []) ∷ (9 ∷ []) ∷ []
unfolding written_chunks write_all write_incoming write_piece
chunks = refl

read-written_example : read_bytes (written_chunks 4 stream) ≡ 1 ∷ 2 ∷ 3 ∷ 4 ∷ 5 ∷ 6 ∷ 7 ∷ 8 ∷ 9 ∷ []
read-written_example = read-written 4 stream (omega arith)

written_chunks-count_example : length (written_chunks 4 stream) ≡ expected_count 4 9
written_chunks-count_example = written_chunks-count 4 stream (omega arith)
