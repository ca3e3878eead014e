-- ===== src/Pgproto3/Tests/Streams.antt =====
-- The chunkReader's theorems at concrete readers.
use solo_coder.Pgproto3.ChunkReader.{next}
use solo_coder.Pgproto3.ChunkReader.Stream.{IsValid}
use solo_coder.Common.{ℕ, ◌≡◌, refl, List, [], ◌∷◌, ◌++◌, arith, take, drop}
use solo_coder.Common.Slices.{slice}
use solo_coder.Pgproto3.ChunkReader.{Event, arrives, fails, ChunkReader, new_chunk_reader}
use solo_coder.Pgproto3.ChunkReader.Next.{next-enough, next-short}
use solo_coder.Pgproto3.ChunkReader.Reads.{pieces, total, next_many, new_reader-pieces}
use solo_coder.Pgproto3.ChunkReader.Stream.{arriving, unread, stream}
use solo_coder.Pgproto3.Message.{Error, eof, ok, err}
use solo_coder.Pgproto3.Tests.Sources.{counting_pool}

-- Five bytes in two parts, then a failure, then one more; the buffer holds two unread bytes.
abbrev parts : List Event
parts = arrives (1 ∷ 2 ∷ 3 ∷ []) ∷ arrives (4 ∷ 5 ∷ []) ∷ fails eof ∷ arrives (6 ∷ []) ∷ []

abbrev a_reader : ChunkReader ℕ
a_reader = record {
  events = parts;
  pool = 1;
  buf = 0 ∷ 8 ∷ 9 ∷ 0 ∷ [];
  rp = 1;
  wp = 3;
  min_buf_size = 4;
}

a_reader-IsValid : IsValid a_reader
a_reader-IsValid = record { read = omega arith; written = omega arith }

a_reader-stream : stream a_reader ≡ 8 ∷ 9 ∷ 1 ∷ 2 ∷ 3 ∷ 4 ∷ 5 ∷ []
unfolding stream unread arriving slice
a_reader-stream = refl

next-enough_example :
    (r' : ChunkReader ℕ) × (next counting_pool 6 a_reader ≡ (ok (take 6 (stream a_reader)), r'))
    × IsValid r'
    × (stream r' ≡ drop 6 (stream a_reader))
next-enough_example =
    next-enough counting_pool 6 a_reader a_reader-IsValid (rw a_reader-stream (omega arith))

next-short_example :
    (e : Error) × (r' : ChunkReader ℕ) × (more : List ℕ) × (next counting_pool 8 a_reader
      ≡ (err e, r'))
    × IsValid r'
    × (stream r' ≡ stream a_reader ++ more)
next-short_example =
    next-short counting_pool 8 a_reader a_reader-IsValid (rw a_reader-stream (omega arith))

new_reader-pieces_example :
    (r' : ChunkReader ℕ) × (next_many counting_pool
        (2 ∷ 0 ∷ 2 ∷ [])
        (new_chunk_reader counting_pool parts 0 3)
      ≡ (ok (pieces (2 ∷ 0 ∷ 2 ∷ []) (arriving parts)), r'))
    × (stream r' ≡ drop (total (2 ∷ 0 ∷ 2 ∷ [])) (arriving parts))
new_reader-pieces_example =
    new_reader-pieces counting_pool parts 0 3 (2 ∷ 0 ∷ 2 ∷ [])
      (unfold total arriving in omega arith)
