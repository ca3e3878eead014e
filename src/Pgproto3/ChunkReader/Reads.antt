-- ===== src/Pgproto3/ChunkReader/Reads.antt =====
-- A run of `Next` calls on a new chunkReader.
use solo_coder.Pgproto3.ChunkReader.{next}
use solo_coder.Pgproto3.ChunkReader.Stream.{IsValid}
use solo_coder.Pgproto3.Message.{◌>>=◌}
use solo_coder.Common.Slices.{slice, drop-drop}
use solo_coder.Common.{
  sym, ℕ, ◌+◌, ◌≤◌, ◌≡◌, refl, ap, ◌∙◌, List, [], ◌∷◌, arith, length, take, drop, length-drop,
}
use solo_coder.Iobufpool.{BufferPool}
use solo_coder.Pgproto3.ChunkReader.{Event, ChunkReader, new_chunk_reader}
use solo_coder.Pgproto3.ChunkReader.Next.{next-enough}
use solo_coder.Pgproto3.ChunkReader.Stream.{arriving, unread, stream}
use solo_coder.Pgproto3.Message.{Result, ok, err}

-- A list of bytes cut in pieces of these lengths.
unfoldable pub pieces : List ℕ → List ℕ → List (List ℕ)
pieces [] s = []
pieces (n ∷ ns) s = take n s ∷ pieces ns (drop n s)

unfoldable pub total : List ℕ → ℕ
total [] = 0
total (n ∷ ns) = n + total ns

module _ (pool : BufferPool) where
  open pool use {State}

  abbrev next_then :
      (ChunkReader State → Result (List (List ℕ)) × ChunkReader State)
      → Result (List ℕ) × ChunkReader State
      → Result (List (List ℕ)) × ChunkReader State
  next_then more (err e, r) = (err e, r)
  next_then more (ok buf, r) = let x = more r in (do bufs ← x.0; ok (buf ∷ bufs), x.1)

  -- `Next` for each of these lengths in turn, up to the first error.
  unfoldable pub next_many : List ℕ → ChunkReader State → Result (List (List ℕ)) × ChunkReader State
  next_many [] r = (ok [], r)
  next_many (n ∷ ns) r = next_then (next_many ns) (next pool n r)

  new_chunk_reader-IsValid :
      (events : List Event) (s : State) (size : ℕ)
      → IsValid (new_chunk_reader pool events s size)
        × (stream (new_chunk_reader pool events s size) ≡ arriving events)
  unfolding new_chunk_reader stream unread slice
  new_chunk_reader-IsValid events s size =
      (record { read = omega arith; written = omega arith }, refl)

  next_many-pieces :
      (ns : List ℕ) (r : ChunkReader State)
      → IsValid r
      → total ns ≤ length (stream r)
      → (r' : ChunkReader State) × (next_many ns r ≡ (ok (pieces ns (stream r)), r'))
        × IsValid r'
        × (stream r' ≡ drop (total ns) (stream r))
  unfolding next_many pieces total
  next_many-pieces [] r v h = (r, refl, v, refl)
  next_many-pieces (n ∷ ns) r v h =
      let (r1, got, v1, left) = next-enough pool n r v (omega arith) in
      let (r2, all, v2, left2) =
        next_many-pieces ns r1 v1 (rw left (omega (arith, length-drop n (stream r)))) in
      (
        r2,
        ap (next_then (next_many ns)) got
            ∙ ap
                (λ (x : Result (List (List ℕ)) × ChunkReader State).
                  let more : Result (List (List ℕ)) = (do
                    bufs ← x.0
                    ok (take n (stream r) ∷ bufs)) in
                  (more, x.1))
                (all ∙ ap (λ (x : List ℕ). (ok (pieces ns x), r2)) left),
        v2,
        left2 ∙ rw left (sym (drop-drop n (total ns) (stream r))),
      )

  -- On a new reader, whatever its buffer's size and however the bytes arrive, calls of `Next` for
  -- no more bytes together than arrive before the first failure all succeed: they give the arriving
  -- bytes cut in pieces of the lengths that were asked for, in order, and what is not read remains.
  pub new_reader-pieces :
      (events : List Event) (s : State) (size : ℕ) (ns : List ℕ)
      → total ns ≤ length (arriving events)
      → (r' : ChunkReader State) × (next_many ns (new_chunk_reader pool events s size)
          ≡ (ok (pieces ns (arriving events)), r'))
        × (stream r' ≡ drop (total ns) (arriving events))
  new_reader-pieces events s size ns h =
      let (valid, same) = new_chunk_reader-IsValid events s size in
      let (r', all, v', left) =
        next_many-pieces ns (new_chunk_reader pool events s size) valid (rw same h) in
      (r', all ∙ ap (λ (x : List ℕ). (ok (pieces ns x), r')) same, left ∙ ap (drop (total ns)) same)
