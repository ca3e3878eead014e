-- ===== src/Pgproto3/ChunkReader.antt =====
-- pgproto3/chunkreader.go.
pub mod Stream
pub mod Steps
pub mod Next
pub mod Source
pub mod Reads
use solo_coder.Common.{
  ℕ, ◌+◌, ◌-◌, Option, none, some, List, [], ◌∷◌, ◌++◌, ltb, leb, ◌==◌, if◌then◌else◌, length, take,
  drop,
}
use solo_coder.Common.Slices.{slice, copy_at}
use solo_coder.Iobufpool.{BufferPool}
use solo_coder.Pgproto3.Message.{Error, eof, unexpected_eof, Result, ok, err}

-- What the connection under the reader does next: it delivers bytes, or a read fails. After the
-- last event a read gives io.EOF.
pub data Event : Type 0 where
  arrives : List ℕ → Event
  fails : Error → Event

-- The error of `io.ReadAtLeast`.
unfoldable pub end_error : List ℕ → Error → Error
end_error [] e = e
end_error (b ∷ got) eof = unexpected_eof
end_error (b ∷ got) e = e

-- `io.ReadAtLeast` into a buffer of `size` bytes, in which `got` stands already: reads until `min`
-- bytes are there or a read fails. A read gives no more bytes than the buffer has room for, and
-- the others stay for the next.
unfoldable pub read_at_least : ℕ → ℕ → List ℕ → List Event → List ℕ × Option Error × List Event
read_at_least size min got [] =
    if leb min (length got) then (got, none, []) else (got, some (end_error got eof), [])
read_at_least size min got (fails e ∷ events) =
    if leb min (length got)
    then (got, none, fails e ∷ events)
    else (got, some (end_error got e), events)
read_at_least size min got (arrives bytes ∷ events) =
    let room = size - length got in
    let more = read_at_least size min (got ++ bytes) events in
    if leb min (length got)
    then (got, none, arrives bytes ∷ events)
    else if leb (length bytes) room
    then more
    else (got ++ take room bytes, none, arrives (drop room bytes) ∷ events)

-- `r.buf` is the whole buffer, whatever its bytes; those from `rp` to `wp` are not yet read.
pub record ChunkReader (P : Type 0) : Type 0 where
  pub events : List Event
  pub pool : P
  pub buf : List ℕ
  pub rp : ℕ
  pub wp : ℕ
  pub min_buf_size : ℕ

module _ (pool : BufferPool) where
  open pool use {State, get, put}

  unfoldable pub new_chunk_reader : List Event → State → ℕ → ChunkReader State
  new_chunk_reader events s size =
      let min_buf_size = if size == 0 then 8192 else size in
      let (buf, s') = get min_buf_size s in
      record { events = events; pool = s'; buf = buf; rp = 0; wp = 0; min_buf_size = min_buf_size }

  -- Another buffer is taken from the pool, the old one given back; the unread bytes move over.
  unfoldable pub replace_buf : ℕ → ChunkReader State → ChunkReader State
  replace_buf n r =
      let unread = slice r.rp r.wp r.buf in
      let (big_buf, s) = get n r.pool in
      record r { pool = put r.buf s; buf = copy_at 0 big_buf unread; rp = 0; wp = length unread }

  -- "Reset the buffer if it is empty".
  unfoldable pub reset : ChunkReader State → ChunkReader State
  reset r =
      if r.rp == r.wp
      then (if length r.buf == r.min_buf_size
          then record r { rp = 0; wp = 0 }
          else (let (buf, s) = get r.min_buf_size (put r.buf r.pool) in
              record r { pool = s; buf = buf; rp = 0; wp = 0 }))
      else r

  -- "buf is smaller than requested number of bytes".
  unfoldable pub grow : ℕ → ChunkReader State → ChunkReader State
  grow n r = if ltb (length r.buf) n then replace_buf n r else r

  -- "need to shift filled area to start to make enough contiguous space".
  unfoldable pub shift : ℕ → ChunkReader State → ChunkReader State
  shift n r =
      let unread = slice r.rp r.wp r.buf in
      if ltb (length r.buf - r.wp) (n - (r.wp - r.rp))
      then record r { buf = copy_at 0 r.buf unread; rp = 0; wp = length unread }
      else r

  -- `buf = (*r.buf)[r.rp : r.rp+n : r.rp+n]; r.rp += n`.
  unfoldable pub take_bytes : ℕ → ChunkReader State → Result (List ℕ) × ChunkReader State
  take_bytes n r = (ok (slice r.rp (r.rp + n) r.buf), record r { rp = r.rp + n })

  -- What `io.ReadAtLeast` gave is written behind the unread bytes.
  unfoldable pub store : List ℕ × Option Error × List Event → ChunkReader State → ChunkReader State
  store (got, e, events) r = record r {
    events = events;
    buf = copy_at r.wp r.buf got;
    wp = r.wp + length got;
  }

  unfoldable pub finish_read :
      ℕ → Option Error → ChunkReader State → Result (List ℕ) × ChunkReader State
  finish_read n none r = take_bytes n r
  finish_read n (some e) r = (err e, r)

  -- "Read at least the required number of bytes from the underlying io.Reader".
  unfoldable pub fill : ℕ → ChunkReader State → Result (List ℕ) × ChunkReader State
  fill n r =
      let got = read_at_least (length r.buf - r.wp) (n - (r.wp - r.rp)) [] r.events in
      finish_read n got.1 (store got r)

  -- `Next(n)`.
  unfoldable pub next : ℕ → ChunkReader State → Result (List ℕ) × ChunkReader State
  next n r =
      let r1 = reset r in
      if leb n (r1.wp - r1.rp) then take_bytes n r1 else fill n (shift n (grow n r1))
