-- ===== src/Pgproto3/ChunkReader/Next.antt =====
-- pgproto3/chunkreader.go: `Next` against the stream of bytes.
use solo_coder.Pgproto3.ChunkReader.Stream.{IsValid}
use solo_coder.Pgproto3.ChunkReader.{next, take_bytes}
use solo_coder.Common.{
  ℕ, ◌+◌, ◌-◌, ◌≤◌, ◌<◌, ◌≡◌, sym, ap, ◌∙◌, inl, inr, false, Option, none, some, List, [], ◌++◌,
  append_assoc, arith, leb, Bool-cases, length, take, drop, length-append,
}
use solo_coder.Common.Slices.{drop_append_le, take_append_le}
use solo_coder.Iobufpool.{BufferPool}
use solo_coder.Pgproto3.ChunkReader.{
  Event, read_at_least, ChunkReader, reset, grow, shift, store, finish_read, fill,
}
use solo_coder.Pgproto3.ChunkReader.Steps.{
  length-unread, reset-Keeps, grow-Keeps, shift-Keeps, take_bytes-unread, store-unread,
}
use solo_coder.Pgproto3.ChunkReader.Stream.{
  arriving, unread, stream, read_at_least-enough, read_at_least-short,
}
use solo_coder.Pgproto3.Message.{Error, ok, err}

module _ (pool : BufferPool) where
  open pool use {State}

  take_bytes-stream :
      (n : ℕ) (r : ChunkReader State)
      → IsValid r
      → n ≤ length (unread r)
      → (r' : ChunkReader State) × (take_bytes pool n r ≡ (ok (take n (stream r)), r'))
        × IsValid r'
        × (stream r' ≡ drop n (stream r))
  unfolding stream
  take_bytes-stream n r v h =
      let (taken, valid, left) = take_bytes-unread pool n r v h in
      (
        record r { rp = r.rp + n },
        taken
            ∙ ap (λ (x : List ℕ). (ok x, record r { rp = r.rp + n }))
                (sym (take_append_le n (unread r) (arriving r.events) h)),
        valid,
        ap (λ (x : List ℕ). x ++ arriving r.events) left
            ∙ sym (drop_append_le n (unread r) (arriving r.events) h),
      )

  -- `fill` by what the connection gives for the bytes that are missing.
  fill_read :
      (n : ℕ) (r : ChunkReader State) (g : List ℕ × Option Error × List Event)
      → IsValid r
      → read_at_least (length r.buf - r.wp) (n - length (unread r)) [] r.events ≡ g
      → fill pool n r ≡ finish_read pool n g.1 (store pool g r)
  unfolding fill
  fill_read n r g v read =
      let min : n - (r.wp - r.rp) ≡ n - length (unread r) = omega (arith, length-unread r v) in
      ap (λ (x : List ℕ × Option Error × List Event). finish_read pool n x.1 (store pool x r))
        (ap (λ (m : ℕ). read_at_least (length r.buf - r.wp) m [] r.events) min ∙ read)

  -- `fill` on a reader that was prepared for n bytes.
  fill-enough :
      (n : ℕ) (r : ChunkReader State)
      → IsValid r
      → n - length (unread r) ≤ length r.buf - r.wp
      → n ≤ length (stream r)
      → (r' : ChunkReader State) × (fill pool n r ≡ (ok (take n (stream r)), r'))
        × IsValid r'
        × (stream r' ≡ drop n (stream r))
  unfolding finish_read
  fill-enough n r v room enough =
      let (got, later, read, a, b, c) =
        read_at_least-enough (length r.buf - r.wp) (n - length (unread r)) [] r.events (omega arith)
          room (unfold stream in omega (arith, length-append (unread r) (arriving r.events))) in
      let r1 = store pool (got, none, later) r in
      let (valid, unread1, events1) = store-unread pool got none later r v b in
      let same : stream r1 ≡ stream r =
        unfold stream in
        (λ i. unread1 i ++ arriving (events1 i))
        ∙ append_assoc (unread r) got (arriving later)
        ∙ ap (λ (x : List ℕ). unread r ++ x) c in
      let (r', taken, valid', left) =
        take_bytes-stream n r1 valid (rw unread1 (omega (arith, length-append (unread r) got))) in
      (
        r',
        fill_read n r (got, none, later) v read
            ∙ taken
            ∙ ap (λ (x : List ℕ). (ok (take n x), r')) same,
        valid',
        left ∙ ap (drop n) same,
      )

  fill-short :
      (n : ℕ) (r : ChunkReader State)
      → IsValid r
      → n - length (unread r) ≤ length r.buf - r.wp
      → length (stream r) < n
      → (e : Error) × (r' : ChunkReader State) × (more : List ℕ) × (fill pool n r ≡ (err e, r'))
        × IsValid r'
        × (stream r' ≡ stream r ++ more)
  unfolding finish_read
  fill-short n r v room few =
      let total : length (unread r) + length (arriving r.events) < n =
        unfold stream in omega (arith, few, length-append (unread r) (arriving r.events)) in
      let (e, later, read) =
        read_at_least-short (length r.buf - r.wp) (n - length (unread r)) [] r.events room
          (omega (arith, total)) in
      let got = arriving r.events in
      let (valid, unread1, events1) =
        store-unread pool got (some e) later r v (omega (arith, total)) in
      (
        e,
        store pool (got, some e, later) r,
        arriving later,
        fill_read n r (got, some e, later) v read,
        valid,
        unfold stream in (λ i. unread1 i ++ arriving (events1 i)),
      )

  -- The reader as `fill` gets it.
  abbrev prepared : ℕ → ChunkReader State → ChunkReader State
  prepared n r = shift pool n (grow pool n (reset pool r))

  prepared-stream :
      (n : ℕ) (r : ChunkReader State)
      → IsValid r
      → leb n ((reset pool r).wp - (reset pool r).rp) ≡ false
      → IsValid (prepared n r)
        × (n - length (unread (prepared n r)) ≤ length (prepared n r).buf - (prepared n r).wp)
        × (stream (prepared n r) ≡ stream r)
  unfolding stream
  prepared-stream n r v few =
      let k1 = reset-Keeps pool r v in
      let (k2, large) = grow-Keeps pool n (reset pool r) k1.valid (ground arith) in
      let (k3, room) = shift-Keeps pool n (grow pool n (reset pool r)) k2.valid large in
      let same = k3.same ∙ k2.same ∙ k1.same in
      let events = k3.events ∙ k2.events ∙ k1.events in
      (k3.valid, rw k3.same room, λ i. same i ++ arriving (events i))

  -- On a valid reader, where n bytes can be had before the next failure, `Next(n)` gives the first
  -- n bytes of the stream; the reader stays valid, and its stream is what follows them.
  pub next-enough :
      (n : ℕ) (r : ChunkReader State)
      → IsValid r
      → n ≤ length (stream r)
      → (r' : ChunkReader State) × (next pool n r ≡ (ok (take n (stream r)), r'))
        × IsValid r'
        × (stream r' ≡ drop n (stream r))
  unfolding next
  next-enough n r v enough = elim (Bool-cases (leb n ((reset pool r).wp - (reset pool r).rp))) [
    | inl buffered ↦
        let k = reset-Keeps pool r v in
        let same : stream (reset pool r) ≡ stream r =
          unfold stream in λ i. k.same i ++ arriving (k.events i) in
        let (r', taken, valid, left) =
          take_bytes-stream n (reset pool r) k.valid
            (ground (arith, length-unread (reset pool r) k.valid)) in
        (
          r',
          rw buffered (taken ∙ ap (λ (x : List ℕ). (ok (take n x), r')) same),
          valid,
          left ∙ ap (drop n) same,
        )
    | inr missing ↦
        let (valid, room, same) = prepared-stream n r v missing in
        let (r', filled, valid', left) = fill-enough n (prepared n r) valid room (rw same enough) in
        (
          r',
          rw missing (filled ∙ ap (λ (x : List ℕ). (ok (take n x), r')) same),
          valid',
          left ∙ ap (drop n) same,
        )
  ]

  -- On a valid reader, where fewer than n bytes can be had before the next failure, `Next(n)`
  -- fails; the reader stays valid, and its stream still begins with every byte that it had.
  pub next-short :
      (n : ℕ) (r : ChunkReader State)
      → IsValid r
      → length (stream r) < n
      → (e : Error) × (r' : ChunkReader State) × (more : List ℕ) × (next pool n r ≡ (err e, r'))
        × IsValid r'
        × (stream r' ≡ stream r ++ more)
  unfolding next
  next-short n r v few =
      let (valid, room, same) = prepared-stream n r v missing in
      let (e, r', more, filled, valid', left) =
        fill-short n (prepared n r) valid room (rw same few) in
      (e, r', more, rw missing filled, valid', left ∙ ap (λ (x : List ℕ). x ++ more) same)
    where
      missing : leb n ((reset pool r).wp - (reset pool r).rp) ≡ false
      missing =
          let k = reset-Keeps pool r v in
          let same : unread (reset pool r) ≡ unread r = k.same in
          let total : length (unread r) < n =
            unfold stream in omega (arith, few, length-append (unread r) (arriving r.events)) in
          ground (arith, length-unread (reset pool r) k.valid, total, ap length same)

  -- A reader in a valid state.
  pub record Reader : Type 0 where
    pub reader : ChunkReader State
    pub valid : IsValid reader
