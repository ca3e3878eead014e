-- ===== src/Pgproto3/ChunkReader/Steps.antt =====
-- pgproto3/chunkreader.go: the steps of `Next` and the unread bytes.
use solo_coder.Pgproto3.ChunkReader.Stream.{IsValid}
use solo_coder.Common.{
  ℕ, ◌+◌, ◌-◌, ◌≤◌, ◌<◌, ◌≡◌, refl, sym, ap, ◌∙◌, inl, inr, Option, List, [], ◌++◌, arith, ltb,
  ◌==◌, Bool-cases, length, take, drop,
}
use solo_coder.Common.Slices.{
  slice, copy_at, slice_front, slice_back, slice_empty, slice-copy_at, length-slice, length-copy_at,
}
use solo_coder.Iobufpool.{BufferPool}
use solo_coder.Pgproto3.ChunkReader.{
  Event, ChunkReader, replace_buf, reset, grow, shift, take_bytes, store,
}
use solo_coder.Pgproto3.ChunkReader.Stream.{unread}
use solo_coder.Pgproto3.Message.{Error, ok}

-- The reader `r'` has the unread bytes of `r`, and nothing was read from the connection.
pub record Keeps {P : Type 0} (r r' : ChunkReader P) : Type 0 where
  pub valid : IsValid r'
  pub same : unread r' ≡ unread r
  pub events : r'.events ≡ r.events

-- Unread bytes at the start of a buffer that has room for them.
moved :
    {P : Type 0} (r : ChunkReader P) (buf : List ℕ)
    → length (unread r) ≤ length buf
    → slice 0 (length (unread r)) (copy_at 0 buf (unread r)) ≡ unread r
moved r buf h =
    let e : length (unread r) ≡ 0 + length (unread r) = omega arith in
    ap (λ (n : ℕ). slice 0 n (copy_at 0 buf (unread r))) e
    ∙ slice-copy_at 0 0 buf (unread r) (omega arith) (omega arith)
    ∙ ap (λ (x : List ℕ). x ++ unread r) (slice_empty 0 buf)

pub length-unread : {P : Type 0} (r : ChunkReader P) → IsValid r → length (unread r) ≡ r.wp - r.rp
unfolding unread
length-unread r v = length-slice r.rp r.wp r.buf v.written

module _ (pool : BufferPool) where
  open pool use {State, get, put, length-get}

  pub reset-Keeps : (r : ChunkReader State) → IsValid r → Keeps r (reset pool r)
  unfolding reset unread
  reset-Keeps r v = elim (Bool-cases (r.rp == r.wp)) [
    | inr used ↦ rw used (record { valid = v; same = refl; events = refl })
    | inl empty ↦ elim (Bool-cases (length r.buf == r.min_buf_size)) [
      | inl same ↦
          rw (empty, same)
            (record {
              valid = record { read = omega arith; written = omega arith };
              same = slice_empty 0 r.buf ∙ nothing (ground arith);
              events = refl;
            })
      | inr other ↦
          rw (empty, other)
            (record {
              valid = record { read = omega arith; written = omega arith };
              same = slice_empty 0 _ ∙ nothing (ground arith);
              events = refl;
            })
    ]
  ]
    where
      nothing : r.rp ≡ r.wp → [] ≡ slice r.rp r.wp r.buf
      nothing e = rw e (sym (slice_empty r.wp r.buf))

  -- With unread bytes at the start of another buffer, the unread bytes are the same.
  moved-Keeps :
      (r r' : ChunkReader State) (old : List ℕ)
      → IsValid r
      → r'.events ≡ r.events
      → r'.rp ≡ 0
      → r'.wp ≡ length (unread r)
      → r'.buf ≡ copy_at 0 old (unread r)
      → length (unread r) ≤ length old
      → Keeps r r' × (length r'.buf ≡ length old)
  moved-Keeps r r' old v e0 e1 e2 e3 h =
      let long : length (copy_at 0 old (unread r)) ≡ length old =
        length-copy_at 0 old (unread r) (omega arith) in
      (
        record {
          valid = record { read = omega arith; written = rw (e2, e3, long) h };
          same = unfold unread in (λ i. slice (e1 i) (e2 i) (e3 i)) ∙ moved r old h;
          events = e0;
        },
        ap length e3 ∙ long,
      )

  pub replace_buf-Keeps :
      (n : ℕ) (r : ChunkReader State)
      → IsValid r
      → r.wp - r.rp ≤ n
      → Keeps r (replace_buf pool n r) × (length (replace_buf pool n r).buf ≡ n)
  unfolding replace_buf
  replace_buf-Keeps n r v h =
      let big = (get n r.pool).0 in
      let (keeps, size) =
        moved-Keeps r (replace_buf pool n r) big v refl refl (unfold unread in refl)
          (unfold unread in refl) (omega (arith, length-get n r.pool, length-unread r v)) in
      (keeps, size ∙ length-get n r.pool)

  -- After `grow` the buffer is large enough for n bytes.
  pub grow-Keeps :
      (n : ℕ) (r : ChunkReader State)
      → IsValid r
      → r.wp - r.rp < n
      → Keeps r (grow pool n r) × (n ≤ length (grow pool n r).buf)
  unfolding grow
  grow-Keeps n r v h = elim (Bool-cases (ltb (length r.buf) n)) [
    | inl small ↦
        let (keeps, size) = replace_buf-Keeps n r v (omega arith) in
        rw small (keeps, omega (arith, size))
    | inr large ↦ rw large (record { valid = v; same = refl; events = refl }, ground arith)
  ]

  -- After `shift` there is room behind the unread bytes for those that are missing.
  pub shift-Keeps :
      (n : ℕ) (r : ChunkReader State)
      → IsValid r
      → n ≤ length r.buf
      → Keeps r (shift pool n r)
        × (n - length (unread r) ≤ length (shift pool n r).buf - (shift pool n r).wp)
  unfolding shift
  shift-Keeps n r v h = elim (Bool-cases (ltb (length r.buf - r.wp) (n - (r.wp - r.rp)))) [
    | inl tight ↦
        let r' : ChunkReader State = record r {
          buf = copy_at 0 r.buf (unread r);
          rp = 0;
          wp = length (unread r);
        } in
        let (keeps, size) =
          moved-Keeps r r' r.buf v refl refl refl refl
            (omega (arith, length-unread r v, v.written)) in
        rw tight (unfold unread in (keeps, omega (arith, size)))
    | inr roomy ↦
        rw roomy
          (record { valid = v; same = refl; events = refl }, ground (arith, length-unread r v))
  ]

  -- The first n unread bytes are given; the others stay.
  pub take_bytes-unread :
      (n : ℕ) (r : ChunkReader State)
      → IsValid r
      → n ≤ length (unread r)
      → (take_bytes pool n r ≡ (ok (take n (unread r)), record r { rp = r.rp + n }))
        × IsValid (record r { rp = r.rp + n })
        × (unread (record r { rp = r.rp + n }) ≡ drop n (unread r))
  unfolding take_bytes unread
  take_bytes-unread n r v h =
      let size = length-unread r v in
      (
        ap (λ (x : List ℕ). (ok x, record r { rp = r.rp + n }))
            (slice_front r.rp r.wp n r.buf (omega (arith, size))),
        record { read = omega (arith, size); written = v.written },
        slice_back r.rp r.wp n r.buf,
      )

  -- What was read comes behind the unread bytes.
  pub store-unread :
      (got : List ℕ) (e : Option Error) (later : List Event) (r : ChunkReader State)
      → IsValid r
      → length got ≤ length r.buf - r.wp
      → IsValid (store pool (got, e, later) r)
        × (unread (store pool (got, e, later) r) ≡ unread r ++ got)
        × ((store pool (got, e, later) r).events ≡ later)
  unfolding store unread
  store-unread got e later r v h = (
    record {
      read = omega arith;
      written = rw (length-copy_at r.wp r.buf got (omega arith)) (omega arith);
    },
    slice-copy_at r.rp r.wp r.buf got v.read v.written,
    refl,
  )
