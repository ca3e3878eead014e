-- ===== src/Pgproto3/ChunkReader/Source.antt =====
-- pgproto3/chunkreader.go: the chunkReader as a Source for a Frontend or a Backend.
use solo_coder.Pgproto3.ChunkReader.Stream.{IsValid}
use solo_coder.Pgproto3.ChunkReader.{next}
use solo_coder.Pgproto3.Source.{Source}
use mathlib.Core.Path.{subst}
use solo_coder.Common.{ℕ, sym, ◌∙◌, inl, inr, List, arith, leb, Bool-cases, length}
use solo_coder.Iobufpool.{BufferPool}
use solo_coder.Pgproto3.ChunkReader.{ChunkReader}
use solo_coder.Pgproto3.ChunkReader.Next.{next-enough, next-short}
use solo_coder.Pgproto3.ChunkReader.Stream.{stream}
use solo_coder.Pgproto3.Message.{Result}

pub record Reader (P : Type 0) : Type 0 where
  pub reader : ChunkReader P
  pub valid : IsValid reader

module _ (pool : BufferPool) where
  open pool use {State}

  -- `Next` keeps a valid reader valid, whether it fails or not.
  pub next-IsValid : (n : ℕ) (r : ChunkReader State) → IsValid r → IsValid (next pool n r).1
  next-IsValid n r v = elim (Bool-cases (leb n (length (stream r)))) [
    | inl enough ↦
        let (r', e, valid, left) = next-enough pool n r v (ground arith) in
        subst (λ (x : Result (List ℕ) × ChunkReader State). IsValid x.1) (sym e) valid
    | inr few ↦
        let (x, r', more, e, valid, left) = next-short pool n r v (ground arith) in
        subst (λ (x : Result (List ℕ) × ChunkReader State). IsValid x.1) (sym e) valid
  ]

  next_reader : ℕ → Reader State → Result (List ℕ) × Reader State
  next_reader n s =
      let r = next pool n s.reader in
      (r.0, record { reader = r.1; valid = next-IsValid n s.reader s.valid })

  -- The interface that `Receive` needs, filled by the chunkReader.
  pub chunk_source : Source
  unfolding next_reader
  chunk_source = record {
    State = Reader State;
    next = next_reader;
    available = λ s. stream s.reader;
    next_enough = λ n s h.
        let (r', e, valid, left) = next-enough pool n s.reader s.valid h in
        ((next_reader n s).1, (λ i. ((e i).0, (next_reader n s).1)), (λ i. stream (e i).1) ∙ left);
    next_short = λ n s h.
        let (x, r', more, e, valid, left) = next-short pool n s.reader s.valid h in
        (
          x,
          (next_reader n s).1,
          more,
          (λ i. ((e i).0, (next_reader n s).1)),
          (λ i. stream (e i).1) ∙ left,
        );
  }
