-- ===== src/Pgproto3/ChunkReader/Stream.antt =====
-- pgproto3/chunkreader.go: the stream of bytes behind a reader, and io.ReadAtLeast.
use solo_coder.Common.{
  ℕ, ◌+◌, ◌-◌, ◌≤◌, ◌<◌, ◌≡◌, refl, sym, ap, ◌∙◌, inl, inr, true, false, none, some, List, [], ◌∷◌,
  ◌++◌, append-nil, append_assoc, arith, leb, Bool-cases, length, take, drop, length-append,
  take-append-drop,
}
use solo_coder.Common.Slices.{slice, length-take}
use solo_coder.Pgproto3.ChunkReader.{Event, arrives, fails, end_error, read_at_least, ChunkReader}
use solo_coder.Pgproto3.Message.{Error, eof}

-- The bytes that arrive before the next failure.
unfoldable pub arriving : List Event → List ℕ
arriving [] = []
arriving (fails e ∷ events) = []
arriving (arrives bytes ∷ events) = bytes ++ arriving events

module _ {P : Type 0} where
  unfoldable pub unread : ChunkReader P → List ℕ
  unread r = slice r.rp r.wp r.buf

  unfoldable pub stream : ChunkReader P → List ℕ
  stream r = unread r ++ arriving r.events

  pub record IsValid (r : ChunkReader P) : Type 0 where
    pub read : r.rp ≤ r.wp
    pub written : r.wp ≤ length r.buf

-- `io.ReadAtLeast` gives a front of what arrives, of `min` bytes at least and of as many as there is
-- room for at most, and leaves the rest.
pub read_at_least-enough :
    (size min : ℕ) (got : List ℕ) (events : List Event)
    → length got ≤ size
    → min ≤ size
    → min ≤ length got + length (arriving events)
    → (all : List ℕ) × (later : List Event) × (read_at_least size min got events
        ≡ (all, none, later))
      × (min ≤ length all)
      × (length all ≤ size)
      × (all ++ arriving later ≡ got ++ arriving events)
unfolding read_at_least arriving
read_at_least-enough size min got [] h k enough = (got, [], ground arith, ground arith, h, refl)
read_at_least-enough size min got (fails e ∷ events) h k enough =
    (got, fails e ∷ events, ground arith, ground arith, h, refl)
read_at_least-enough size min got (arrives bytes ∷ events) h k enough =
    elim (Bool-cases (leb min (length got))) [
      | inl done ↦ (got, arrives bytes ∷ events, rw done, ground arith, h, refl)
      | inr short ↦ elim (Bool-cases (leb (length bytes) (size - length got))) [
        | inl all ↦
            let (got', later, e, a, b, c) =
              read_at_least-enough size min (got ++ bytes) events
                (ground (arith, length-append got bytes)) k
                (omega (arith, length-append got bytes, length-append bytes (arriving events))) in
            (got', later, rw (short, all, e), a, b, c ∙ append_assoc got bytes (arriving events))
        | inr part ↦
            let room = size - length got in
            (
              got ++ take room bytes,
              arrives (drop room bytes) ∷ events,
              rw (short, part),
              ground (arith, length-append got (take room bytes), length-take room bytes),
              ground (arith, length-append got (take room bytes), length-take room bytes),
              append_assoc got (take room bytes) (drop room bytes ++ arriving events)
                  ∙ ap (λ (x : List ℕ). got ++ x)
                      (sym (append_assoc (take room bytes) (drop room bytes) (arriving events))
                        ∙ ap (λ (x : List ℕ). x ++ arriving events) (take-append-drop room bytes)),
            )
      ]
    ]

-- Where too little arrives it fails, having taken all that arrived.
pub read_at_least-short :
    (size min : ℕ) (got : List ℕ) (events : List Event)
    → min ≤ size
    → length got + length (arriving events) < min
    → (e : Error) × (later : List Event) × (read_at_least size min got events
        ≡ (got ++ arriving events, some e, later))
unfolding read_at_least arriving
read_at_least-short size min got [] k few =
    let short : leb min (length got) ≡ false = ground arith in
    (end_error got eof, [], rw (short, append-nil))
read_at_least-short size min got (fails e ∷ events) k few =
    let short : leb min (length got) ≡ false = ground arith in
    (end_error got e, events, rw (short, append-nil))
read_at_least-short size min got (arrives bytes ∷ events) k few =
    let split = length-append bytes (arriving events) in
    let short : leb min (length got) ≡ false = ground (arith, split) in
    let all : leb (length bytes) (size - length got) ≡ true = ground (arith, split) in
    let (e, later, read) =
      read_at_least-short size min (got ++ bytes) events k
        (omega (arith, split, length-append got bytes)) in
    (e, later, rw (short, all, read, append_assoc))
