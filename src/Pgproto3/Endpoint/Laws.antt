-- ===== src/Pgproto3/Endpoint/Laws.antt =====
-- Reading a frame's header.
use solo_coder.Common.Slices.{take_append_le, drop_append_le}
use solo_coder.Common.{
  sym, append-nil, [], ℕ, ◌+◌, ◌-◌, ◌%◌, ◌^◌, ◌≤◌, ◌<◌, ◌≡◌, refl, ap, ◌∙◌, ◌⊎◌, inl, inr, Bool,
  true, false, List, ◌∷◌, ◌++◌, arith, ltb, if◌then◌else◌, length, take, drop,
}
use solo_coder.Common.Int.{pos}
use solo_coder.Pgio.{uint32_of, int32_of}
use solo_coder.Pgio.Laws.{be32, from_be32-be32}
use solo_coder.Pgproto3.Endpoint.{
  Endpoint, header_type, header_length, accept_length, accept_header, receive_header,
}
use solo_coder.Pgproto3.Message.{ok, err, exceeded_max_body_len, max_message_body_len}
use solo_coder.Pgproto3.Message.Frame.{sized}
use solo_coder.Pgproto3.Source.{Source}

-- Where the frame stands in the stream, and what is left behind it: at its type byte, or, once its
-- header was read, at its body.
abbrev pub Awaits : {S : Type 0} → (S → List ℕ) → ℕ → List ℕ → List ℕ → Endpoint S → Type 0
Awaits available t body rest e =
    ((e.partial_msg ≡ false) × (available e.reader ≡ t ∷ (sized body ++ rest)))
    ⊎ ((e.partial_msg ≡ true)
        × (e.msg_type ≡ t)
        × (e.body_len ≡ length body)
        × (available e.reader ≡ body ++ rest))

-- A body that the length field can count, and that the reader's limit allows.
abbrev pub Fits : ℕ → List ℕ → Type 0
Fits limit body = (length body + 4 ≤ max_message_body_len) × ((limit ≡ 0) ⊎ (length body ≤ limit))

-- The header of a frame, decoded.
header_length-sized :
    (t : ℕ) (body rest : List ℕ)
    → length body + 4 ≤ max_message_body_len
    → header_length (take 5 (t ∷ (sized body ++ rest))) ≡ pos (4 + length body)
unfolding header_length sized be32 int32_of uint32_of
header_length-sized t body rest h =
    rw (from_be32-be32 ((4 + length body) % 2 ^ 32) (omega arith)) (ground arith)

length_frame : (t : ℕ) (body rest : List ℕ) → 5 ≤ length (t ∷ (sized body ++ rest))
unfolding sized be32
length_frame t body rest = omega arith

drop_header : (t : ℕ) (body rest : List ℕ) → drop 5 (t ∷ (sized body ++ rest)) ≡ body ++ rest
unfolding sized be32
drop_header t body rest = refl

accept_length-Fits :
    {S : Type 0} (e : Endpoint S) (body : List ℕ)
    → Fits e.max_body_len body
    → accept_length (pos (4 + length body)) e
      ≡ (ok tt, record e { body_len = length body; partial_msg = true })
unfolding accept_length
accept_length-Fits e body h =
    let exact : 4 + length body - 4 ≡ length body = omega arith in
    let long : ltb (4 + length body) 4 ≡ false = ground arith in rw (long, exact) (ground arith)

accept_header-frame :
    {S : Type 0} (e : Endpoint S) (s : S) (t : ℕ) (body rest : List ℕ)
    → Fits e.max_body_len body
    → accept_header (ok (take 5 (t ∷ (sized body ++ rest))), s) e
      ≡ (ok tt, record e { reader = s; msg_type = t; body_len = length body; partial_msg = true })
unfolding accept_header header_type
accept_header-frame e s t body rest h =
    rw (header_length-sized t body rest h.0)
      (accept_length-Fits (record e { reader = s; msg_type = t }) body h)

module _ (src : Source) where
  open src use {State, next, available, next_enough}

  -- After `receive_header` the endpoint stands at the body of the frame that it awaited.
  pub receive_header-Awaits :
      (e : Endpoint State) (t : ℕ) (body rest : List ℕ)
      → Awaits available t body rest e
      → Fits e.max_body_len body
      → (s : State) × (receive_header src e ≡ (
        ok tt,
        record e { reader = s; msg_type = t; body_len = length body; partial_msg = true },
      ))
        × (available s ≡ body ++ rest)
  unfolding receive_header
  receive_header-Awaits e t body rest (inr (partial, type, len, av)) h = (
    e.reader,
    ap (λ (x : Bool). if x then (ok tt, e) else accept_header (next 5 e.reader) e) partial ∙ λ i.
        (ok tt, record e { msg_type = type i; body_len = len i; partial_msg = partial i }),
    av,
  )
  receive_header-Awaits e t body rest (inl (fresh, av)) h =
      let (s, read, left) = next_enough 5 e.reader (rw av (length_frame t body rest)) in
      (
        s,
        ap (λ (x : Bool). if x then (ok tt, e) else accept_header (next 5 e.reader) e) fresh
            ∙ rw (read, av) (accept_header-frame e s t body rest h),
        left ∙ rw av (drop_header t body rest),
      )

  -- A frame with a body longer than the limit is refused behind its header.
  pub receive_header_long :
      (e : Endpoint State) (t : ℕ) (body rest : List ℕ)
      → e.partial_msg ≡ false
      → available e.reader ≡ t ∷ (sized body ++ rest)
      → length body + 4 ≤ max_message_body_len
      → 0 < e.max_body_len
      → e.max_body_len < length body
      → (s : State) × (receive_header src e ≡ (
        err (exceeded_max_body_len e.max_body_len (length body)),
        record e { reader = s; msg_type = t; body_len = length body },
      ))
        × (available s ≡ body ++ rest)
  unfolding receive_header accept_header accept_length header_type
  receive_header_long e t body rest fresh av h k long =
      let (s, read, left) = next_enough 5 e.reader (rw av (length_frame t body rest)) in
      let exact : 4 + length body - 4 ≡ length body = omega arith in
      let enough : ltb (4 + length body) 4 ≡ false = ground arith in
      let limit : ltb 0 e.max_body_len ≡ true = ground arith in
      let over : ltb e.max_body_len (length body) ≡ true = ground arith in
      (
        s,
        ap (λ (x : Bool). if x then (ok tt, e) else accept_header (next 5 e.reader) e) fresh
            ∙ rw (read, av, header_length-sized t body rest h, enough, exact, limit, over) refl,
        left ∙ rw av (drop_header t body rest),
      )

  -- Of a frame that has come in part, the header and some of the body, the header is taken.
  pub receive_header_part :
      (e : Endpoint State) (t : ℕ) (body missing : List ℕ)
      → e.partial_msg ≡ false
      → available e.reader ++ missing ≡ t ∷ sized body
      → 5 ≤ length (available e.reader)
      → Fits e.max_body_len body
      → (s : State) × (receive_header src e ≡ (
        ok tt,
        record e { reader = s; msg_type = t; body_len = length body; partial_msg = true },
      ))
        × (available s ++ missing ≡ body)
  unfolding receive_header
  receive_header_part e t body missing fresh av long h =
      let (s, read, left) = next_enough 5 e.reader long in
      let whole : available e.reader ++ missing ≡ t ∷ (sized body ++ []) =
        av ∙ ap (◌∷◌ t) (sym (append-nil (sized body))) in
      let front : take 5 (available e.reader) ≡ take 5 (t ∷ (sized body ++ [])) =
        sym (take_append_le 5 (available e.reader) missing long) ∙ ap (take 5) whole in
      let back : drop 5 (available e.reader) ++ missing ≡ body =
        sym (drop_append_le 5 (available e.reader) missing long)
        ∙ ap (drop 5) whole
        ∙ drop_header t body []
        ∙ append-nil body in
      (
        s,
        ap (λ (x : Bool). if x then (ok tt, e) else accept_header (next 5 e.reader) e) fresh
            ∙ rw (read, front) (accept_header-frame e s t body [] h),
        ap (λ (x : List ℕ). x ++ missing) left ∙ back,
      )
