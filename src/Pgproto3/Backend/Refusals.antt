-- ===== src/Pgproto3/Backend/Refusals.antt =====
-- `Backend.Receive` on what it does not accept, and on a stream that ends too soon.
use solo_coder.Pgproto3.Backend.{receive, continue_receive, finish_body}
use solo_coder.Pgproto3.FrontendMessage.Wire.{
  type_of, body_of, IsValid, IsExpected, decoder-body_of,
}
use solo_coder.Common.{
  refl, ap, arith, length-append, ℕ, ◌+◌, ◌≤◌, ◌<◌, ◌≡◌, ◌⊎◌, inl, inr, true, false, none, some,
  List, ◌∷◌, ◌++◌, length,
}
use solo_coder.Pgproto3.Backend.{receive_body}
use solo_coder.Pgproto3.Endpoint.{Endpoint, translate_eof, accept_header, receive_header}
use solo_coder.Pgproto3.Endpoint.Laws.{
  Awaits, Fits, receive_header-Awaits, receive_header_long, receive_header_part,
}
use solo_coder.Pgproto3.FrontendMessage.{FrontendMessage, decoder}
use solo_coder.Pgproto3.Message.{
  Error, exceeded_max_body_len, message, Result, err, max_message_body_len,
}
use solo_coder.Pgproto3.Message.Frame.{sized}
use solo_coder.Pgproto3.Source.{Source}

module _ (src : Source) where
  open src use {State, available, next_enough, next_short}

  -- A frame that fits the limit and whose type byte no frontend message has makes `Receive` fail,
  -- and the next `Receive` fails the same way and changes nothing: the header is passed over, the
  -- body never is.
  pub backend_receive_unknown :
      (b : Endpoint State) (t : ℕ) (body rest : List ℕ)
      → Awaits available t body rest b
      → Fits b.max_body_len body
      → decoder b.auth_type t ≡ none
      → (b' : Endpoint State) × (receive src b ≡ (err (message "unknown message type"), b'))
        × (receive src b' ≡ (err (message "unknown message type"), b'))
        × (available b'.reader ≡ body ++ rest)
  unfolding receive continue_receive receive_body receive_header
  backend_receive_unknown b t body rest w f unknown =
      let (s, header, left) = receive_header-Awaits src b t body rest w f in
      (
        record b { reader = s; msg_type = t; body_len = length body; partial_msg = true },
        unfold receive_header in rw (header, unknown),
        rw unknown,
        left,
      )

  -- At the start of a message, a frame whose body is longer than a limit that is set, and no
  -- longer than a frame can be, is refused at its header with both lengths in the error: the body
  -- stays in the stream, and no message counts as begun.
  pub backend_receive_long :
      (b : Endpoint State) (t : ℕ) (body rest : List ℕ)
      → b.partial_msg ≡ false
      → available b.reader ≡ t ∷ (sized body ++ rest)
      → length body + 4 ≤ max_message_body_len
      → 0 < b.max_body_len
      → b.max_body_len < length body
      → (b' : Endpoint State) × (receive src b
          ≡ (err (exceeded_max_body_len b.max_body_len (length body)), b'))
        × (available b'.reader ≡ body ++ rest)
        × (b'.partial_msg ≡ false)
  unfolding receive continue_receive
  backend_receive_long b t body rest p av h k long =
      let (s, header, left) = receive_header_long src b t body rest p av h k long in
      (record b { reader = s; msg_type = t; body_len = length body }, rw header, left, p)

  -- A `Receive` for which too few bytes can be had before the next failure, five at the start of a
  -- message or the body where the header of a known type was read, fails and changes nothing but
  -- the reader, whose stream still begins with every byte that it had.
  pub backend_receive_short :
      (b : Endpoint State)
      → ((b.partial_msg ≡ false) × (length (available b.reader) < 5))
        ⊎ ((b.partial_msg ≡ true)
            × (length (available b.reader) < b.body_len)
            × ((decode : List ℕ → Result FrontendMessage) × (decoder b.auth_type b.msg_type
                  ≡ some decode)))
      → (e : Error) × (s : State) × (more : List ℕ) × (receive src b
          ≡ (err e, record b { reader = s }))
        × (available s ≡ available b.reader ++ more)
  unfolding receive continue_receive receive_body finish_body receive_header accept_header
  backend_receive_short b (inl (p, few)) =
      let (e, s, more, read, left) = next_short 5 b.reader few in
      (translate_eof e, s, more, rw (p, read), left)
  backend_receive_short b (inr (p, few, decoded)) =
      let (decode, select) = decoded in
      let (e, s, more, read, left) = next_short b.body_len b.reader few in
      (translate_eof e, s, more, rw (p, select, read), left)

  -- At the start of a message, where the header of a valid, fitting and expected frontend message
  -- and a part of its body, less than the whole, can be had before the next failure, `Receive`
  -- fails in the body: the Backend is left in the middle of the message with its type and length
  -- noted, and its stream is that part of the body and whatever arrived with the failure.
  pub backend_receive_interrupted :
      (b : Endpoint State) (m : FrontendMessage) (missing : List ℕ)
      → b.partial_msg ≡ false
      → available b.reader ++ missing ≡ type_of m ∷ sized (body_of m)
      → 5 ≤ length (available b.reader)
      → 0 < length missing
      → Fits b.max_body_len (body_of m)
      → IsExpected b.auth_type m
      → IsValid m
      → (e : Error) × (b' : Endpoint State) × (part : List ℕ) × (more : List ℕ) × (receive src b
          ≡ (err e, b'))
        × (b'.partial_msg ≡ true)
        × (b'.msg_type ≡ type_of m)
        × (b'.body_len ≡ length (body_of m))
        × (part ++ missing ≡ body_of m)
        × (available b'.reader ≡ part ++ more)
  unfolding receive continue_receive receive_body finish_body
  backend_receive_interrupted b m missing p av long some_missing f x v =
      let (s, header, left) =
        receive_header_part src b (type_of m) (body_of m) missing p av long f in
      let (decode, select, _) = decoder-body_of b.auth_type m x v in
      let few : length (available s) < length (body_of m) =
        omega (arith, length-append (available s) missing, ap length left) in
      let (e, s', more, read, kept) = next_short (length (body_of m)) s few in
      (
        translate_eof e,
        record b {
          reader = s';
          msg_type = type_of m;
          body_len = length (body_of m);
          partial_msg = true;
        },
        available s,
        more,
        rw (header, select, read),
        refl,
        refl,
        refl,
        left,
        kept,
      )
