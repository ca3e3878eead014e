-- ===== src/Pgproto3/Backend/Receive.antt =====
-- `Backend.Receive` on what a frontend sent.
use solo_coder.Pgproto3.Backend.{continue_receive, receive, finish_body}
use solo_coder.Pgproto3.FrontendMessage.Wire.{type_of, body_of, IsValid}
use solo_coder.Common.{
  ℕ, ◌≡◌, refl, ap, ◌∙◌, true, false, some, List, ◌++◌, arith, length, take, length-append,
  take_append, drop_append,
}
use solo_coder.Pgproto3.Backend.{receive_body}
use solo_coder.Pgproto3.Endpoint.{Endpoint}
use solo_coder.Pgproto3.Endpoint.Laws.{Awaits, Fits, receive_header-Awaits}
use solo_coder.Pgproto3.FrontendMessage.{FrontendMessage}
use solo_coder.Pgproto3.FrontendMessage.Wire.{IsExpected, decoder-body_of}
use solo_coder.Pgproto3.Message.{Result, ok}
use solo_coder.Pgproto3.Source.{Source}

module _ (src : Source) where
  open src use {State, next, available, next_enough}

  -- At the body of a frontend message the decoder gets exactly the body.
  receive_body-enough :
      (b : Endpoint State) (decode : List ℕ → Result FrontendMessage) (body rest : List ℕ)
      → b.body_len ≡ length body
      → available b.reader ≡ body ++ rest
      → (s : State) × (receive_body src (some decode) b
          ≡ (decode body, record b { reader = s; partial_msg = false }))
        × (available s ≡ rest)
  unfolding receive_body finish_body
  receive_body-enough b decode body rest len av =
      let (s, read, left) =
        next_enough b.body_len b.reader (rw (av, len) (omega (arith, length-append body rest))) in
      (
        s,
        ap (λ (x : Result (List ℕ) × State). finish_body decode x b) read
            ∙ ap (λ (x : List ℕ). (decode x, record b { reader = s; partial_msg = false })) whole,
        left ∙ rw (av, len) (drop_append body rest),
      )
    where
      whole : take b.body_len (available b.reader) ≡ body
      whole = rw (av, len) (take_append body rest)

  -- A valid message of a frontend, expected under the authentication type, that fits the limit
  -- stands in the stream, whole, or behind its header where that was read before: it is received
  -- as it was sent. The stream is left at what follows it, the Backend is at the start of a
  -- message, and its limit and authentication type are as before.
  pub backend_receive-Awaits :
      (b : Endpoint State) (m : FrontendMessage) (rest : List ℕ)
      → Awaits available (type_of m) (body_of m) rest b
      → Fits b.max_body_len (body_of m)
      → IsExpected b.auth_type m
      → IsValid m
      → (b' : Endpoint State) × (receive src b ≡ (ok m, b'))
        × (available b'.reader ≡ rest)
        × (b'.partial_msg ≡ false)
        × (b'.max_body_len ≡ b.max_body_len)
        × (b'.auth_type ≡ b.auth_type)
  unfolding receive continue_receive
  backend_receive-Awaits b m rest w f x v =
      let (s, header, left) = receive_header-Awaits src b (type_of m) (body_of m) rest w f in
      let (decode, select, decoded) = decoder-body_of b.auth_type m x v in
      let b1 : Endpoint State = record b {
        reader = s;
        msg_type = type_of m;
        body_len = length (body_of m);
        partial_msg = true;
      } in
      let (s', read, left') = receive_body-enough b1 decode (body_of m) rest refl left in
      (
        record b1 { reader = s'; partial_msg = false },
        rw (header, select) (read ∙ rw decoded),
        left',
        refl,
        refl,
        refl,
      )
