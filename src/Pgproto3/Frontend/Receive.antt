-- ===== src/Pgproto3/Frontend/Receive.antt =====
-- `Frontend.Receive` on what a backend sent.
use solo_coder.Pgproto3.BackendMessage.Wire.{type_of, body_of, IsValid}
use solo_coder.Pgproto3.Frontend.{continue_receive, receive, finish_body}
use solo_coder.Common.{
  ℕ, ◌≡◌, refl, ◌∙◌, true, false, List, [], ◌∷◌, arith, length, length-append, take_append,
  drop_append,
}
use solo_coder.Pgproto3.BackendMessage.{BackendMessage}
use solo_coder.Pgproto3.BackendMessage.RoundTrip.{decode_message-body_of}
use solo_coder.Pgproto3.Endpoint.{Endpoint}
use solo_coder.Pgproto3.Endpoint.Laws.{Awaits, Fits, receive_header-Awaits}
use solo_coder.Pgproto3.Frontend.{note_auth_type}
use solo_coder.Pgproto3.Message.{ok}
use solo_coder.Pgproto3.Source.{Source}

note_auth_type-fields :
    {S : Type 0} (body : List ℕ) (f : Endpoint S)
    → ((note_auth_type body f).reader ≡ f.reader)
      × ((note_auth_type body f).partial_msg ≡ f.partial_msg)
      × ((note_auth_type body f).max_body_len ≡ f.max_body_len)
unfolding note_auth_type
note_auth_type-fields [] f = (refl, refl, refl)
note_auth_type-fields (a ∷ []) f = (refl, refl, refl)
note_auth_type-fields (a ∷ b ∷ []) f = (refl, refl, refl)
note_auth_type-fields (a ∷ b ∷ c ∷ []) f = (refl, refl, refl)
note_auth_type-fields (a ∷ b ∷ c ∷ d ∷ r) f = ground arith

module _ (src : Source) where
  open src use {State, next, available, next_enough}

  -- A valid message of a backend that fits the limit stands in the stream, whole, or behind its
  -- header where that was read before: it is received as it was sent. The stream is left at what
  -- follows it, the Frontend is at the start of a message, and its limit is as before.
  pub frontend_receive-Awaits :
      (f : Endpoint State) (m : BackendMessage) (rest : List ℕ)
      → Awaits available (type_of m) (body_of m) rest f
      → Fits f.max_body_len (body_of m)
      → IsValid m
      → (f' : Endpoint State) × (receive src f ≡ (ok m, f'))
        × (available f'.reader ≡ rest)
        × (f'.partial_msg ≡ false)
        × (f'.max_body_len ≡ f.max_body_len)
  unfolding receive continue_receive finish_body
  frontend_receive-Awaits f m rest w fits v =
      let (s, header, left) = receive_header-Awaits src f (type_of m) (body_of m) rest w fits in
      let f1 : Endpoint State = record f {
        reader = s;
        msg_type = type_of m;
        body_len = length (body_of m);
        partial_msg = true;
      } in
      let (s', read, left') =
        next_enough (length (body_of m)) s
          (rw left (omega (arith, length-append (body_of m) rest))) in
      let f2 : Endpoint State = record f1 { reader = s'; partial_msg = false } in
      let (same_reader, same_partial, same_limit) = note_auth_type-fields (body_of m) f2 in
      (
        note_auth_type (body_of m) f2,
        rw (header, read, left, take_append (body_of m) rest, decode_message-body_of m v),
        rw same_reader (left' ∙ rw left (drop_append (body_of m) rest)),
        same_partial,
        same_limit,
      )
