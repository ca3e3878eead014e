-- ===== src/Pgproto3/Frontend.antt =====
-- pgproto3/frontend.go: the client's end of a connection.
pub mod Receive
use solo_coder.Pgproto3.BackendMessage.{decode_message}
use solo_coder.Common.{ℕ, false, List, ◌∷◌, ◌==◌, if◌then◌else◌}
use solo_coder.Pgio.Laws.{from_be32}
use solo_coder.Pgproto3.BackendMessage.{BackendMessage}
use solo_coder.Pgproto3.ChunkReader.{next}
use solo_coder.Pgproto3.Endpoint.{Endpoint, translate_eof, receive_header}
use solo_coder.Pgproto3.Message.{Result, ok, err}
use solo_coder.Pgproto3.Source.{Source}

-- `findAuthenticationMessageType` stores the code that it reads.
unfoldable pub note_auth_type : {S : Type 0} → List ℕ → Endpoint S → Endpoint S
note_auth_type (a ∷ b ∷ c ∷ d ∷ _) f =
    if f.msg_type == b'R' then record f { auth_type = from_be32 a b c d } else f
note_auth_type _ f = f

module _ {S : Type 0} where
  -- The body has been read, or could not be.
  unfoldable pub finish_body : Result (List ℕ) × S → Endpoint S → Result BackendMessage × Endpoint S
  finish_body (err x, s) f = (err (translate_eof x), record f { reader = s })
  finish_body (ok msg_body, s) f = (
    decode_message f.msg_type msg_body,
    note_auth_type msg_body (record f { reader = s; partial_msg = false }),
  )

module _ (src : Source) where
  open src use {State, next}

  unfoldable pub continue_receive :
      Result (Unit {0}) × Endpoint State → Result BackendMessage × Endpoint State
  continue_receive (err x, f) = (err x, f)
  continue_receive (ok _, f) = finish_body (next f.body_len f.reader) f

  -- `Frontend.Receive`. The body is read before the type is looked at.
  unfoldable pub receive : Endpoint State → Result BackendMessage × Endpoint State
  receive f = continue_receive (receive_header src f)
