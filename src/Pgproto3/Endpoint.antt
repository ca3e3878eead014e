-- ===== src/Pgproto3/Endpoint.antt =====
-- pgproto3/frontend.go and pgproto3/backend.go: the state that a Frontend and a Backend keep, the
-- header that both read, and the buffer that both write. No tracer is set.
pub mod Laws
pub mod Send
pub mod Queue
use solo_coder.Common.{
  none, false, ℕ, ◌-◌, Bool, true, ◌&&◌, Option, List, [], ◌∷◌, ltb, if◌then◌else◌,
}
use solo_coder.Common.Int.{ℤ, pos, negsuc}
use solo_coder.Pgio.{int32_of}
use solo_coder.Pgio.Laws.{from_be32}
use solo_coder.Pgproto3.ChunkReader.{next}
use solo_coder.Pgproto3.Message.{
  max_message_body_len, Error, eof, unexpected_eof, exceeded_max_body_len, message, Result, ok, err,
}
use solo_coder.Pgproto3.Source.{Source}

-- The fields of `Frontend` and of `Backend`, over the state of the reader. A `maxBodyLen` that is
-- not positive sets no limit; 0 stands for all of those.
pub record Endpoint (S : Type 0) : Type 0 where
  pub reader : S
  pub wbuf : List ℕ
  pub encode_error : Option Error
  pub body_len : ℕ
  pub max_body_len : ℕ
  pub msg_type : ℕ
  pub partial_msg : Bool
  pub auth_type : ℕ

-- `NewFrontend`, which sets the server's own limit on a message.
unfoldable pub new_frontend : {S : Type 0} → S → Endpoint S
new_frontend s = record {
  reader = s;
  wbuf = [];
  encode_error = none;
  body_len = 0;
  max_body_len = max_message_body_len;
  msg_type = 0;
  partial_msg = false;
  auth_type = 0;
}

-- `NewBackend`, which sets no limit.
unfoldable pub new_backend : {S : Type 0} → S → Endpoint S
new_backend s = record (new_frontend s) { max_body_len = 0 }

-- `SetMaxBodyLen`.
unfoldable pub set_max_body_len : {S : Type 0} → ℤ → Endpoint S → Endpoint S
set_max_body_len (pos n) e = record e { max_body_len = n }
set_max_body_len (negsuc n) e = record e { max_body_len = 0 }

pub translate_eof : Error → Error
translate_eof eof = unexpected_eof
translate_eof e = e

unfoldable pub header_type : List ℕ → ℕ
header_type [] = 0
header_type (t ∷ _) = t

-- `int(int32(binary.BigEndian.Uint32(header[1:])))`.
unfoldable pub header_length : List ℕ → ℤ
header_length (t ∷ a ∷ b ∷ c ∷ d ∷ _) = int32_of (from_be32 a b c d)
header_length _ = pos 0

module _ {S : Type 0} where
  -- The checks on the length, and the fields that they set on the way.
  unfoldable pub accept_length : ℤ → Endpoint S → Result (Unit {0}) × Endpoint S
  accept_length (negsuc n) e = (err (message "invalid message length"), e)
  accept_length (pos n) e =
      if ltb n 4
      then (err (message "invalid message length"), e)
      else if ltb 0 e.max_body_len && ltb e.max_body_len (n - 4)
      then (err (exceeded_max_body_len e.max_body_len (n - 4)), record e { body_len = n - 4 })
      else (ok tt, record e { body_len = n - 4; partial_msg = true })

  unfoldable pub accept_header : Result (List ℕ) × S → Endpoint S → Result (Unit {0}) × Endpoint S
  accept_header (err x, s) e = (err (translate_eof x), record e { reader = s })
  accept_header (ok header, s) e =
      accept_length (header_length header) (record e { reader = s; msg_type = header_type header })

-- `if !partialMsg { … }` in front of both `Receive` methods.
module _ (src : Source) where
  open src use {State, next}

  unfoldable pub receive_header : Endpoint State → Result (Unit {0}) × Endpoint State
  receive_header e = if e.partial_msg then (ok tt, e) else accept_header (next 5 e.reader) e
