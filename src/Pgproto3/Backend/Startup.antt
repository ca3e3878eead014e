-- ===== src/Pgproto3/Backend/Startup.antt =====
-- pgproto3/backend.go: `ReceiveStartupMessage`.
pub mod Laws
use solo_coder.Pgproto3.Startup.StartupMessage
use solo_coder.Pgproto3.Startup.CancelRequest
use solo_coder.Pgproto3.Startup.SslRequest
use solo_coder.Pgproto3.Startup.GssEncRequest
use solo_coder.Pgproto3.Startup.StartupMessage.{StartupMessage}
use solo_coder.Pgproto3.Startup.CancelRequest.{CancelRequest}
use solo_coder.Pgproto3.Message.{◌>>=◌, ◌>>◌}
use solo_coder.Common.{ℕ, ◌+◌, ◌-◌, ◌%◌, ◌^◌, ◌||◌, List, ◌∷◌, ltb, ◌==◌, if◌then◌else◌}
use solo_coder.Common.Int.{ℤ, pos, negsuc}
use solo_coder.Pgio.{int32_of}
use solo_coder.Pgio.Laws.{from_be32}
use solo_coder.Pgproto3.ChunkReader.{next}
use solo_coder.Pgproto3.Endpoint.{Endpoint, translate_eof}
use solo_coder.Pgproto3.Message.{message, Result, ok, err}
use solo_coder.Pgproto3.Source.{Source}
use solo_coder.Pgproto3.Startup.{
  protocol_version_30, protocol_version_32, ssl_request_number, cancel_request_code,
  gss_enc_req_number,
}

-- What a connection can begin with.
pub data StartupRequest : Type 0 where
  startup_message : StartupMessage → StartupRequest
  ssl_request : StartupRequest
  cancel_request : CancelRequest → StartupRequest
  gss_enc_request : StartupRequest

abbrev pub min_startup_packet_len : ℕ
min_startup_packet_len = 4

abbrev pub max_startup_packet_len : ℕ
max_startup_packet_len = 10000

-- `int(int32(binary.BigEndian.Uint32(buf)) - 4)`: the subtraction wraps around at 32 bits.
unfoldable pub startup_size : List ℕ → ℤ
startup_size (a ∷ b ∷ c ∷ d ∷ _) = int32_of ((from_be32 a b c d + (2 ^ 32 - 4)) % 2 ^ 32)
startup_size _ = pos 0

-- The `switch` on the code, with the `Decode` that is called.
unfoldable pub decode_code : ℕ → List ℕ → Result StartupRequest
decode_code code buf =
    if code == protocol_version_30 || code == protocol_version_32
    then (do m ← StartupMessage.decode buf; ok (startup_message m))
    else if code == ssl_request_number
    then (do SslRequest.decode buf; ok ssl_request)
    else if code == cancel_request_code
    then (do m ← CancelRequest.decode buf; ok (cancel_request m))
    else if code == gss_enc_req_number
    then (do GssEncRequest.decode buf; ok gss_enc_request)
    else err (message "unknown startup message code")

-- The packet has four bytes at least, so its code can be read.
unfoldable pub decode_startup : List ℕ → Result StartupRequest
decode_startup (a ∷ b ∷ c ∷ d ∷ rest) = decode_code (from_be32 a b c d) (a ∷ b ∷ c ∷ d ∷ rest)
decode_startup _ = err (message "unknown startup message code")

module _ {S : Type 0} where
  unfoldable pub finish_startup :
      Result (List ℕ) × S → Endpoint S → Result StartupRequest × Endpoint S
  finish_startup (err x, s) b = (err (translate_eof x), record b { reader = s })
  finish_startup (ok buf, s) b = (decode_startup buf, record b { reader = s })

module _ (src : Source) where
  open src use {State, next}

  unfoldable pub receive_sized : ℤ → Endpoint State → Result StartupRequest × Endpoint State
  receive_sized (negsuc n) b = (err (message "invalid length of startup packet"), b)
  receive_sized (pos n) b =
      let received = finish_startup (next n b.reader) b in
      if ltb n min_startup_packet_len || ltb max_startup_packet_len n
      then (err (message "invalid length of startup packet"), b)
      else received

  -- An error at the length is passed on as it is.
  unfoldable pub receive_after_size :
      Result (List ℕ) × State → Endpoint State → Result StartupRequest × Endpoint State
  receive_after_size (err x, s) b = (err x, record b { reader = s })
  receive_after_size (ok buf, s) b = receive_sized (startup_size buf) (record b { reader = s })

  -- `Backend.ReceiveStartupMessage`.
  unfoldable pub receive_startup_message : Endpoint State → Result StartupRequest × Endpoint State
  receive_startup_message b = receive_after_size (next 4 b.reader) b
