-- ===== src/Pgproto3/Backend.antt =====
-- pgproto3/backend.go: the server's end of a connection.
pub mod Receive
pub mod Refusals
pub mod Startup
use solo_coder.Pgproto3.FrontendMessage.{decoder}
use solo_coder.Common.{ℕ, false, ◌||◌, Option, none, some, List, ◌==◌, if◌then◌else◌}
use solo_coder.Pgproto3.Authentication.{
  auth_type_ok, auth_type_cleartext_password, auth_type_md5_password, auth_type_scm_creds,
  auth_type_gss, auth_type_gss_cont, auth_type_sspi, auth_type_sasl, auth_type_sasl_continue,
  auth_type_sasl_final,
}
use solo_coder.Pgproto3.ChunkReader.{next}
use solo_coder.Pgproto3.Endpoint.{Endpoint, translate_eof, receive_header}
use solo_coder.Pgproto3.FrontendMessage.{FrontendMessage}
use solo_coder.Pgproto3.Message.{message, Result, ok, err}
use solo_coder.Pgproto3.Source.{Source}

module _ {S : Type 0} where
  -- The body has been read, or could not be.
  unfoldable pub finish_body :
      (List ℕ → Result FrontendMessage)
      → Result (List ℕ) × S
      → Endpoint S
      → Result FrontendMessage × Endpoint S
  finish_body decode (err x, s) b = (err (translate_eof x), record b { reader = s })
  finish_body decode (ok msg_body, s) b =
      (decode msg_body, record b { reader = s; partial_msg = false })

module _ (src : Source) where
  open src use {State, next}

  -- An unknown type is refused before the body is read, and `partialMsg` stays set.
  unfoldable pub receive_body :
      Option (List ℕ → Result FrontendMessage)
      → Endpoint State
      → Result FrontendMessage × Endpoint State
  receive_body none b = (err (message "unknown message type"), b)
  receive_body (some decode) b = finish_body decode (next b.body_len b.reader) b

  unfoldable pub continue_receive :
      Result (Unit {0}) × Endpoint State → Result FrontendMessage × Endpoint State
  continue_receive (err x, b) = (err x, b)
  continue_receive (ok _, b) = receive_body (decoder b.auth_type b.msg_type) b

  -- `Backend.Receive`.
  unfoldable pub receive : Endpoint State → Result FrontendMessage × Endpoint State
  receive b = continue_receive (receive_header src b)

-- `Backend.SetAuthType`.
unfoldable pub set_auth_type : {S : Type 0} → ℕ → Endpoint S → Result (Unit {0}) × Endpoint S
set_auth_type t b =
    if t == auth_type_ok
      || t == auth_type_cleartext_password
      || t == auth_type_md5_password
      || t == auth_type_scm_creds
      || t == auth_type_gss
      || t == auth_type_gss_cont
      || t == auth_type_sspi
      || t == auth_type_sasl
      || t == auth_type_sasl_continue
      || t == auth_type_sasl_final
    then (ok tt, record b { auth_type = t })
    else (err (message "authType not recognized"), b)
