-- ===== src/Pgproto3/FrontendMessage.antt =====
-- The messages that a frontend sends after the startup, with the `switch` of pgproto3/backend.go
-- that decodes them.
pub mod Wire
use solo_coder.Pgproto3.Bind
use solo_coder.Pgproto3.Bind.{Bind}
use solo_coder.Pgproto3.Close
use solo_coder.Pgproto3.Close.{Close}
use solo_coder.Pgproto3.CopyData
use solo_coder.Pgproto3.CopyData.{CopyData}
use solo_coder.Pgproto3.CopyDone
use solo_coder.Pgproto3.CopyFail
use solo_coder.Pgproto3.CopyFail.{CopyFail}
use solo_coder.Pgproto3.Describe
use solo_coder.Pgproto3.Describe.{Describe}
use solo_coder.Pgproto3.Execute
use solo_coder.Pgproto3.Execute.{Execute}
use solo_coder.Pgproto3.Flush
use solo_coder.Pgproto3.FunctionCall
use solo_coder.Pgproto3.FunctionCall.{FunctionCall}
use solo_coder.Pgproto3.GssResponse
use solo_coder.Pgproto3.GssResponse.{GssResponse}
use solo_coder.Pgproto3.Parse
use solo_coder.Pgproto3.Parse.{Parse}
use solo_coder.Pgproto3.PasswordMessage
use solo_coder.Pgproto3.PasswordMessage.{PasswordMessage}
use solo_coder.Pgproto3.Query
use solo_coder.Pgproto3.Query.{Query}
use solo_coder.Pgproto3.SaslInitialResponse
use solo_coder.Pgproto3.SaslInitialResponse.{SaslInitialResponse}
use solo_coder.Pgproto3.SaslResponse
use solo_coder.Pgproto3.SaslResponse.{SaslResponse}
use solo_coder.Pgproto3.Sync
use solo_coder.Pgproto3.Terminate
use solo_coder.Common.{ℕ, ◌||◌, Option, none, some, List, ◌==◌, if◌then◌else◌}
use solo_coder.Pgproto3.Authentication.{
  auth_type_gss, auth_type_gss_cont, auth_type_sasl, auth_type_sasl_continue, auth_type_sasl_final,
}
use solo_coder.Pgproto3.Message.{◌>>=◌, ◌>>◌, Result, ok}

pub data FrontendMessage : Type 0 where
  bind : Bind → FrontendMessage
  close : Close → FrontendMessage
  copy_data : CopyData → FrontendMessage
  copy_done : FrontendMessage
  copy_fail : CopyFail → FrontendMessage
  describe : Describe → FrontendMessage
  execute : Execute → FrontendMessage
  flush : FrontendMessage
  function_call : FunctionCall → FrontendMessage
  gss_response : GssResponse → FrontendMessage
  parse : Parse → FrontendMessage
  password_message : PasswordMessage → FrontendMessage
  query : Query → FrontendMessage
  sasl_initial_response : SaslInitialResponse → FrontendMessage
  sasl_response : SaslResponse → FrontendMessage
  sync : FrontendMessage
  terminate : FrontendMessage

-- `msg.Encode(dst)`.
unfoldable pub encode : List ℕ → FrontendMessage → Result (List ℕ)
encode dst (bind m) = Bind.encode dst m
encode dst (close m) = Close.encode dst m
encode dst (copy_data m) = CopyData.encode dst m
encode dst copy_done = CopyDone.encode dst
encode dst (copy_fail m) = CopyFail.encode dst m
encode dst (describe m) = Describe.encode dst m
encode dst (execute m) = Execute.encode dst m
encode dst flush = Flush.encode dst
encode dst (function_call m) = FunctionCall.encode dst m
encode dst (gss_response m) = GssResponse.encode dst m
encode dst (parse m) = Parse.encode dst m
encode dst (password_message m) = PasswordMessage.encode dst m
encode dst (query m) = Query.encode dst m
encode dst (sasl_initial_response m) = SaslInitialResponse.encode dst m
encode dst (sasl_response m) = SaslResponse.encode dst m
encode dst sync = Sync.encode dst
encode dst terminate = Terminate.encode dst

-- The `case 'p'` of `Backend.Receive`: four messages share the type byte, and the authentication
-- under way tells which one is meant.
unfoldable pub password_decoder : ℕ → List ℕ → Result FrontendMessage
password_decoder auth_type =
    if auth_type == auth_type_sasl
    then (λ src. do m ← SaslInitialResponse.decode src; ok (sasl_initial_response m))
    else if auth_type == auth_type_sasl_continue || auth_type == auth_type_sasl_final
    then (λ src. do m ← SaslResponse.decode src; ok (sasl_response m))
    else if auth_type == auth_type_gss || auth_type == auth_type_gss_cont
    then (λ src. do m ← GssResponse.decode src; ok (gss_response m))
    else (λ src. do m ← PasswordMessage.decode src; ok (password_message m))

-- The `switch` of `Backend.Receive`, with the `Decode` that is called; `none` is an unknown type.
unfoldable pub decoder : ℕ → ℕ → Option (List ℕ → Result FrontendMessage)
decoder auth_type t =
    if t == b'B'
    then some (λ src. do m ← Bind.decode src; ok (bind m))
    else if t == b'C'
    then some (λ src. do m ← Close.decode src; ok (close m))
    else if t == b'D'
    then some (λ src. do m ← Describe.decode src; ok (describe m))
    else if t == b'E'
    then some (λ src. do m ← Execute.decode src; ok (execute m))
    else if t == b'F'
    then some (λ src. do m ← FunctionCall.decode src; ok (function_call m))
    else if t == b'f'
    then some (λ src. do m ← CopyFail.decode src; ok (copy_fail m))
    else if t == b'd'
    then some (λ src. do m ← CopyData.decode src; ok (copy_data m))
    else if t == b'c'
    then some (λ src. do CopyDone.decode src; ok copy_done)
    else if t == b'H'
    then some (λ src. do Flush.decode src; ok flush)
    else if t == b'P'
    then some (λ src. do m ← Parse.decode src; ok (parse m))
    else if t == b'p'
    then some (password_decoder auth_type)
    else if t == b'Q'
    then some (λ src. do m ← Query.decode src; ok (query m))
    else if t == b'S'
    then some (λ src. do Sync.decode src; ok sync)
    else if t == b'X'
    then some (λ src. do Terminate.decode src; ok terminate)
    else none
