-- ===== src/Pgproto3/BackendMessage.antt =====
-- The messages that a backend sends, with the `switch` of pgproto3/frontend.go that decodes them.
pub mod Wire
pub mod RoundTrip
use solo_coder.Pgproto3.ParseComplete
use solo_coder.Pgproto3.BindComplete
use solo_coder.Pgproto3.CloseComplete
use solo_coder.Pgproto3.NotificationResponse
use solo_coder.Pgproto3.NotificationResponse.{NotificationResponse}
use solo_coder.Pgproto3.CopyDone
use solo_coder.Pgproto3.CommandComplete
use solo_coder.Pgproto3.CommandComplete.{CommandComplete}
use solo_coder.Pgproto3.CopyData
use solo_coder.Pgproto3.CopyData.{CopyData}
use solo_coder.Pgproto3.DataRow
use solo_coder.Pgproto3.DataRow.{DataRow}
use solo_coder.Pgproto3.ErrorResponse
use solo_coder.Pgproto3.ErrorResponse.{ErrorResponse}
use solo_coder.Pgproto3.CopyInResponse
use solo_coder.Pgproto3.CopyInResponse.{CopyInResponse}
use solo_coder.Pgproto3.CopyOutResponse
use solo_coder.Pgproto3.CopyOutResponse.{CopyOutResponse}
use solo_coder.Pgproto3.EmptyQueryResponse
use solo_coder.Pgproto3.BackendKeyData
use solo_coder.Pgproto3.BackendKeyData.{BackendKeyData}
use solo_coder.Pgproto3.NoData
use solo_coder.Pgproto3.Authentication.Ok
use solo_coder.Pgproto3.Authentication.CleartextPassword
use solo_coder.Pgproto3.Authentication.Md5Password
use solo_coder.Pgproto3.Authentication.Md5Password.{Md5Password}
use solo_coder.Pgproto3.Authentication.Gss
use solo_coder.Pgproto3.Authentication.GssContinue
use solo_coder.Pgproto3.Authentication.GssContinue.{GssContinue}
use solo_coder.Pgproto3.Authentication.Sasl
use solo_coder.Pgproto3.Authentication.Sasl.{Sasl}
use solo_coder.Pgproto3.Authentication.SaslContinue
use solo_coder.Pgproto3.Authentication.SaslContinue.{SaslContinue}
use solo_coder.Pgproto3.Authentication.SaslFinal
use solo_coder.Pgproto3.Authentication.SaslFinal.{SaslFinal}
use solo_coder.Pgproto3.PortalSuspended
use solo_coder.Pgproto3.ParameterStatus
use solo_coder.Pgproto3.ParameterStatus.{ParameterStatus}
use solo_coder.Pgproto3.ParameterDescription
use solo_coder.Pgproto3.ParameterDescription.{ParameterDescription}
use solo_coder.Pgproto3.RowDescription
use solo_coder.Pgproto3.RowDescription.{RowDescription}
use solo_coder.Pgproto3.FunctionCallResponse
use solo_coder.Pgproto3.FunctionCallResponse.{FunctionCallResponse}
use solo_coder.Pgproto3.CopyBothResponse
use solo_coder.Pgproto3.CopyBothResponse.{CopyBothResponse}
use solo_coder.Pgproto3.ReadyForQuery
use solo_coder.Pgproto3.ReadyForQuery.{ReadyForQuery}
use solo_coder.Pgproto3.NegotiateProtocolVersion
use solo_coder.Pgproto3.NegotiateProtocolVersion.{NegotiateProtocolVersion}
use solo_coder.Common.{ℕ, List, ◌==◌, if◌then◌else◌}
use solo_coder.Pgproto3.Authentication.{
  auth_type_ok, auth_type_cleartext_password, auth_type_md5_password, auth_type_scm_creds,
  auth_type_gss, auth_type_gss_cont, auth_type_sspi, auth_type_sasl, auth_type_sasl_continue,
  auth_type_sasl_final,
}
use solo_coder.Pgproto3.ErrorResponse.{encode_notice}
use solo_coder.Pgproto3.Message.{◌>>=◌, ◌>>◌, Result, message, ok, err}
use solo_coder.Pgproto3.Read.{read_uint32}

pub data BackendMessage : Type 0 where
  parse_complete : BackendMessage
  bind_complete : BackendMessage
  close_complete : BackendMessage
  notification_response : NotificationResponse → BackendMessage
  copy_done : BackendMessage
  command_complete : CommandComplete → BackendMessage
  copy_data : CopyData → BackendMessage
  data_row : DataRow → BackendMessage
  error_response : ErrorResponse → BackendMessage
  copy_in_response : CopyInResponse → BackendMessage
  copy_out_response : CopyOutResponse → BackendMessage
  empty_query_response : BackendMessage
  backend_key_data : BackendKeyData → BackendMessage
  no_data : BackendMessage
  notice_response : ErrorResponse → BackendMessage
  authentication_ok : BackendMessage
  authentication_cleartext_password : BackendMessage
  authentication_md5_password : Md5Password → BackendMessage
  authentication_gss : BackendMessage
  authentication_gss_continue : GssContinue → BackendMessage
  authentication_sasl : Sasl → BackendMessage
  authentication_sasl_continue : SaslContinue → BackendMessage
  authentication_sasl_final : SaslFinal → BackendMessage
  portal_suspended : BackendMessage
  parameter_status : ParameterStatus → BackendMessage
  parameter_description : ParameterDescription → BackendMessage
  row_description : RowDescription → BackendMessage
  function_call_response : FunctionCallResponse → BackendMessage
  copy_both_response : CopyBothResponse → BackendMessage
  ready_for_query : ReadyForQuery → BackendMessage
  negotiate_protocol_version : NegotiateProtocolVersion → BackendMessage

-- `msg.Encode(dst)`.
unfoldable pub encode : List ℕ → BackendMessage → Result (List ℕ)
encode dst parse_complete = ParseComplete.encode dst
encode dst bind_complete = BindComplete.encode dst
encode dst close_complete = CloseComplete.encode dst
encode dst (notification_response m) = NotificationResponse.encode dst m
encode dst copy_done = CopyDone.encode dst
encode dst (command_complete m) = CommandComplete.encode dst m
encode dst (copy_data m) = CopyData.encode dst m
encode dst (data_row m) = DataRow.encode dst m
encode dst (error_response m) = ErrorResponse.encode dst m
encode dst (copy_in_response m) = CopyInResponse.encode dst m
encode dst (copy_out_response m) = CopyOutResponse.encode dst m
encode dst empty_query_response = EmptyQueryResponse.encode dst
encode dst (backend_key_data m) = BackendKeyData.encode dst m
encode dst no_data = NoData.encode dst
encode dst (notice_response m) = ErrorResponse.encode_notice dst m
encode dst authentication_ok = Ok.encode dst
encode dst authentication_cleartext_password = CleartextPassword.encode dst
encode dst (authentication_md5_password m) = Md5Password.encode dst m
encode dst authentication_gss = Gss.encode dst
encode dst (authentication_gss_continue m) = GssContinue.encode dst m
encode dst (authentication_sasl m) = Sasl.encode dst m
encode dst (authentication_sasl_continue m) = SaslContinue.encode dst m
encode dst (authentication_sasl_final m) = SaslFinal.encode dst m
encode dst portal_suspended = PortalSuspended.encode dst
encode dst (parameter_status m) = ParameterStatus.encode dst m
encode dst (parameter_description m) = ParameterDescription.encode dst m
encode dst (row_description m) = RowDescription.encode dst m
encode dst (function_call_response m) = FunctionCallResponse.encode dst m
encode dst (copy_both_response m) = CopyBothResponse.encode dst m
encode dst (ready_for_query m) = ReadyForQuery.encode dst m
encode dst (negotiate_protocol_version m) = NegotiateProtocolVersion.encode dst m

-- `findAuthenticationMessageType` of pgproto3/frontend.go, and the `Decode` of the message that it
-- finds.
unfoldable pub decode_authentication_type : ℕ → List ℕ → Result BackendMessage
decode_authentication_type auth_type body =
    if auth_type == auth_type_ok
    then (do Ok.decode body; ok authentication_ok)
    else if auth_type == auth_type_cleartext_password
    then (do CleartextPassword.decode body; ok authentication_cleartext_password)
    else if auth_type == auth_type_md5_password
    then (do m ← Md5Password.decode body; ok (authentication_md5_password m))
    else if auth_type == auth_type_scm_creds
    then err (message "AuthTypeSCMCreds is unimplemented")
    else if auth_type == auth_type_gss
    then (do Gss.decode body; ok authentication_gss)
    else if auth_type == auth_type_gss_cont
    then (do m ← GssContinue.decode body; ok (authentication_gss_continue m))
    else if auth_type == auth_type_sspi
    then err (message "AuthTypeSSPI is unimplemented")
    else if auth_type == auth_type_sasl
    then (do m ← Sasl.decode body; ok (authentication_sasl m))
    else if auth_type == auth_type_sasl_continue
    then (do m ← SaslContinue.decode body; ok (authentication_sasl_continue m))
    else if auth_type == auth_type_sasl_final
    then (do m ← SaslFinal.decode body; ok (authentication_sasl_final m))
    else err (message "unknown authentication type")

unfoldable pub decode_authentication : List ℕ → Result BackendMessage
decode_authentication body = do
  (auth_type, r) ← read_uint32 (message "authentication message too short") body
  decode_authentication_type auth_type body

-- The `switch` of `Frontend.Receive`, with the `Decode` that is called.
unfoldable pub decode_message : ℕ → List ℕ → Result BackendMessage
decode_message t body =
    if t == b'1'
    then (do ParseComplete.decode body; ok parse_complete)
    else if t == b'2'
    then (do BindComplete.decode body; ok bind_complete)
    else if t == b'3'
    then (do CloseComplete.decode body; ok close_complete)
    else if t == b'A'
    then (do m ← NotificationResponse.decode body; ok (notification_response m))
    else if t == b'c'
    then (do CopyDone.decode body; ok copy_done)
    else if t == b'C'
    then (do m ← CommandComplete.decode body; ok (command_complete m))
    else if t == b'd'
    then (do m ← CopyData.decode body; ok (copy_data m))
    else if t == b'D'
    then (do m ← DataRow.decode body; ok (data_row m))
    else if t == b'E'
    then (do m ← ErrorResponse.decode body; ok (error_response m))
    else if t == b'G'
    then (do m ← CopyInResponse.decode body; ok (copy_in_response m))
    else if t == b'H'
    then (do m ← CopyOutResponse.decode body; ok (copy_out_response m))
    else if t == b'I'
    then (do EmptyQueryResponse.decode body; ok empty_query_response)
    else if t == b'K'
    then (do m ← BackendKeyData.decode body; ok (backend_key_data m))
    else if t == b'n'
    then (do NoData.decode body; ok no_data)
    else if t == b'N'
    then (do m ← ErrorResponse.decode body; ok (notice_response m))
    else if t == b's'
    then (do PortalSuspended.decode body; ok portal_suspended)
    else if t == b'S'
    then (do m ← ParameterStatus.decode body; ok (parameter_status m))
    else if t == b't'
    then (do m ← ParameterDescription.decode body; ok (parameter_description m))
    else if t == b'T'
    then (do m ← RowDescription.decode body; ok (row_description m))
    else if t == b'V'
    then (do m ← FunctionCallResponse.decode body; ok (function_call_response m))
    else if t == b'W'
    then (do m ← CopyBothResponse.decode body; ok (copy_both_response m))
    else if t == b'Z'
    then (do m ← ReadyForQuery.decode body; ok (ready_for_query m))
    else if t == b'v'
    then (do m ← NegotiateProtocolVersion.decode body; ok (negotiate_protocol_version m))
    else if t == b'R'
    then decode_authentication body
    else err (message "unknown message type")
