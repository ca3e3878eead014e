-- ===== src/Pgproto3/BackendMessage/Wire.antt =====
-- The wire form of every backend message, and the decoder that reads it back.
use solo_coder.Pgproto3.BackendMessage.{encode, copy_data, copy_done}
use solo_coder.Pgproto3.ParseComplete
use solo_coder.Pgproto3.BindComplete
use solo_coder.Pgproto3.CloseComplete
use solo_coder.Pgproto3.NotificationResponse
use solo_coder.Pgproto3.NotificationResponse.{NotificationResponse}
use solo_coder.Pgproto3.CopyDone
use solo_coder.Pgproto3.CommandComplete
use solo_coder.Pgproto3.CommandComplete.{CommandComplete}
use solo_coder.Pgproto3.CopyData
use solo_coder.Pgproto3.CopyData.{CopyData}
use solo_coder.Pgproto3.DataRow
use solo_coder.Pgproto3.DataRow.{DataRow}
use solo_coder.Pgproto3.ErrorResponse
use solo_coder.Pgproto3.ErrorResponse.{ErrorResponse}
use solo_coder.Pgproto3.CopyInResponse
use solo_coder.Pgproto3.CopyInResponse.{CopyInResponse}
use solo_coder.Pgproto3.CopyOutResponse
use solo_coder.Pgproto3.CopyOutResponse.{CopyOutResponse}
use solo_coder.Pgproto3.EmptyQueryResponse
use solo_coder.Pgproto3.BackendKeyData
use solo_coder.Pgproto3.BackendKeyData.{BackendKeyData}
use solo_coder.Pgproto3.NoData
use solo_coder.Pgproto3.Authentication.Ok
use solo_coder.Pgproto3.Authentication.CleartextPassword
use solo_coder.Pgproto3.Authentication.Md5Password
use solo_coder.Pgproto3.Authentication.Md5Password.{Md5Password}
use solo_coder.Pgproto3.Authentication.Gss
use solo_coder.Pgproto3.Authentication.GssContinue
use solo_coder.Pgproto3.Authentication.GssContinue.{GssContinue}
use solo_coder.Pgproto3.Authentication.Sasl
use solo_coder.Pgproto3.Authentication.Sasl.{Sasl}
use solo_coder.Pgproto3.Authentication.SaslContinue
use solo_coder.Pgproto3.Authentication.SaslContinue.{SaslContinue}
use solo_coder.Pgproto3.Authentication.SaslFinal
use solo_coder.Pgproto3.Authentication.SaslFinal.{SaslFinal}
use solo_coder.Pgproto3.PortalSuspended
use solo_coder.Pgproto3.ParameterStatus
use solo_coder.Pgproto3.ParameterStatus.{ParameterStatus}
use solo_coder.Pgproto3.ParameterDescription
use solo_coder.Pgproto3.ParameterDescription.{ParameterDescription}
use solo_coder.Pgproto3.RowDescription
use solo_coder.Pgproto3.RowDescription.{RowDescription}
use solo_coder.Pgproto3.FunctionCallResponse
use solo_coder.Pgproto3.FunctionCallResponse.{FunctionCallResponse}
use solo_coder.Pgproto3.CopyBothResponse
use solo_coder.Pgproto3.CopyBothResponse.{CopyBothResponse}
use solo_coder.Pgproto3.ReadyForQuery
use solo_coder.Pgproto3.ReadyForQuery.{ReadyForQuery}
use solo_coder.Pgproto3.NegotiateProtocolVersion
use solo_coder.Pgproto3.NegotiateProtocolVersion.{NegotiateProtocolVersion}
use solo_coder.Common.{ℕ, ◌≡◌, List, [], ◌∷◌, length}
use solo_coder.Pgproto3.BackendMessage.{
  BackendMessage, parse_complete, bind_complete, close_complete, notification_response,
  command_complete, data_row, error_response, copy_in_response, copy_out_response,
  empty_query_response, backend_key_data, no_data, notice_response, authentication_ok,
  authentication_cleartext_password, authentication_md5_password, authentication_gss,
  authentication_gss_continue, authentication_sasl, authentication_sasl_continue,
  authentication_sasl_final, portal_suspended, parameter_status, parameter_description,
  row_description, function_call_response, copy_both_response, ready_for_query,
  negotiate_protocol_version,
}
use solo_coder.Pgproto3.ErrorResponse.Wire.{encode_notice-framed}
use solo_coder.Pgproto3.Message.Frame.{framed}
use solo_coder.Pgproto3.Read.Laws.{NoNul, IsSendable}

-- The type byte of a message.
unfoldable pub type_of : BackendMessage → ℕ
type_of parse_complete = b'1'
type_of bind_complete = b'2'
type_of close_complete = b'3'
type_of (notification_response m) = b'A'
type_of copy_done = b'c'
type_of (command_complete m) = b'C'
type_of (copy_data m) = b'd'
type_of (data_row m) = b'D'
type_of (error_response m) = b'E'
type_of (copy_in_response m) = b'G'
type_of (copy_out_response m) = b'H'
type_of empty_query_response = b'I'
type_of (backend_key_data m) = b'K'
type_of no_data = b'n'
type_of (notice_response m) = b'N'
type_of authentication_ok = b'R'
type_of authentication_cleartext_password = b'R'
type_of (authentication_md5_password m) = b'R'
type_of authentication_gss = b'R'
type_of (authentication_gss_continue m) = b'R'
type_of (authentication_sasl m) = b'R'
type_of (authentication_sasl_continue m) = b'R'
type_of (authentication_sasl_final m) = b'R'
type_of portal_suspended = b's'
type_of (parameter_status m) = b'S'
type_of (parameter_description m) = b't'
type_of (row_description m) = b'T'
type_of (function_call_response m) = b'V'
type_of (copy_both_response m) = b'W'
type_of (ready_for_query m) = b'Z'
type_of (negotiate_protocol_version m) = b'v'

-- The bytes behind the length.
unfoldable pub body_of : BackendMessage → List ℕ
body_of parse_complete = []
body_of bind_complete = []
body_of close_complete = []
body_of (notification_response m) = NotificationResponse.body m
body_of copy_done = []
body_of (command_complete m) = CommandComplete.body m
body_of (copy_data m) = CopyData.body m
body_of (data_row m) = DataRow.body m
body_of (error_response m) = ErrorResponse.Wire.body m
body_of (copy_in_response m) = CopyInResponse.body m
body_of (copy_out_response m) = CopyOutResponse.body m
body_of empty_query_response = []
body_of (backend_key_data m) = BackendKeyData.body m
body_of no_data = []
body_of (notice_response m) = ErrorResponse.Wire.body m
body_of authentication_ok = Ok.body
body_of authentication_cleartext_password = CleartextPassword.body
body_of (authentication_md5_password m) = Md5Password.body m
body_of authentication_gss = Gss.body
body_of (authentication_gss_continue m) = GssContinue.body m
body_of (authentication_sasl m) = Sasl.body m
body_of (authentication_sasl_continue m) = SaslContinue.body m
body_of (authentication_sasl_final m) = SaslFinal.body m
body_of portal_suspended = []
body_of (parameter_status m) = ParameterStatus.body m
body_of (parameter_description m) = ParameterDescription.body m
body_of (row_description m) = RowDescription.body m
body_of (function_call_response m) = FunctionCallResponse.body m
body_of (copy_both_response m) = CopyBothResponse.body m
body_of (ready_for_query m) = ReadyForQuery.body m
body_of (negotiate_protocol_version m) = NegotiateProtocolVersion.body m

-- A message that its wire form can carry: each of its parts in the range of its type, no zero
-- byte inside a string.
abbrev pub IsValid : BackendMessage → Type 0
IsValid parse_complete = Unit
IsValid bind_complete = Unit
IsValid close_complete = Unit
IsValid (notification_response m) = NotificationResponse.IsValid m
IsValid copy_done = Unit
IsValid (command_complete m) = NoNul m.command_tag
IsValid (copy_data m) = Unit
IsValid (data_row m) = DataRow.IsValid m
IsValid (error_response m) = ErrorResponse.Fields.IsValid m
IsValid (copy_in_response m) = CopyInResponse.IsValid m
IsValid (copy_out_response m) = CopyOutResponse.IsValid m
IsValid empty_query_response = Unit
IsValid (backend_key_data m) = BackendKeyData.IsValid m
IsValid no_data = Unit
IsValid (notice_response m) = ErrorResponse.Fields.IsValid m
IsValid authentication_ok = Unit
IsValid authentication_cleartext_password = Unit
IsValid (authentication_md5_password m) = length m.salt ≡ 4
IsValid authentication_gss = Unit
IsValid (authentication_gss_continue m) = Unit
IsValid (authentication_sasl m) = Sasl.IsValid m
IsValid (authentication_sasl_continue m) = Unit
IsValid (authentication_sasl_final m) = Unit
IsValid portal_suspended = Unit
IsValid (parameter_status m) = ParameterStatus.IsValid m
IsValid (parameter_description m) = ParameterDescription.IsValid m
IsValid (row_description m) = RowDescription.IsValid m
IsValid (function_call_response m) = IsSendable m.result
IsValid (copy_both_response m) = CopyBothResponse.IsValid m
IsValid (ready_for_query m) = Unit
IsValid (negotiate_protocol_version m) = NegotiateProtocolVersion.IsValid m

-- Encoding a message appends its frame.
pub encode-framed :
    (dst : List ℕ) (m : BackendMessage)
    → IsValid m
    → encode dst m ≡ framed dst (type_of m ∷ []) (body_of m)
unfolding encode type_of body_of
encode-framed dst parse_complete v = ParseComplete.encode-framed dst
encode-framed dst bind_complete v = BindComplete.encode-framed dst
encode-framed dst close_complete v = CloseComplete.encode-framed dst
encode-framed dst (notification_response m) v = NotificationResponse.encode-framed dst m
encode-framed dst copy_done v = CopyDone.encode-framed dst
encode-framed dst (command_complete m) v = CommandComplete.encode-framed dst m
encode-framed dst (copy_data m) v = CopyData.encode-framed dst m
encode-framed dst (data_row m) v = DataRow.encode-framed dst m v
encode-framed dst (error_response m) v = ErrorResponse.Wire.encode-framed dst m
encode-framed dst (copy_in_response m) v = CopyInResponse.encode-framed dst m v
encode-framed dst (copy_out_response m) v = CopyOutResponse.encode-framed dst m v
encode-framed dst empty_query_response v = EmptyQueryResponse.encode-framed dst
encode-framed dst (backend_key_data m) v = BackendKeyData.encode-framed dst m
encode-framed dst no_data v = NoData.encode-framed dst
encode-framed dst (notice_response m) v = ErrorResponse.Wire.encode_notice-framed dst m
encode-framed dst authentication_ok v = Ok.encode-framed dst
encode-framed dst authentication_cleartext_password v = CleartextPassword.encode-framed dst
encode-framed dst (authentication_md5_password m) v = Md5Password.encode-framed dst m
encode-framed dst authentication_gss v = Gss.encode-framed dst
encode-framed dst (authentication_gss_continue m) v = GssContinue.encode-framed dst m
encode-framed dst (authentication_sasl m) v = Sasl.encode-framed dst m
encode-framed dst (authentication_sasl_continue m) v = SaslContinue.encode-framed dst m
encode-framed dst (authentication_sasl_final m) v = SaslFinal.encode-framed dst m
encode-framed dst portal_suspended v = PortalSuspended.encode-framed dst
encode-framed dst (parameter_status m) v = ParameterStatus.encode-framed dst m
encode-framed dst (parameter_description m) v = ParameterDescription.encode-framed dst m v
encode-framed dst (row_description m) v = RowDescription.encode-framed dst m v
encode-framed dst (function_call_response m) v = FunctionCallResponse.encode-framed dst m
encode-framed dst (copy_both_response m) v = CopyBothResponse.encode-framed dst m v
encode-framed dst (ready_for_query m) v = ReadyForQuery.encode-framed dst m
encode-framed dst (negotiate_protocol_version m) v = NegotiateProtocolVersion.encode-framed dst m
