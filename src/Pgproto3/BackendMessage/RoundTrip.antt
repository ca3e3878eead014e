-- ===== src/Pgproto3/BackendMessage/RoundTrip.antt =====
-- The messages of a backend and their decoder in pgproto3/frontend.go.
use solo_coder.Pgproto3.BackendMessage.{encode, copy_data, copy_done}
use solo_coder.Pgproto3.ParseComplete
use solo_coder.Pgproto3.BindComplete
use solo_coder.Pgproto3.CloseComplete
use solo_coder.Pgproto3.NotificationResponse
use solo_coder.Pgproto3.NotificationResponse.{NotificationResponse}
use solo_coder.Pgproto3.CopyDone
use solo_coder.Pgproto3.CommandComplete
use solo_coder.Pgproto3.CommandComplete.{CommandComplete}
use solo_coder.Pgproto3.CopyData
use solo_coder.Pgproto3.CopyData.{CopyData}
use solo_coder.Pgproto3.DataRow
use solo_coder.Pgproto3.DataRow.{DataRow}
use solo_coder.Pgproto3.ErrorResponse
use solo_coder.Pgproto3.ErrorResponse.{ErrorResponse}
use solo_coder.Pgproto3.CopyInResponse
use solo_coder.Pgproto3.CopyInResponse.{CopyInResponse}
use solo_coder.Pgproto3.CopyOutResponse
use solo_coder.Pgproto3.CopyOutResponse.{CopyOutResponse}
use solo_coder.Pgproto3.EmptyQueryResponse
use solo_coder.Pgproto3.BackendKeyData
use solo_coder.Pgproto3.BackendKeyData.{BackendKeyData}
use solo_coder.Pgproto3.NoData
use solo_coder.Pgproto3.Authentication.Ok
use solo_coder.Pgproto3.Authentication.CleartextPassword
use solo_coder.Pgproto3.Authentication.Md5Password
use solo_coder.Pgproto3.Authentication.Md5Password.{Md5Password}
use solo_coder.Pgproto3.Authentication.Gss
use solo_coder.Pgproto3.Authentication.GssContinue
use solo_coder.Pgproto3.Authentication.GssContinue.{GssContinue}
use solo_coder.Pgproto3.Authentication.Sasl
use solo_coder.Pgproto3.Authentication.Sasl.{Sasl}
use solo_coder.Pgproto3.Authentication.SaslContinue
use solo_coder.Pgproto3.Authentication.SaslContinue.{SaslContinue}
use solo_coder.Pgproto3.Authentication.SaslFinal
use solo_coder.Pgproto3.Authentication.SaslFinal.{SaslFinal}
use solo_coder.Pgproto3.PortalSuspended
use solo_coder.Pgproto3.ParameterStatus
use solo_coder.Pgproto3.ParameterStatus.{ParameterStatus}
use solo_coder.Pgproto3.ParameterDescription
use solo_coder.Pgproto3.ParameterDescription.{ParameterDescription}
use solo_coder.Pgproto3.RowDescription
use solo_coder.Pgproto3.RowDescription.{RowDescription}
use solo_coder.Pgproto3.FunctionCallResponse
use solo_coder.Pgproto3.FunctionCallResponse.{FunctionCallResponse}
use solo_coder.Pgproto3.CopyBothResponse
use solo_coder.Pgproto3.CopyBothResponse.{CopyBothResponse}
use solo_coder.Pgproto3.ReadyForQuery
use solo_coder.Pgproto3.ReadyForQuery.{ReadyForQuery}
use solo_coder.Pgproto3.NegotiateProtocolVersion
use solo_coder.Pgproto3.NegotiateProtocolVersion.{NegotiateProtocolVersion}
use solo_coder.Common.{ℕ, ◌≡◌, refl, ◌∙◌, List, [], ◌∷◌, ◌++◌, arith}
use solo_coder.Pgio.Laws.{be32}
use solo_coder.Pgproto3.Authentication.{
  auth_type_ok, auth_type_cleartext_password, auth_type_md5_password, auth_type_gss,
  auth_type_gss_cont, auth_type_sasl, auth_type_sasl_continue, auth_type_sasl_final,
}
use solo_coder.Pgproto3.BackendMessage.{
  decode_authentication_type, decode_authentication, decode_message, BackendMessage, parse_complete,
  bind_complete, close_complete, notification_response, command_complete, data_row, error_response,
  copy_in_response, copy_out_response, empty_query_response, backend_key_data, no_data,
  notice_response, authentication_ok, authentication_cleartext_password,
  authentication_md5_password, authentication_gss, authentication_gss_continue, authentication_sasl,
  authentication_sasl_continue, authentication_sasl_final, portal_suspended, parameter_status,
  parameter_description, row_description, function_call_response, copy_both_response,
  ready_for_query, negotiate_protocol_version,
}
use solo_coder.Pgproto3.Message.{message, ok}
use solo_coder.Pgproto3.Message.Frame.{framed}
use solo_coder.Pgproto3.Read.{read_uint32}
use solo_coder.Pgproto3.Read.Laws.{read_uint32-be32, cstring_bytes, flat, IsUint32}
use solo_coder.Pgproto3.BackendMessage.Wire.{type_of, body_of, IsValid, encode-framed}

-- The code in front of an authentication request selects the request.
authentic :
    (t : ℕ) (rest body : List ℕ)
    → IsUint32 t
    → body ≡ be32 t ++ rest
    → decode_authentication body ≡ decode_authentication_type t body
unfolding decode_authentication
authentic t rest body h e =
    let read : read_uint32 (message "authentication message too short") body ≡ ok (t, rest) =
      rw e (read_uint32-be32 _ t rest h) in
    rw read

-- Decoding the body of a message by its type byte gives the message back.
pub decode_message-body_of :
    (m : BackendMessage) → IsValid m → decode_message (type_of m) (body_of m) ≡ ok m
unfolding decode_message type_of body_of
decode_message-body_of parse_complete v = rw (ParseComplete.decode-body)
decode_message-body_of bind_complete v = rw (BindComplete.decode-body)
decode_message-body_of close_complete v = rw (CloseComplete.decode-body)
decode_message-body_of (notification_response m) v = rw (NotificationResponse.decode-body m v)
decode_message-body_of copy_done v = rw (CopyDone.decode-body)
decode_message-body_of (command_complete m) v = rw (CommandComplete.decode-body m v)
decode_message-body_of (copy_data m) v = rw (CopyData.decode-body m)
decode_message-body_of (data_row m) v = rw (DataRow.decode-body m v)
decode_message-body_of (error_response m) v = rw (ErrorResponse.Wire.decode-body m v)
decode_message-body_of (copy_in_response m) v = rw (CopyInResponse.decode-body m v)
decode_message-body_of (copy_out_response m) v = rw (CopyOutResponse.decode-body m v)
decode_message-body_of empty_query_response v = rw (EmptyQueryResponse.decode-body)
decode_message-body_of (backend_key_data m) v = rw (BackendKeyData.decode-body m v)
decode_message-body_of no_data v = rw (NoData.decode-body)
decode_message-body_of (notice_response m) v = rw (ErrorResponse.Wire.decode-body m v)
decode_message-body_of authentication_ok v =
    authentic auth_type_ok [] Ok.body (omega arith) (unfold Ok.body be32 in refl)
    ∙ unfold decode_authentication_type in rw (Ok.decode-body)
decode_message-body_of authentication_cleartext_password v =
    authentic auth_type_cleartext_password [] CleartextPassword.body (omega arith)
      (unfold CleartextPassword.body be32 in refl)
    ∙ unfold decode_authentication_type in rw (CleartextPassword.decode-body)
decode_message-body_of (authentication_md5_password m) v =
    authentic auth_type_md5_password m.salt (Md5Password.body m) (omega arith)
      (unfold Md5Password.body be32 in refl)
    ∙ unfold decode_authentication_type in rw (Md5Password.decode-body m v)
decode_message-body_of authentication_gss v =
    authentic auth_type_gss [] Gss.body (omega arith) (unfold Gss.body be32 in refl)
    ∙ unfold decode_authentication_type in rw (Gss.decode-body)
decode_message-body_of (authentication_gss_continue m) v =
    authentic auth_type_gss_cont m.bytes (GssContinue.body m) (omega arith)
      (unfold GssContinue.body be32 in refl)
    ∙ unfold decode_authentication_type in rw (GssContinue.decode-body m)
decode_message-body_of (authentication_sasl m) v =
    authentic auth_type_sasl (flat cstring_bytes m.auth_mechanisms ++ (0 ∷ [])) (Sasl.body m)
      (omega arith) (unfold Sasl.body be32 in refl)
    ∙ unfold decode_authentication_type in rw (Sasl.decode-body m v)
decode_message-body_of (authentication_sasl_continue m) v =
    authentic auth_type_sasl_continue m.bytes (SaslContinue.body m) (omega arith)
      (unfold SaslContinue.body be32 in refl)
    ∙ unfold decode_authentication_type in rw (SaslContinue.decode-body m)
decode_message-body_of (authentication_sasl_final m) v =
    authentic auth_type_sasl_final m.bytes (SaslFinal.body m) (omega arith)
      (unfold SaslFinal.body be32 in refl)
    ∙ unfold decode_authentication_type in rw (SaslFinal.decode-body m)
decode_message-body_of portal_suspended v = rw (PortalSuspended.decode-body)
decode_message-body_of (parameter_status m) v = rw (ParameterStatus.decode-body m v)
decode_message-body_of (parameter_description m) v = rw (ParameterDescription.decode-body m v)
decode_message-body_of (row_description m) v = rw (RowDescription.decode-body m v)
decode_message-body_of (function_call_response m) v = rw (FunctionCallResponse.decode-body m v)
decode_message-body_of (copy_both_response m) v = rw (CopyBothResponse.decode-body m v)
decode_message-body_of (ready_for_query m) v = rw (ReadyForQuery.decode-body m)
decode_message-body_of (negotiate_protocol_version m) v =
    rw (NegotiateProtocolVersion.decode-body m v)

-- A valid message of a backend is encoded as a frame of its type byte, the length and its body
-- behind what the buffer holds, or refused where the length is over the limit; and the decoder for
-- its type byte reads the body back.
pub backend_message_round_trip :
    (dst : List ℕ) (m : BackendMessage)
    → IsValid m
    → (encode dst m ≡ framed dst (type_of m ∷ []) (body_of m))
      × (decode_message (type_of m) (body_of m) ≡ ok m)
backend_message_round_trip dst m v = (encode-framed dst m v, decode_message-body_of m v)
