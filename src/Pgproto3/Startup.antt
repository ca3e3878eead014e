-- ===== src/Pgproto3/Startup.antt =====
-- pgproto3/startup_message.go, ssl_request.go, gss_enc_request.go and cancel_request.go: the first
-- message of a connection, which has no type byte.
pub mod StartupMessage
pub mod CancelRequest
pub mod SslRequest
pub mod GssEncRequest
use solo_coder.Common.{ℕ}

abbrev pub protocol_version_30 : ℕ
protocol_version_30 = 196608

abbrev pub protocol_version_32 : ℕ
protocol_version_32 = 196610

abbrev pub ssl_request_number : ℕ
ssl_request_number = 80877103

abbrev pub cancel_request_code : ℕ
cancel_request_code = 80877102

abbrev pub gss_enc_req_number : ℕ
gss_enc_req_number = 80877104
