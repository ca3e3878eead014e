-- ===== src/Pgproto3/Authentication.antt =====
-- pgproto3/frontend.go and pgproto3/authentication_*.go: the authentication requests, told apart
-- by a code in front of the body.
pub mod Ok
pub mod CleartextPassword
pub mod Gss
pub mod GssContinue
pub mod SaslContinue
pub mod SaslFinal
pub mod Md5Password
pub mod Sasl
use solo_coder.Common.{ℕ}

abbrev pub auth_type_ok : ℕ
auth_type_ok = 0

abbrev pub auth_type_cleartext_password : ℕ
auth_type_cleartext_password = 3

abbrev pub auth_type_md5_password : ℕ
auth_type_md5_password = 5

abbrev pub auth_type_scm_creds : ℕ
auth_type_scm_creds = 6

abbrev pub auth_type_gss : ℕ
auth_type_gss = 7

abbrev pub auth_type_gss_cont : ℕ
auth_type_gss_cont = 8

abbrev pub auth_type_sspi : ℕ
auth_type_sspi = 9

abbrev pub auth_type_sasl : ℕ
auth_type_sasl = 10

abbrev pub auth_type_sasl_continue : ℕ
auth_type_sasl_continue = 11

abbrev pub auth_type_sasl_final : ℕ
auth_type_sasl_final = 12
