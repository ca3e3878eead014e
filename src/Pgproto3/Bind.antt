-- ===== src/Pgproto3/Bind.antt =====
-- pgproto3/bind.go.
pub mod Wire
use mathlib.Core.List.{foldl}
use solo_coder.Common.{ℕ, ◌%◌, ◌^◌, List, [], ◌∷◌, ◌++◌, Option, length, leb}
use solo_coder.Common.Int.{ℤ}
use solo_coder.Pgio.{append_uint16, append_int16}
use solo_coder.Pgproto3.Message.{
  Error, invalid_message_format, message, Result, ok, ◌>>=◌, ◌>>◌, guard, begin_message,
  finish_message,
}
use solo_coder.Pgproto3.Read.{
  max_uint16, read_uint16, read_cstring, read_many, read_int16s, read_value, append_value,
}

-- A NULL parameter, Go's nil slice, is `none`.
pub record Bind : Type 0 where
  pub destination_portal : List ℕ
  pub prepared_statement : List ℕ
  pub parameter_format_codes : List ℤ
  pub parameters : List (Option (List ℕ))
  pub result_format_codes : List ℤ

abbrev bad : Error
bad = invalid_message_format "Bind" ""

unfoldable pub decode : List ℕ → Result Bind
decode src = do
  (destination_portal, r) ← read_cstring bad src
  (prepared_statement, r) ← read_cstring bad r
  (parameter_format_code_count, r) ← read_uint16 bad r
  (parameter_format_codes, r) ← read_int16s bad parameter_format_code_count r
  (parameter_count, r) ← read_uint16 bad r
  (parameters, r) ← read_many (read_value bad) parameter_count r
  (result_format_code_count, r) ← read_uint16 bad r
  (result_format_codes, r) ← read_int16s bad result_format_code_count r
  ok (record {
    destination_portal = destination_portal;
    prepared_statement = prepared_statement;
    parameter_format_codes = parameter_format_codes;
    parameters = parameters;
    result_format_codes = result_format_codes;
  })

unfoldable pub encode : List ℕ → Bind → Result (List ℕ)
encode dst src =
    let (dst, sp) = begin_message dst b'B' in
    let dst = dst ++ src.destination_portal in
    let dst = dst ++ (0 ∷ []) in
    let dst = dst ++ src.prepared_statement in
    let dst = dst ++ (0 ∷ []) in
    do
      guard (leb (length src.parameter_format_codes) max_uint16)
          (message "too many parameter format codes")
      let dst = append_uint16 dst (length src.parameter_format_codes % 2 ^ 16)
      let dst = foldl append_int16 dst src.parameter_format_codes
      guard (leb (length src.parameters) max_uint16) (message "too many parameters")
      let dst = append_uint16 dst (length src.parameters % 2 ^ 16)
      let dst = foldl append_value dst src.parameters
      guard (leb (length src.result_format_codes) max_uint16)
          (message "too many result format codes")
      let dst = append_uint16 dst (length src.result_format_codes % 2 ^ 16)
      let dst = foldl append_int16 dst src.result_format_codes
      finish_message dst sp
