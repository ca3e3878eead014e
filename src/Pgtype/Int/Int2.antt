-- ===== src/Pgtype/Int/Int2.antt =====
-- pgtype/int.go: int2, its value and its codec.
use solo_coder.Common.{ℕ, Bool, Option, none, some, List}
use solo_coder.Common.Int.{ℤ}
use solo_coder.Pgio.{append_int16}
use solo_coder.Pgtype.Int.{
  append_text, scan_to_signed, scan_to_unsigned, scan_to_int, scan_to_uint, scan_to_int64_scanner,
  scan_to_text_scanner, narrow_nullable, SqlSource, scan_sql, sql_value, marshal_json,
  encode_go_int, encode_valuer, format_supported,
}
use solo_coder.Pgtype.Int.Text.{
  scan_text_any_to_int8, scan_text_any_to_uint8, scan_text_any_to_int16, scan_text_any_to_uint16,
  scan_text_any_to_int32, scan_text_any_to_uint32, scan_text_any_to_int64, scan_text_any_to_uint64,
  scan_text_any_to_int, scan_text_any_to_uint, scan_text_any_to_int64_scanner,
}
use solo_coder.Pgtype.Integers.{w8, w16, w32, w64, convert}
use solo_coder.Pgtype.Plan.{
  ◌>>=◌, Format, text_format, binary_format, Target, signed, unsigned, int, uint, int64_scanner,
  text_scanner, Nullable, Answer, given, Stored, ScanPlan, Value, go_int, valuer, EncodePlan,
  codec_scan,
}

unfoldable pub scan_int64 : Nullable → Answer Nullable
scan_int64 n = narrow_nullable w16 n

unfoldable pub int64_value : Nullable → Answer Nullable
int64_value n = given (record n { number = convert w64 n.number })

unfoldable pub scan : SqlSource → Answer Nullable
scan src = scan_sql w16 src

unfoldable pub value : Nullable → Option ℤ
value n = sql_value n

abbrev pub marshal : Nullable → List ℕ
marshal n = marshal_json n

abbrev pub supports : Format → Bool
supports format = format_supported format

abbrev pub preferred_format : Format
preferred_format = binary_format

abbrev pub encode_binary_int16 : EncodePlan
encode_binary_int16 = encode_go_int w16 append_int16

abbrev pub encode_text_int16 : EncodePlan
encode_text_int16 = encode_go_int w16 append_text

abbrev pub encode_binary_int64_valuer : EncodePlan
encode_binary_int64_valuer = encode_valuer w16 append_int16

abbrev pub encode_text_int64_valuer : EncodePlan
encode_text_int64_valuer = encode_valuer w16 append_text

unfoldable pub plan_encode : Format → Value → Option EncodePlan
plan_encode binary_format (go_int w16 n) = some encode_binary_int16
plan_encode binary_format (valuer n) = some encode_binary_int64_valuer
plan_encode text_format (go_int w16 n) = some encode_text_int16
plan_encode text_format (valuer n) = some encode_text_int64_valuer
plan_encode format v = none

abbrev pub scan_to_int8 : ScanPlan
scan_to_int8 = scan_to_signed w16 w8

abbrev pub scan_to_uint8 : ScanPlan
scan_to_uint8 = scan_to_unsigned w16 w8

abbrev pub scan_to_int16 : ScanPlan
scan_to_int16 = scan_to_signed w16 w16

abbrev pub scan_to_uint16 : ScanPlan
scan_to_uint16 = scan_to_unsigned w16 w16

abbrev pub scan_to_int32 : ScanPlan
scan_to_int32 = scan_to_signed w16 w32

abbrev pub scan_to_uint32 : ScanPlan
scan_to_uint32 = scan_to_unsigned w16 w32

abbrev pub scan_to_int64 : ScanPlan
scan_to_int64 = scan_to_signed w16 w64

abbrev pub scan_to_uint64 : ScanPlan
scan_to_uint64 = scan_to_unsigned w16 w64

abbrev pub scan_binary_int : ScanPlan
scan_binary_int = scan_to_int w16

abbrev pub scan_binary_uint : ScanPlan
scan_binary_uint = scan_to_uint w16

abbrev pub scan_binary_int64_scanner : ScanPlan
scan_binary_int64_scanner = scan_to_int64_scanner w16

abbrev pub scan_binary_text_scanner : ScanPlan
scan_binary_text_scanner = scan_to_text_scanner w16

unfoldable pub plan_scan : Format → Target → Option ScanPlan
plan_scan binary_format (signed w8) = some scan_to_int8
plan_scan binary_format (unsigned w8) = some scan_to_uint8
plan_scan binary_format (signed w16) = some scan_to_int16
plan_scan binary_format (unsigned w16) = some scan_to_uint16
plan_scan binary_format (signed w32) = some scan_to_int32
plan_scan binary_format (unsigned w32) = some scan_to_uint32
plan_scan binary_format (signed w64) = some scan_to_int64
plan_scan binary_format (unsigned w64) = some scan_to_uint64
plan_scan binary_format int = some scan_binary_int
plan_scan binary_format uint = some scan_binary_uint
plan_scan binary_format int64_scanner = some scan_binary_int64_scanner
plan_scan binary_format text_scanner = some scan_binary_text_scanner
plan_scan text_format (signed w8) = some scan_text_any_to_int8
plan_scan text_format (unsigned w8) = some scan_text_any_to_uint8
plan_scan text_format (signed w16) = some scan_text_any_to_int16
plan_scan text_format (unsigned w16) = some scan_text_any_to_uint16
plan_scan text_format (signed w32) = some scan_text_any_to_int32
plan_scan text_format (unsigned w32) = some scan_text_any_to_uint32
plan_scan text_format (signed w64) = some scan_text_any_to_int64
plan_scan text_format (unsigned w64) = some scan_text_any_to_uint64
plan_scan text_format int = some scan_text_any_to_int
plan_scan text_format uint = some scan_text_any_to_uint
plan_scan text_format int64_scanner = some scan_text_any_to_int64_scanner
plan_scan format t = none

-- `DecodeDatabaseSQLValue` and `DecodeValue`; `none` is nil.
unfoldable pub decode_as : Target → Format → Option (List ℕ) → Answer (Option Stored)
decode_as t format none = given none
decode_as t format (some s) = codec_scan (plan_scan format t) (some s) t >>= (λ v. given (some v))

abbrev pub decode_database_sql_value : Format → Option (List ℕ) → Answer (Option Stored)
decode_database_sql_value format src = decode_as (signed w64) format src

abbrev pub decode_value : Format → Option (List ℕ) → Answer (Option Stored)
decode_value format src = decode_as (signed w16) format src
