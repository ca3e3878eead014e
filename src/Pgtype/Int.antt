-- ===== src/Pgtype/Int.antt =====
-- pgtype/int.go.erb: the parts that the codecs of int2, int4 and int8 share. The template makes
-- pgtype/int.go for each of the three sizes; here the size is an argument.
pub mod Stores
pub mod Text
pub mod Int2
pub mod Int4
pub mod Int8
pub mod Sql
pub mod RoundTrip
pub mod TextRoundTrip
pub mod Valuer
use Prim.Native.String.{String}
use solo_coder.Common.{
  ℕ, ◌/◌, Bool, true, false, not, ◌&&◌, Option, none, some, List, [], ◌∷◌, ◌++◌, ltb, ◌==◌,
  if◌then◌else◌, length,
}
use solo_coder.Common.Int.{ℤ, pos}
use solo_coder.Pgproto3.ChunkReader.{store}
use solo_coder.Pgtype.Integers.{
  Parsed, Width, w64, bits, to_unsigned, to_signed, convert, ltb_int, min_int, max_int, max_uint,
  big_endian, format_int, syntax_error, range_error, parsed, parse_int,
}
use solo_coder.Pgtype.Plan.{
  ◌>>=◌, Format, text_format, binary_format, other_format, Target, signed, unsigned, int, uint,
  int64_scanner, text_scanner, same, Nullable, null_number, valid_number, cannot_scan_null,
  target_type_changed, panicked, syntax, out_of_range, invalid_length, less_than_minimum,
  greater_than_maximum, cannot_scan, Answer, refused, given, Stored, stored, passed_number,
  passed_text, ScanPlan, go_int, valuer, EncodePlan,
}

-- `pg_byte_size`.
abbrev pub byte_size : Width → ℕ
byte_size w = bits w / 8

-- `intN(binary.BigEndian.UintN(src))`.
abbrev pub read_int : Width → List ℕ → ℤ
read_int w s = to_signed w (big_endian 0 s)

-- The tests that a plan for the target t starts with, then what it does with the integer.
unfoldable pub scan_checked : Width → Target → (ℤ → Answer Stored) → ScanPlan
scan_checked w t store none dst = refused cannot_scan_null
scan_checked w t store (some s) dst =
    if not (length s == byte_size w)
    then refused (invalid_length (length s))
    else if not (same dst t)
    then refused target_type_changed
    else store (read_int w s)

-- `ToInt8` to `ToInt64`: a smaller target tests the range.
unfoldable pub store_signed : Width → Width → ℤ → Answer Stored
store_signed w d n =
    if ltb (bits d) (bits w)
    then (if ltb_int n (min_int d)
        then refused (less_than_minimum n)
        else if ltb_int (max_int d) n
        then refused (greater_than_maximum n)
        else given (stored (convert d n)))
    else given (stored (convert d n))

unfoldable pub scan_to_signed : Width → Width → ScanPlan
scan_to_signed w d = scan_checked w (signed d) (store_signed w d)

-- `ToUint8` to `ToUint64`.
unfoldable pub store_unsigned : Width → Width → ℤ → Answer Stored
store_unsigned w d n =
    if ltb_int n (pos 0)
    then refused (less_than_minimum n)
    else if ltb (bits d) (bits w) && ltb_int (max_uint d) n
    then refused (greater_than_maximum n)
    else given (stored (pos (to_unsigned d n)))

unfoldable pub scan_to_unsigned : Width → Width → ScanPlan
scan_to_unsigned w d = scan_checked w (unsigned d) (store_unsigned w d)

-- `ToInt`.
unfoldable pub store_int : Width → ℤ → Answer Stored
store_int w n =
    if ltb 32 (bits w)
    then (if ltb_int n (min_int w64)
        then refused (less_than_minimum n)
        else if ltb_int (max_int w64) n
        then refused (greater_than_maximum n)
        else given (stored (convert w64 n)))
    else given (stored (convert w64 n))

unfoldable pub scan_to_int : Width → ScanPlan
scan_to_int w = scan_checked w int (store_int w)

-- `ToUint`.
unfoldable pub store_uint : Width → ℤ → Answer Stored
store_uint w n =
    if ltb_int (convert w64 n) (pos 0)
    then refused (less_than_minimum n)
    else if ltb 32 (bits w) && ltb_int (max_uint w64) (pos (to_unsigned w64 n))
    then refused (greater_than_maximum n)
    else given (stored (pos (to_unsigned w64 n)))

unfoldable pub scan_to_uint : Width → ScanPlan
scan_to_uint w = scan_checked w uint (store_uint w)

-- `ToInt64Scanner`, which takes NULL.
unfoldable pub scan_to_int64_scanner : Width → ScanPlan
scan_to_int64_scanner w none dst =
    if not (same dst int64_scanner)
    then refused target_type_changed
    else given (passed_number null_number)
scan_to_int64_scanner w (some s) dst =
    if not (same dst int64_scanner)
    then refused target_type_changed
    else if not (length s == byte_size w)
    then refused (invalid_length (length s))
    else given (passed_number (valid_number (convert w64 (read_int w s))))

-- `ToTextScanner`.
unfoldable pub scan_to_text_scanner : Width → ScanPlan
scan_to_text_scanner w none dst =
    if not (same dst text_scanner)
    then refused target_type_changed
    else given (passed_text [] false)
scan_to_text_scanner w (some s) dst =
    if not (same dst text_scanner)
    then refused target_type_changed
    else if not (length s == byte_size w)
    then refused (invalid_length (length s))
    else given (passed_text (format_int (convert w64 (read_int w s))) true)

-- The end of `ScanInt64`.
unfoldable pub narrow : Width → ℤ → Answer Nullable
narrow w n =
    if ltb_int n (min_int w)
    then refused (less_than_minimum n)
    else if ltb_int (max_int w) n
    then refused (greater_than_maximum n)
    else given (valid_number (convert w n))

unfoldable pub narrow_nullable : Width → Nullable → Answer Nullable
narrow_nullable w n = if not n.valid then given null_number else narrow w n.number

-- The sources that `Scan` of database/sql takes.
pub data SqlSource : Type 0 where
  nil : SqlSource
  sql_int : ℤ → SqlSource
  sql_text : List ℕ → SqlSource
  sql_bytes : List ℕ → SqlSource
  sql_other : String → SqlSource

-- `n, err = strconv.ParseInt(...)`, with the error passed on.
unfoldable pub pass_on : Parsed ℤ → Answer ℤ
pass_on syntax_error = refused syntax
pass_on range_error = refused out_of_range
pass_on (parsed n) = given n

abbrev pub parse_at : Width → List ℕ → Answer ℤ
parse_at w s = pass_on (parse_int w s)

-- The end of `Scan`, which reports a number that is too small as too large.
unfoldable pub narrow_scanned : Width → ℤ → Answer Nullable
narrow_scanned w n =
    if ltb_int n (min_int w)
    then refused (greater_than_maximum n)
    else if ltb_int (max_int w) n
    then refused (greater_than_maximum n)
    else given (valid_number (convert w n))

unfoldable pub scan_sql : Width → SqlSource → Answer Nullable
scan_sql w nil = given null_number
scan_sql w (sql_int n) = narrow_scanned w n
scan_sql w (sql_text s) = parse_at w s >>= narrow_scanned w
scan_sql w (sql_bytes s) = parse_at w s >>= narrow_scanned w
scan_sql w (sql_other name) = refused (cannot_scan name)

-- `Value` of database/sql/driver, and `MarshalJSON`.
unfoldable pub sql_value : Nullable → Option ℤ
sql_value n = if not n.valid then none else some (convert w64 n.number)

unfoldable pub marshal_json : Nullable → List ℕ
marshal_json n =
    if not n.valid then b'n' ∷ b'u' ∷ b'l' ∷ b'l' ∷ [] else format_int (convert w64 n.number)

-- The two ways from a value to its bytes: `append` is the one of the format.
unfoldable pub encode_go_int : Width → (List ℕ → ℤ → List ℕ) → EncodePlan
encode_go_int w append (go_int v n) buf =
    if bits v == bits w then given (some (append buf n)) else refused panicked
encode_go_int w append v buf = refused panicked

unfoldable pub encode_nullable :
    Width → (List ℕ → ℤ → List ℕ) → Nullable → List ℕ → Answer (Option (List ℕ))
encode_nullable w append n buf =
    if not n.valid
    then given none
    else if ltb_int (max_int w) n.number
    then refused (greater_than_maximum n.number)
    else if ltb_int n.number (min_int w)
    then refused (less_than_minimum n.number)
    else given (some (append buf n.number))

unfoldable pub encode_valuer : Width → (List ℕ → ℤ → List ℕ) → EncodePlan
encode_valuer w append (valuer n) buf = n >>= (λ n. encode_nullable w append n buf)
encode_valuer w append v buf = refused panicked

-- `append(buf, strconv.FormatInt(n, 10)...)`.
unfoldable pub append_text : List ℕ → ℤ → List ℕ
append_text buf n = buf ++ format_int n

abbrev pub format_supported : Format → Bool
format_supported text_format = true
format_supported binary_format = true
format_supported other_format = false
