-- ===== src/Pgtype/Int/Sql.antt =====
-- pgtype/int.go: the values of package database/sql.
use solo_coder.Common.{◌≡◌, refl, ap, ◌∙◌, false, some, arith}
use solo_coder.Common.Int.{ℤ, pos, negsuc}
use solo_coder.Pgtype.Int.{
  parsed, pass_on, narrow_scanned, sql_int, sql_text, sql_bytes, parse_at, scan_sql, sql_value,
  marshal_json,
}
use solo_coder.Pgtype.Integers.{Width, w8, w16, w32, w64, ltb_int, min_int, max_int, format_int}
use solo_coder.Pgtype.Integers.Decimal.{in_range, parse_int-format_int}
use solo_coder.Pgtype.Integers.Laws.{IsInt, convert-IsInt}
use solo_coder.Pgtype.Plan.{◌>>=◌, valid_number, given}

wide : (w : Width) (n : ℤ) → IsInt w n → IsInt w64 n
wide w8 (pos n) h = omega (arith, h)
wide w8 (negsuc n) h = omega (arith, h)
wide w16 (pos n) h = omega (arith, h)
wide w16 (negsuc n) h = omega (arith, h)
wide w32 (pos n) h = omega (arith, h)
wide w32 (negsuc n) h = omega (arith, h)
wide w64 (pos n) h = omega (arith, h)
wide w64 (negsuc n) h = omega (arith, h)

in_range-IsInt : (w : Width) (n : ℤ) → IsInt w n → in_range w n ≡ parsed n
in_range-IsInt w (pos n) h =
    let fits : ltb_int (max_int w) (pos n) ≡ false = ground (arith, h) in rw fits refl
in_range-IsInt w (negsuc n) h =
    let fits : ltb_int (negsuc n) (min_int w) ≡ false = ground (arith, h) in rw fits refl

narrow_scanned-IsInt : (w : Width) (n : ℤ) → IsInt w n → narrow_scanned w n ≡ given (valid_number n)
unfolding narrow_scanned
narrow_scanned-IsInt w (pos n) h =
    let fits : ltb_int (max_int w) (pos n) ≡ false = ground (arith, h) in
    rw (fits, convert-IsInt w (pos n) h) refl
narrow_scanned-IsInt w (negsuc n) h =
    let fits : ltb_int (negsuc n) (min_int w) ≡ false = ground (arith, h) in
    rw (fits, convert-IsInt w (negsuc n) h) refl

parse_at-format_int : (w : Width) (n : ℤ) → IsInt w n → parse_at w (format_int n) ≡ given n
unfolding pass_on
parse_at-format_int w n h =
    ap pass_on (parse_int-format_int w n (wide w n h)) ∙ ap pass_on (in_range-IsInt w n h)

scan_text-format_int :
    (w : Width) (n : ℤ)
    → IsInt w n
    → (parse_at w (format_int n) >>= narrow_scanned w) ≡ given (valid_number n)
scan_text-format_int w n h =
    ap (λ a. a >>= narrow_scanned w) (parse_at-format_int w n h) ∙ narrow_scanned-IsInt w n h

-- For each size and every integer of it: Value gives the integer, and Scan makes the same valid
-- value of it, of the text that MarshalJSON writes, and of that text as bytes.
pub scan_sql-value :
    (w : Width) (n : ℤ)
    → IsInt w n
    → (sql_value (valid_number n) ≡ some n)
      × (scan_sql w (sql_int n) ≡ given (valid_number n))
      × (scan_sql w (sql_text (marshal_json (valid_number n))) ≡ given (valid_number n))
      × (scan_sql w (sql_bytes (marshal_json (valid_number n))) ≡ given (valid_number n))
unfolding sql_value scan_sql marshal_json
scan_sql-value w n h =
    let same_number = convert-IsInt w64 n (wide w n h) in
    (
      rw same_number refl,
      narrow_scanned-IsInt w n h,
      rw same_number (scan_text-format_int w n h),
      rw same_number (scan_text-format_int w n h),
    )
