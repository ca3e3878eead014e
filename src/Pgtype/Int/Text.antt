-- ===== src/Pgtype/Int/Text.antt =====
-- pgtype/int.go: the text plans of every integer type.
use solo_coder.Common.{ℕ, not, none, some, List, if◌then◌else◌}
use solo_coder.Common.Int.{ℤ, pos}
use solo_coder.Pgtype.Int.{parse_at}
use solo_coder.Pgtype.Integers.{
  parse_uint, Width, w8, w16, w32, w64, to_unsigned, convert, Parsed, syntax_error, range_error,
  parsed, parse_int,
}
use solo_coder.Pgtype.Plan.{
  ◌>>=◌, passed_number, Target, signed, unsigned, int, uint, int64_scanner, same, null_number,
  valid_number, cannot_scan_null, target_type_changed, syntax, out_of_range, refused, given, stored,
  ScanPlan,
}

-- A text plan for the target t.
unfoldable pub scan_text_checked {ℓ} :
    {A : Type ℓ} → Target → (List ℕ → Parsed A) → (A → ℤ) → ScanPlan
scan_text_checked t parse_text store none dst = refused cannot_scan_null
scan_text_checked t parse_text store (some s) dst =
    if not (same dst t) then refused target_type_changed else elim (parse_text s) [
      | syntax_error ↦ refused syntax
      | range_error ↦ refused out_of_range
      | parsed n ↦ given (stored (store n))
    ]

abbrev pub scan_text_to_signed : Width → Target → ScanPlan
scan_text_to_signed w t = scan_text_checked t (parse_int w) (convert w)

abbrev pub scan_text_to_unsigned : Width → Target → ScanPlan
scan_text_to_unsigned w t = scan_text_checked t (parse_uint w) (λ n. pos (to_unsigned w (pos n)))

abbrev pub scan_text_any_to_int8 : ScanPlan
scan_text_any_to_int8 = scan_text_to_signed w8 (signed w8)

abbrev pub scan_text_any_to_uint8 : ScanPlan
scan_text_any_to_uint8 = scan_text_to_unsigned w8 (unsigned w8)

abbrev pub scan_text_any_to_int16 : ScanPlan
scan_text_any_to_int16 = scan_text_to_signed w16 (signed w16)

abbrev pub scan_text_any_to_uint16 : ScanPlan
scan_text_any_to_uint16 = scan_text_to_unsigned w16 (unsigned w16)

abbrev pub scan_text_any_to_int32 : ScanPlan
scan_text_any_to_int32 = scan_text_to_signed w32 (signed w32)

abbrev pub scan_text_any_to_uint32 : ScanPlan
scan_text_any_to_uint32 = scan_text_to_unsigned w32 (unsigned w32)

abbrev pub scan_text_any_to_int64 : ScanPlan
scan_text_any_to_int64 = scan_text_to_signed w64 (signed w64)

abbrev pub scan_text_any_to_uint64 : ScanPlan
scan_text_any_to_uint64 = scan_text_to_unsigned w64 (unsigned w64)

abbrev pub scan_text_any_to_int : ScanPlan
scan_text_any_to_int = scan_text_to_signed w64 int

abbrev pub scan_text_any_to_uint : ScanPlan
scan_text_any_to_uint = scan_text_to_unsigned w64 uint

unfoldable pub scan_text_any_to_int64_scanner : ScanPlan
scan_text_any_to_int64_scanner none dst =
    if not (same dst int64_scanner)
    then refused target_type_changed
    else given (passed_number null_number)
scan_text_any_to_int64_scanner (some s) dst =
    if not (same dst int64_scanner)
    then refused target_type_changed
    else parse_at w64 s >>= (λ n. given (passed_number (valid_number n)))
