-- ===== src/Pgtype/Int/TextRoundTrip.antt =====
-- pgtype/int.go: the text that a codec encodes, and what its plans scan of it.
use solo_coder.Pgtype.Int.Int2
use solo_coder.Pgtype.Int.Int4
use solo_coder.Pgtype.Int.Int8
use solo_coder.Common.{
  ℕ, ◌^◌, ◌<◌, ◌≡◌, refl, inl, inr, false, some, List, arith, ltb, if◌then◌else◌, Bool-cases,
}
use solo_coder.Common.Int.{ℤ, pos, negsuc}
use solo_coder.Pgtype.Int.{append_text, encode_go_int}
use solo_coder.Pgtype.Int.RoundTrip.{
  plan_encode, plan_scan, IntCodec, int2, int4, int8, width, encoded,
}
use solo_coder.Pgtype.Int.Stores.{IsGoInt, lowest, highest, same_refl}
use solo_coder.Pgtype.Int.Text.{scan_text_checked, scan_text_to_signed, scan_text_to_unsigned}
use solo_coder.Pgtype.Integers.{
  parse_digits, parse_uint, Width, w8, w16, w32, w64, bits, ltb_int, min_int, max_int, max_uint,
  format_int,
}
use solo_coder.Pgtype.Integers.Decimal.{parse_uint-digits, parse_uint-large, parse_int-format_int}
use solo_coder.Pgtype.Integers.Laws.{IsInt, convert-IsInt, to_unsigned-IsUint, values_of}
use solo_coder.Pgtype.Plan.{
  text_format, Target, signed, unsigned, int, uint, int64_scanner, text_scanner, other_target,
  CodecError, syntax, out_of_range, Answer, refused, given, Stored, stored, go_int, codec_scan,
}

-- A minus sign is no digit: ParseUint takes a negative number for no number at all.
abbrev pub below : Target → CodecError
below (unsigned w) = syntax
below uint = syntax
below t = out_of_range

abbrev pub text_bounded : Target → ℤ → Answer Stored
text_bounded t n =
    if ltb_int n (lowest t)
    then refused (below t)
    else if ltb_int (highest t) n
    then refused out_of_range
    else given (stored n)

pub signed_in_range :
    (w : Width) (n : ℤ) → ltb_int n (min_int w) ≡ false → ltb_int (max_int w) n ≡ false → IsInt w n
signed_in_range w (pos n) low high = ground (arith, high, values_of w)
signed_in_range w (negsuc n) low high = ground (arith, low, values_of w)

unsigned_in_range : (w : Width) (n : ℕ) → ltb_int (max_uint w) (pos n) ≡ false → n < 2 ^ bits w
unsigned_in_range w n high = ground (arith, high, values_of w)

module _ (w : Width) (t : Target) where
  text_signed :
      (n : ℤ)
      → IsInt w64 n
      → scan_text_to_signed w t (some (format_int n)) t ≡ (
          if ltb_int n (min_int w)
          then refused out_of_range
          else if ltb_int (max_int w) n
          then refused out_of_range
          else given (stored n))
  unfolding scan_text_checked
  text_signed n h = elim (Bool-cases (ltb_int n (min_int w))) [
    | inl low ↦ rw (same_refl t, parse_int-format_int w n h, low) refl
    | inr not_low ↦ elim (Bool-cases (ltb_int (max_int w) n)) [
      | inl high ↦ rw (same_refl t, parse_int-format_int w n h, not_low, high) refl
      | inr not_high ↦
          rw
            (
              same_refl t,
              parse_int-format_int w n h,
              not_low,
              not_high,
              convert-IsInt w n (signed_in_range w n not_low not_high),
            )
            refl
    ]
  ]

  text_natural :
      (n : ℕ)
      → IsInt w64 (pos n)
      → scan_text_to_unsigned w t (some (format_int (pos n))) t
        ≡ (if ltb_int (max_uint w) (pos n) then refused out_of_range else given (stored (pos n)))
  unfolding scan_text_checked format_int
  text_natural n h = elim (Bool-cases (ltb_int (max_uint w) (pos n))) [
    | inl high ↦
        rw (same_refl t, high, parse_uint-large w n (omega (arith, h)) (ground (arith, high))) refl
    | inr not_high ↦
        let fits = unsigned_in_range w n not_high in
        rw
          (
            same_refl t,
            not_high,
            parse_uint-digits w n (omega (arith, h)) fits,
            to_unsigned-IsUint w (pos n) fits,
          )
          refl
  ]

  text_unsigned :
      (n : ℤ)
      → IsInt w64 n
      → scan_text_to_unsigned w t (some (format_int n)) t ≡ (
          if ltb_int n (pos 0)
          then refused syntax
          else if ltb_int (max_uint w) n
          then refused out_of_range
          else given (stored n))
  unfolding scan_text_checked format_int parse_uint parse_digits
  text_unsigned (pos n) h =
      let natural : ltb n 0 ≡ false = ground arith in rw natural (text_natural n h)
  text_unsigned (negsuc n) h = rw (same_refl t) refl

scan_text-bounded :
    (c : IntCodec) (t : Target) (n : ℤ)
    → IsGoInt t
    → IsInt w64 n
    → codec_scan (plan_scan c text_format t) (some (format_int n)) t ≡ text_bounded t n
unfolding codec_scan Int2.plan_scan Int4.plan_scan Int8.plan_scan
scan_text-bounded int2 (signed w8) n go h = text_signed w8 (signed w8) n h
scan_text-bounded int2 (unsigned w8) n go h = text_unsigned w8 (unsigned w8) n h
scan_text-bounded int2 (signed w16) n go h = text_signed w16 (signed w16) n h
scan_text-bounded int2 (unsigned w16) n go h = text_unsigned w16 (unsigned w16) n h
scan_text-bounded int2 (signed w32) n go h = text_signed w32 (signed w32) n h
scan_text-bounded int2 (unsigned w32) n go h = text_unsigned w32 (unsigned w32) n h
scan_text-bounded int2 (signed w64) n go h = text_signed w64 (signed w64) n h
scan_text-bounded int2 (unsigned w64) n go h = text_unsigned w64 (unsigned w64) n h
scan_text-bounded int2 int n go h = text_signed w64 int n h
scan_text-bounded int2 uint n go h = text_unsigned w64 uint n h
scan_text-bounded int2 int64_scanner n go h = absurd go
scan_text-bounded int2 text_scanner n go h = absurd go
scan_text-bounded int2 other_target n go h = absurd go
scan_text-bounded int4 (signed w8) n go h = text_signed w8 (signed w8) n h
scan_text-bounded int4 (unsigned w8) n go h = text_unsigned w8 (unsigned w8) n h
scan_text-bounded int4 (signed w16) n go h = text_signed w16 (signed w16) n h
scan_text-bounded int4 (unsigned w16) n go h = text_unsigned w16 (unsigned w16) n h
scan_text-bounded int4 (signed w32) n go h = text_signed w32 (signed w32) n h
scan_text-bounded int4 (unsigned w32) n go h = text_unsigned w32 (unsigned w32) n h
scan_text-bounded int4 (signed w64) n go h = text_signed w64 (signed w64) n h
scan_text-bounded int4 (unsigned w64) n go h = text_unsigned w64 (unsigned w64) n h
scan_text-bounded int4 int n go h = text_signed w64 int n h
scan_text-bounded int4 uint n go h = text_unsigned w64 uint n h
scan_text-bounded int4 int64_scanner n go h = absurd go
scan_text-bounded int4 text_scanner n go h = absurd go
scan_text-bounded int4 other_target n go h = absurd go
scan_text-bounded int8 (signed w8) n go h = text_signed w8 (signed w8) n h
scan_text-bounded int8 (unsigned w8) n go h = text_unsigned w8 (unsigned w8) n h
scan_text-bounded int8 (signed w16) n go h = text_signed w16 (signed w16) n h
scan_text-bounded int8 (unsigned w16) n go h = text_unsigned w16 (unsigned w16) n h
scan_text-bounded int8 (signed w32) n go h = text_signed w32 (signed w32) n h
scan_text-bounded int8 (unsigned w32) n go h = text_unsigned w32 (unsigned w32) n h
scan_text-bounded int8 (signed w64) n go h = text_signed w64 (signed w64) n h
scan_text-bounded int8 (unsigned w64) n go h = text_unsigned w64 (unsigned w64) n h
scan_text-bounded int8 int n go h = text_signed w64 int n h
scan_text-bounded int8 uint n go h = text_unsigned w64 uint n h
scan_text-bounded int8 int64_scanner n go h = absurd go
scan_text-bounded int8 text_scanner n go h = absurd go
scan_text-bounded int8 other_target n go h = absurd go

size_IsInt : (c : IntCodec) (n : ℤ) → IsInt (width c) n → IsInt w64 n
size_IsInt int2 (pos n) h = omega (arith, h)
size_IsInt int2 (negsuc n) h = omega (arith, h)
size_IsInt int4 (pos n) h = omega (arith, h)
size_IsInt int4 (negsuc n) h = omega (arith, h)
size_IsInt int8 n h = h

encode_text :
    (c : IntCodec) (n : ℤ)
    → encoded (plan_encode c text_format (go_int (width c) n)) (go_int (width c) n)
      ≡ given (some (format_int n))
unfolding Int2.plan_encode Int4.plan_encode Int8.plan_encode encode_go_int append_text
encode_text int2 n = refl
encode_text int4 n = refl
encode_text int8 n = refl

-- For each codec, every integer of its size and every target that is one of Go's integers: the
-- integer is encoded as text, and the text is scanned to the same integer where the target holds
-- it, and refused elsewhere, as out of range, or as no number where the integer is negative and the
-- target unsigned.
pub text_round_trip :
    (c : IntCodec) (t : Target) (n : ℤ)
    → IsGoInt t
    → IsInt (width c) n
    → (s : List ℕ) × (encoded (plan_encode c text_format (go_int (width c) n)) (go_int (width c) n)
        ≡ given (some s))
      × (codec_scan (plan_scan c text_format t) (some s) t ≡ text_bounded t n)
text_round_trip c t n go h =
    (format_int n, encode_text c n, scan_text-bounded c t n go (size_IsInt c n h))
