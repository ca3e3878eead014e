-- ===== src/Pgtype/Integers/Decimal.antt =====
-- The decimal text of an integer, read at a size.
use native.Mathlib.Nat.{pow-suc}
use solo_coder.Common.{
  ℕ, zero, suc, ◌/◌, ◌^◌, ◌≤◌, ◌<◌, ◌≡◌, refl, inl, inr, false, ◌||◌, List, [], ◌++◌, append-nil,
  append_assoc, arith, ltb, ◌==◌, if◌then◌else◌, Bool-cases,
}
use solo_coder.Common.Int.{ℤ, pos, negsuc}
use solo_coder.Pgproto3.Decimal.{digits}
use solo_coder.Pgproto3.Decimal.Laws.{digits_head}
use solo_coder.Pgtype.Integers.{
  parse_digits, parse_uint, positive, negative, Width, w64, bits, ltb_int, min_int, max_int,
  format_int, Parsed, range_error, parsed, parse_int,
}
use solo_coder.Pgtype.Integers.Laws.{IsInt, values_of}

-- Reading the digits of n and then s is reading s from n on.
parse_digits-digits :
    (w : Width) (fuel n : ℕ) (s : List ℕ)
    → n < 10 ^ fuel
    → n < 2 ^ bits w
    → parse_digits w 0 (digits fuel n ++ s) ≡ parse_digits w n s
unfolding digits parse_digits
parse_digits-digits w zero n s h k = let e : n ≡ 0 = omega arith in rw e refl
parse_digits-digits w (suc fuel) n s h k = elim (Bool-cases (ltb n 10)) [
  | inl small ↦ rw small (ground (arith, k))
  | inr big ↦
      rw
        (
          big,
          append_assoc,
          parse_digits-digits w fuel (n / 10) _ (ground (arith, h, pow-suc 10 fuel))
              (omega (arith, k)),
        )
        (ground (arith, k))
]

-- No number that is too large is read.
parse_digits-large :
    (w : Width) (fuel n : ℕ) (s : List ℕ)
    → n < 10 ^ fuel
    → 2 ^ bits w ≤ n
    → parse_digits w 0 (digits fuel n ++ s) ≡ range_error
unfolding digits parse_digits
parse_digits-large w zero n s h k = absurd (omega (arith, h, k, values_of w))
parse_digits-large w (suc fuel) n s h k = elim (Bool-cases (ltb n 10)) [
  | inl small ↦ absurd (ground (arith, small, k, values_of w))
  | inr big ↦ elim (Bool-cases (ltb (n / 10) (2 ^ bits w))) [
    | inl fits ↦
        rw
          (
            big,
            append_assoc,
            parse_digits-digits w fuel (n / 10) _ (ground (arith, h, pow-suc 10 fuel))
                (ground (arith, fits)),
          )
          (ground (arith, k))
    | inr large ↦
        rw (big, append_assoc)
          (parse_digits-large w fuel (n / 10) _ (ground (arith, h, pow-suc 10 fuel))
            (ground (arith, large)))
  ]
]

pub parse_uint-digits :
    (w : Width) (n : ℕ) → n < 10 ^ 19 → n < 2 ^ bits w → parse_uint w (digits 19 n) ≡ parsed n
unfolding parse_uint parse_digits
parse_uint-digits w n h k =
    let (c, s, e, lo, hi) = digits_head 18 n in
    rw e (rw (append-nil, e) at (parse_digits-digits w 19 n [] h k))

pub parse_uint-large :
    (w : Width) (n : ℕ) → n < 10 ^ 19 → 2 ^ bits w ≤ n → parse_uint w (digits 19 n) ≡ range_error
unfolding parse_uint
parse_uint-large w n h k =
    let (c, s, e, lo, hi) = digits_head 18 n in
    rw e (rw (append-nil, e) at (parse_digits-large w 19 n [] h k))

-- An integer of the size is read, any other is out of its range.
abbrev pub in_range : Width → ℤ → Parsed ℤ
in_range w n = if ltb_int n (min_int w) || ltb_int (max_int w) n then range_error else parsed n

positive-in_range :
    (w : Width) (n : ℕ) → n < 10 ^ 19 → positive w (parse_uint w (digits 19 n)) ≡ in_range w (pos n)
unfolding positive
positive-in_range w n h = elim (Bool-cases (ltb n (2 ^ bits w))) [
  | inl fits ↦ rw (parse_uint-digits w n h (ground (arith, fits))) (ground (arith, values_of w))
  | inr large ↦
      rw (parse_uint-large w n h (ground (arith, large))) (ground (arith, large, values_of w))
]

negative-in_range :
    (w : Width) (n : ℕ)
    → suc n < 10 ^ 19
    → negative w (parse_uint w (digits 19 (suc n))) ≡ in_range w (negsuc n)
unfolding negative
negative-in_range w n h = elim (Bool-cases (ltb (suc n) (2 ^ bits w))) [
  | inl fits ↦
      rw (parse_uint-digits w (suc n) h (ground (arith, fits))) (ground (arith, values_of w))
  | inr large ↦
      rw (parse_uint-large w (suc n) h (ground (arith, large))) (ground (arith, large, values_of w))
]

-- The text that FormatInt writes of an int64, read back by ParseInt at any size.
pub parse_int-format_int :
    (w : Width) (n : ℤ) → IsInt w64 n → parse_int w (format_int n) ≡ in_range w n
unfolding parse_int format_int
parse_int-format_int w (pos n) h =
    let (c, s, e, lo, hi) = digits_head 18 n in
    let plain : (c == b'+') ≡ false = ground (arith, lo) in
    let unsigned : (c == b'-') ≡ false = ground (arith, lo) in
    rw (e, plain, unsigned) (rw e at (positive-in_range w n (omega (arith, h))))
parse_int-format_int w (negsuc n) h = negative-in_range w n (omega (arith, h))
