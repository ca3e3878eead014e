-- ===== src/Pgproto3/Decimal/Laws.antt =====
-- The decimal numbers of pgproto3/error_response.go, written and read.
use native.Mathlib.Nat.{pow-suc}
use solo_coder.Common.{
  ℕ, zero, suc, ◌+◌, ◌/◌, ◌%◌, ◌^◌, ◌≤◌, ◌<◌, ◌≡◌, inl, inr, false, some, List, [], ◌∷◌, ◌++◌,
  append-nil, append_assoc, arith, ltb, ◌==◌, Bool-cases, All-append,
}
use solo_coder.Common.Int.{ℤ, pos, negsuc}
use solo_coder.Pgio.Laws.{IsInt32}
use solo_coder.Pgproto3.Decimal.{
  digits, itoa, max_uint32, parse_digits, parse_uint, positive, negative, parse_int32,
}
use solo_coder.Pgproto3.Read.Laws.{NoNul}

-- Reading the digits of n and then s is reading s from n on.
parse_digits-digits :
    (fuel n : ℕ) (s : List ℕ)
    → n < 10 ^ fuel
    → n ≤ max_uint32
    → parse_digits 0 (digits fuel n ++ s) ≡ parse_digits n s
unfolding digits parse_digits
parse_digits-digits zero n s h k = let e : n ≡ 0 = omega arith in rw e
parse_digits-digits (suc fuel) n s h k = elim (Bool-cases (ltb n 10)) [
  | inl small ↦ rw small (ground arith)
  | inr big ↦
      rw
        (
          big,
          append_assoc,
          parse_digits-digits fuel (n / 10) _ (ground (arith, pow-suc 10 fuel)) (omega arith),
        )
        (ground arith)
]

-- What `itoa` writes starts with a digit.
pub digits_head :
    (fuel n : ℕ) → (c : ℕ) × (s : List ℕ) × (digits (suc fuel) n ≡ c ∷ s) × (b'0' ≤ c) × (c ≤ b'9')
unfolding digits
digits_head zero n = elim (Bool-cases (ltb n 10)) [
  | inl small ↦ (b'0' + n, [], rw small, ground arith, ground arith)
  | inr big ↦ (b'0' + n % 10, [], rw big, ground arith, ground arith)
]
digits_head (suc fuel) n = elim (Bool-cases (ltb n 10)) [
  | inl small ↦ (b'0' + n, [], rw small, ground arith, ground arith)
  | inr big ↦
      let (c, s, e, lo, hi) = digits_head fuel (n / 10) in
      (c, s ++ ((b'0' + n % 10) ∷ []), rw (big, e), lo, hi)
]

parse_uint-digits : (n : ℕ) → n < 10 ^ 10 → n ≤ max_uint32 → parse_uint (digits 10 n) ≡ some n
unfolding parse_uint parse_digits
parse_uint-digits n h k =
    let (c, s, e, lo, hi) = digits_head 9 n in
    rw e (rw (append-nil, e) at (parse_digits-digits 10 n [] h k))

pub parse_int32-itoa : (n : ℤ) → IsInt32 n → parse_int32 (itoa n) ≡ n
unfolding parse_int32 itoa positive negative
parse_int32-itoa (pos n) h =
    let (c, s, e, lo, hi) = digits_head 9 n in
    let plain : (c == b'+') ≡ false = ground arith in
    let unsigned : (c == b'-') ≡ false = ground arith in
    let read = parse_uint-digits n (omega arith) (omega arith) in
    rw e (rw (plain, unsigned, rw e at read) (ground arith))
parse_int32-itoa (negsuc n) h =
    rw (parse_uint-digits (suc n) (omega arith) (omega arith)) (ground arith)

-- A number that is not zero has digits, and no zero byte is among them.
digits-NoNul : (fuel n : ℕ) → NoNul (digits fuel n)
unfolding digits
digits-NoNul zero n = tt
digits-NoNul (suc fuel) n = elim (Bool-cases (ltb n 10)) [
  | inl small ↦ rw small (omega arith, tt)
  | inr big ↦
      rw big (All-append _ (digits fuel (n / 10)) _ (digits-NoNul fuel (n / 10)) (omega arith, tt))
]

pub itoa-NoNul : (n : ℤ) → NoNul (itoa n)
unfolding itoa
itoa-NoNul (pos n) = digits-NoNul 10 n
itoa-NoNul (negsuc n) = (omega arith, digits-NoNul 10 (suc n))
