-- ===== src/Iobufpool/Classes/Bits.antt =====
-- Binary lengths, trailing zeros and powers of two.
use native.Mathlib.Nat.{pow-suc}
use solo_coder.Common.{
  ℕ, zero, suc, ◌+◌, ◌-◌, ◌*◌, ◌/◌, ◌%◌, ◌^◌, ◌≤◌, ◌<◌, ◌≡◌, refl, sym, ap, ◌∙◌, ◌⊎◌, inl, inr,
  false, arith, ◌==◌, Bool-cases,
}
use solo_coder.Iobufpool.Classes.{bit_len, trailing_zeros, bit_and}

half_lt : (w n : ℕ) → n < 2 ^ suc w → n / 2 < 2 ^ w
half_lt w n h = omega (arith, h, pow-suc 2 w)

pub bit_len-bounds :
    (w n : ℕ)
    → n < 2 ^ w
    → (n < 2 ^ bit_len w n) × (((n ≡ 0) × (bit_len w n ≡ 0)) ⊎ (2 ^ bit_len w n ≤ 2 * n))
unfolding bit_len
bit_len-bounds zero n h = (h, inl (omega arith, refl))
bit_len-bounds (suc w) n h =
    let (hi, lo) = bit_len-bounds w (n / 2) (half_lt w n h) in
    let double = pow-suc 2 (bit_len w (n / 2)) in
    elim (Bool-cases (n == 0)) [
      | inl nothing ↦ rw nothing (ground arith, inl (ground arith, refl))
      | inr something ↦
          rw something
            (omega (arith, hi, double), inr (long n (bit_len w (n / 2)) lo double something))
    ]
  where
    long :
        (n k : ℕ)
        → ((n / 2 ≡ 0) × (k ≡ 0)) ⊎ (2 ^ k ≤ 2 * (n / 2))
        → 2 ^ suc k ≡ 2 ^ k * 2
        → (n == 0) ≡ false
        → 2 ^ suc k ≤ 2 * n
    long n k (inl (half, short)) double some_bit = rw short (ground arith)
    long n k (inr enough) double some_bit = omega (arith, enough, double)

low_bit : (n r : ℕ) → n % 2 ≡ r → r * r + 2 * (n / 2) ≡ n
low_bit n zero e = omega (arith, e)
low_bit n (suc zero) e = omega (arith, e)
low_bit n (suc (suc r)) e = absurd (omega (arith, e))

-- Every bit of a number is its own.
bit_and_self : (w n : ℕ) → n < 2 ^ w → bit_and w n n ≡ n
unfolding bit_and
bit_and_self zero n h = omega arith
bit_and_self (suc w) n h = rw (bit_and_self w (n / 2) (half_lt w n h)) (low_bit n (n % 2) refl)

-- A number that shares no bit with its predecessor is a power of two.
pub bit_and-power :
    (w n : ℕ) → n < 2 ^ w → 0 < n → bit_and w n (n - 1) ≡ 0 → n ≡ 2 ^ trailing_zeros w n
unfolding bit_and trailing_zeros
bit_and-power zero n h p e = absurd (omega arith)
bit_and-power (suc w) n h p e = elim (Bool-cases (n % 2 == 1)) [
  | inl odd ↦
      let down : (n - 1) / 2 ≡ n / 2 = ground arith in
      let low : (n - 1) % 2 ≡ 0 = ground arith in
      let own = bit_and_self w (n / 2) (half_lt w n h) in
      let none_left : n % 2 * 0 + 2 * (n / 2) ≡ 0 =
        ap (λ (x : ℕ). n % 2 * x + 2 * (n / 2)) (sym low)
        ∙ ap (λ (x : ℕ). n % 2 * ((n - 1) % 2) + 2 * x) (sym own)
        ∙ ap (λ (x : ℕ). n % 2 * ((n - 1) % 2) + 2 * bit_and w (n / 2) x) (sym down)
        ∙ e in
      rw odd (omega (arith, p, none_left))
  | inr even ↦
      let down : (n - 1) / 2 ≡ n / 2 - 1 = ground arith in
      let left : bit_and w (n / 2) (n / 2 - 1) ≡ 0 =
        ap (bit_and w (n / 2)) (sym down) ∙ omega (arith, e) in
      let half = bit_and-power w (n / 2) (half_lt w n h) (ground (arith, p, even)) left in
      rw even (ground (arith, half, even, pow-suc 2 (trailing_zeros w (n / 2))))
]
