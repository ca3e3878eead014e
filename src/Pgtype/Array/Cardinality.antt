-- ===== src/Pgtype/Array/Cardinality.antt =====
-- pgtype/array.go: the number of elements of an array, and how it wraps round.
use native.Mathlib.Nat.{mul_assoc}
use solo_coder.Common.{
  ℕ, suc, ◌+◌, ◌-◌, ◌*◌, ◌/◌, ◌%◌, ◌^◌, ◌≤◌, ◌<◌, ◌≡◌, refl, sym, ap, ◌∙◌, ◌⊎◌, inl, inr, true,
  List, [], ◌∷◌, arith, ltb, map, Bool-cases,
}
use solo_coder.Common.Int.{ℤ, pos}
use solo_coder.Pgtype.Integers.{w64, to_signed}
use solo_coder.Pgtype.Array.{ArrayDimension, wrap_times, multiply_dimensions, clip, cardinality}

-- A dimension with a length that is not negative, and a lower bound.
abbrev pub dimension : ℕ × ℤ → ArrayDimension
dimension p = record { length_of = pos p.0; lower_bound = p.1 }

unfoldable pub product : List (ℕ × ℤ) → ℕ
product [] = 1
product (p ∷ ps) = p.0 * product ps

complement : (c z k : ℕ) → c + z ≡ 2 ^ 64 * k → (2 ^ 64 - z % 2 ^ 64) % 2 ^ 64 ≡ c % 2 ^ 64
complement c z k h = omega (arith, h)

add_times : (a b l : ℕ) → (a + b) * l ≡ a * l + b * l
add_times a b l = grind arith

wrap_times-to_signed :
    (y b : ℕ) → y < 2 ^ 64 → wrap_times (to_signed w64 y) (pos b) ≡ to_signed w64 (y * b % 2 ^ 64)
unfolding wrap_times
wrap_times-to_signed y b h = elim (Bool-cases (ltb y (2 ^ 63))) [
  | inl low ↦ rw low refl
  | inr high ↦
      let z = suc (2 ^ 64 - 1 - y) in
      let whole : y + z ≡ 2 ^ 64 = ground (arith, h) in
      let parts = add_times y z b in
      let all = ap (λ (n : ℕ). n * b) whole in
      rw high (ap (to_signed w64) (complement (y * b) (z * b) b (omega (arith, parts, all))))
]

mod-mul : (x l : ℕ) → (x % 2 ^ 64 * l) % 2 ^ 64 ≡ (x * l) % 2 ^ 64
mod-mul x l =
    let whole : 2 ^ 64 * (x / 2 ^ 64) + x % 2 ^ 64 ≡ x = omega arith in
    let parts = add_times (2 ^ 64 * (x / 2 ^ 64)) (x % 2 ^ 64) l in
    let first = mul_assoc (2 ^ 64) (x / 2 ^ 64) l in
    let all = ap (λ (n : ℕ). n * l) whole in omega (arith, parts, first, all)

multiply_dimensions-product :
    (x : ℕ) (ps : List (ℕ × ℤ))
    → multiply_dimensions (to_signed w64 (x % 2 ^ 64)) (map dimension ps)
      ≡ to_signed w64 (x * product ps % 2 ^ 64)
unfolding multiply_dimensions product
multiply_dimensions-product x [] = ap (λ n. to_signed w64 (n % 2 ^ 64)) (omega arith)
multiply_dimensions-product x (p ∷ ps) =
    let step = wrap_times-to_signed (x % 2 ^ 64) p.0 (omega arith) in
    ap (λ z. multiply_dimensions z (map dimension ps)) (step ∙ ap (to_signed w64) (mod-mul x p.0))
    ∙ multiply_dimensions-product (x * p.0) ps
    ∙ ap (λ n. to_signed w64 (n % 2 ^ 64)) (mul_assoc x p.0 (product ps))

-- For every dimensions, at least one, whose lengths are not negative and the first below 2^31, as
-- every int32 is: where their exact product modulo 2^64 is below 2^63, that is the number of elements
-- which the code counts, and where it is not, the code counts none. So a product below 2^63 is
-- counted as it is, and a product of 2^64 as 0.
pub cardinality-product :
    (p : ℕ × ℤ) (ps : List (ℕ × ℤ))
    → p.0 < 2 ^ 31
    → ((product (p ∷ ps) % 2 ^ 64 < 2 ^ 63)
        × (cardinality (map dimension (p ∷ ps)) ≡ product (p ∷ ps) % 2 ^ 64))
      ⊎ ((2 ^ 63 ≤ product (p ∷ ps) % 2 ^ 64) × (cardinality (map dimension (p ∷ ps)) ≡ 0))
unfolding cardinality product clip
cardinality-product p ps h =
    let n = p.0 * product ps % 2 ^ 64 in
    let less : p.0 % 2 ^ 64 ≡ p.0 = omega (arith, h) in
    let low : ltb (p.0 % 2 ^ 64) (2 ^ 63) ≡ true = ground (arith, h) in
    let first : to_signed w64 (p.0 % 2 ^ 64) ≡ pos p.0 = rw low (ap pos less) in
    let counted = ap clip (
      ap (λ x. multiply_dimensions x (map dimension ps)) (sym first)
      ∙ multiply_dimensions-product p.0 ps) in
    elim (Bool-cases (ltb n (2 ^ 63))) [
      | inl fits ↦ inl (ground (arith, fits), counted ∙ rw fits refl)
      | inr wraps ↦ inr (ground (arith, wraps), counted ∙ rw wraps refl)
    ]
