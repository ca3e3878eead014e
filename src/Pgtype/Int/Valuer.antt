-- ===== src/Pgtype/Int/Valuer.antt =====
-- pgtype/int.go: the values that an Int64Valuer gives and an Int64Scanner takes.
use solo_coder.Pgtype.Int.TextRoundTrip.{signed_in_range}
use solo_coder.Common.{
  ℕ, ◌≡◌, refl, ◌⊎◌, inl, inr, true, false, none, some, List, arith, Bool-cases,
}
use solo_coder.Common.Int.{ℤ, pos, negsuc}
use solo_coder.Pgtype.Int.{narrow, narrow_nullable, encode_nullable, encode_valuer}
use solo_coder.Pgtype.Integers.{Width, ltb_int, min_int, max_int}
use solo_coder.Pgtype.Integers.Laws.{IsInt, convert-IsInt}
use solo_coder.Pgtype.Plan.{
  greater_than_maximum, less_than_minimum, Nullable, null_number, valid_number, CodecError, refused,
  given, valuer,
}

too_low : (w : Width) (n : ℤ) → ltb_int n (min_int w) ≡ true → ¬ IsInt w n
too_low w (pos n) low h = absurd (cc low)
too_low w (negsuc n) low h = absurd (ground (arith, low, h))

too_high : (w : Width) (n : ℤ) → ltb_int (max_int w) n ≡ true → ¬ IsInt w n
too_high w (pos n) high h = absurd (ground (arith, high, h))
too_high w (negsuc n) high h = absurd (cc high)

low_not_high : (w : Width) (n : ℤ) → ltb_int n (min_int w) ≡ true → ltb_int (max_int w) n ≡ false
low_not_high w (pos n) low = absurd (cc low)
low_not_high w (negsuc n) low = refl

-- For each size and every int64 that an Int64Valuer gives, valid or NULL: it is encoded, in the
-- format whose appending function is given, exactly where ScanInt64 takes it, and both refuse it
-- elsewhere; NULL is encoded as nil and scanned as NULL; what ScanInt64 stores is the value.
pub encode_valuer-narrow :
    (w : Width) (append : List ℕ → ℤ → List ℕ) (n : Nullable) (buf : List ℕ)
    → ((n.valid ≡ false)
        × (encode_valuer w append (valuer (given n)) buf ≡ given none)
        × (narrow_nullable w n ≡ given null_number))
      ⊎ ((n.valid ≡ true)
          × IsInt w n.number
          × (encode_valuer w append (valuer (given n)) buf ≡ given (some (append buf n.number)))
          × (narrow_nullable w n ≡ given (valid_number n.number)))
      ⊎ ((n.valid ≡ true)
          × (¬ IsInt w n.number)
          × ((e : CodecError) × (encode_valuer w append (valuer (given n)) buf ≡ refused e)
              × (narrow_nullable w n ≡ refused e)))
unfolding encode_valuer encode_nullable narrow_nullable narrow
encode_valuer-narrow w append n buf = elim (Bool-cases n.valid) [
  | inr null_ ↦ inl (null_, rw null_ refl, rw null_ refl)
  | inl valid_ ↦ elim (Bool-cases (ltb_int n.number (min_int w))) [
    | inl low ↦
        let not_high = low_not_high w n.number low in
        inr (
          inr (
            valid_,
            too_low w n.number low,
            (less_than_minimum n.number, rw (valid_, not_high, low) refl, rw (valid_, low) refl),
          ))
    | inr not_low ↦ elim (Bool-cases (ltb_int (max_int w) n.number)) [
      | inl high ↦ inr (
          inr (
            valid_,
            too_high w n.number high,
            (
              greater_than_maximum n.number,
              rw (valid_, high) refl,
              rw (valid_, not_low, high) refl,
            ),
          ))
      | inr not_high ↦
          let fits = signed_in_range w n.number not_low not_high in
          inr (
            inl (
              valid_,
              fits,
              rw (valid_, not_high, not_low) refl,
              rw (valid_, not_low, not_high, convert-IsInt w n.number fits) refl,
            ))
    ]
  ]
]
