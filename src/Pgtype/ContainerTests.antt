-- ===== src/Pgtype/ContainerTests.antt =====
-- pgtype/range.go and pgtype/array.go on concrete elements of one byte.
use solo_coder.Common.{
  ◌^◌, map, ◌%◌, false, ◌⊎◌, ◌<◌, ℕ, ◌≤◌, ◌≡◌, refl, Option, none, some, List, [], ◌∷◌, ◌++◌, arith,
}
use solo_coder.Common.Int.{ℤ, pos, negsuc}
use solo_coder.Pgtype.Array.{
  ArrayDimension, wrap_times, multiply_dimensions, clip, cardinality, allocate, decode_array,
  encode_array,
}
use solo_coder.Pgtype.Array.Cardinality.{dimension, product, cardinality-product}
use solo_coder.Pgtype.Array.Header.{header_of}
use solo_coder.Pgtype.Array.RoundTrip.{AppendsItems, array_round_trip}
use solo_coder.Pgtype.Plan.{Answer, given}
use solo_coder.Pgtype.Range.{
  inclusive, unbounded, untyped, parse_untyped_binary_range, encode_range,
}
use solo_coder.Pgtype.Range.RoundTrip.{Appends, ranged, range_round_trip}

encode_byte : ℕ → List ℕ → Answer (Option (List ℕ))
encode_byte v buf = given (some (buf ++ (v ∷ [])))

encode_byte-Appends : Appends encode_byte (λ v. v ∷ [])
unfolding encode_byte
encode_byte-Appends v buf = (refl, omega arith)

encode_nullable_byte : Option ℕ → List ℕ → Answer (Option (List ℕ))
encode_nullable_byte none buf = given none
encode_nullable_byte (some v) buf = given (some (buf ++ (v ∷ [])))

abbrev byte_item : Option ℕ → Option (List ℕ)
byte_item none = none
byte_item (some v) = some (v ∷ [])

encode_nullable_byte-AppendsItems : AppendsItems encode_nullable_byte byte_item
unfolding encode_nullable_byte
encode_nullable_byte-AppendsItems none buf = (refl, tt)
encode_nullable_byte-AppendsItems (some v) buf = (refl, omega arith)

range_round_trip_example :
    (s : List ℕ) × (encode_range encode_byte
        (ranged encode_byte (λ v. v ∷ []) inclusive unbounded (some 7) none)
        (9 ∷ [])
      ≡ given (some ((9 ∷ []) ++ s)))
    × (parse_untyped_binary_range s ≡ given (untyped (some (7 ∷ [])) none inclusive unbounded))
range_round_trip_example =
    range_round_trip encode_byte (λ v. v ∷ []) encode_byte-Appends inclusive unbounded (some 7) none
      (9 ∷ []) tt tt

-- Two rows of one.
abbrev rows : List ArrayDimension
rows =
    record { length_of = pos 2; lower_bound = pos 1 }
    ∷ record { length_of = pos 1; lower_bound = negsuc 0 }
    ∷ []

array_round_trip_example :
    (s : List ℕ) × (encode_array encode_nullable_byte 18 (some rows) (some 5 ∷ none ∷ []) (9 ∷ [])
      ≡ given (some ((9 ∷ []) ++ s)))
    × (decode_array s ≡ given (rows, some (5 ∷ []) ∷ none ∷ []))
unfolding cardinality multiply_dimensions wrap_times clip
array_round_trip_example =
    array_round_trip encode_nullable_byte byte_item encode_nullable_byte-AppendsItems 18 rows
      (some 5 ∷ none ∷ []) (9 ∷ []) (omega arith) (omega arith)
      ((omega arith, omega arith), ((omega arith, omega arith), tt)) refl

abbrev two_lengths : List ℕ
two_lengths = 255 ∷ 255 ∷ 255 ∷ 255 ∷ 255 ∷ 255 ∷ 255 ∷ 255 ∷ []

abbrev huge : List (ℕ × ℤ)
huge = (65536, pos 1) ∷ (65536, pos 1) ∷ (65536, pos 1) ∷ []

-- Four dimensions of 65536 elements.
cardinality-product_example :
    ((product ((65536, pos 1) ∷ huge) % 2 ^ 64 < 2 ^ 63)
      × (cardinality (map dimension ((65536, pos 1) ∷ huge))
          ≡ product ((65536, pos 1) ∷ huge) % 2 ^ 64))
    ⊎ ((2 ^ 63 ≤ product ((65536, pos 1) ∷ huge) % 2 ^ 64)
        × (cardinality (map dimension ((65536, pos 1) ∷ huge)) ≡ 0))
cardinality-product_example = cardinality-product (65536, pos 1) huge (omega arith)

-- They count as none, and no bytes are asked for.
huge_passes :
    allocate (header_of false 18 (map dimension ((65536, pos 1) ∷ huge))) []
    ≡ given (map dimension ((65536, pos 1) ∷ huge))
unfolding allocate cardinality multiply_dimensions wrap_times clip
huge_passes = refl
