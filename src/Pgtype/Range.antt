-- ===== src/Pgtype/Range.antt =====
-- pgtype/range.go and pgtype/range_codec.go: ranges in the binary format. The codec of the elements
-- is a parameter.
pub mod RoundTrip
use solo_coder.Common.{
  ℕ, ◌+◌, ◌/◌, ◌%◌, Bool, true, false, not, ◌&&◌, Option, none, some, List, [], ◌∷◌, ◌++◌, ltb,
  ◌==◌, if◌then◌else◌, length, take, drop,
}
use solo_coder.Common.Int.{negsuc}
use solo_coder.Pgio.{append_int32}
use solo_coder.Pgio.Laws.{from_be32}
use solo_coder.Pgtype.Sizes.{set_length}
use solo_coder.Pgtype.Plan.{◌>>=◌, message, Answer, refused, given}

-- A `BoundType`: the four that there are, and any other byte.
pub data BoundType : Type 0 where
  inclusive exclusive unbounded empty : BoundType
  unknown : ℕ → BoundType

abbrev pub is_unbounded : BoundType → Bool
is_unbounded unbounded = true
is_unbounded t = false

abbrev pub empty_mask : ℕ
empty_mask = 1

abbrev pub lower_inclusive_mask : ℕ
lower_inclusive_mask = 2

abbrev pub upper_inclusive_mask : ℕ
upper_inclusive_mask = 4

abbrev pub lower_unbounded_mask : ℕ
lower_unbounded_mask = 8

abbrev pub upper_unbounded_mask : ℕ
upper_unbounded_mask = 16

-- `t & mask > 0` and `t | mask`, for a mask of one bit.
abbrev pub has_bit : ℕ → ℕ → Bool
has_bit t mask = t / mask % 2 == 1

abbrev pub set_bit : ℕ → ℕ → ℕ
set_bit t mask = if has_bit t mask then t else t + mask

-- `untypedBinaryRange`: a bound that was not read is the nil slice, `none`.
pub record UntypedBinaryRange : Type 0 where
  pub lower : Option (List ℕ)
  pub upper : Option (List ℕ)
  pub lower_type : BoundType
  pub upper_type : BoundType

abbrev pub untyped : Option (List ℕ) → Option (List ℕ) → BoundType → BoundType → UntypedBinaryRange
untyped l u lt ut = record { lower = l; upper = u; lower_type = lt; upper_type = ut }

-- The two switches on the first byte.
unfoldable pub lower_type_of : ℕ → BoundType
lower_type_of t =
    if has_bit t lower_inclusive_mask
    then inclusive
    else if has_bit t lower_unbounded_mask
    then unbounded
    else exclusive

unfoldable pub upper_type_of : ℕ → BoundType
upper_type_of t =
    if has_bit t upper_inclusive_mask
    then inclusive
    else if has_bit t upper_unbounded_mask
    then unbounded
    else exclusive

-- `if len(src[rp:]) > 0 { return an error }`.
unfoldable pub no_trailing : List ℕ → UntypedBinaryRange → Answer UntypedBinaryRange
no_trailing [] r = given r
no_trailing (b ∷ rest) r = refused (message "unexpected trailing bytes parsing range")

-- A bound behind its length: an `int` of 64 bits, so that no length is negative.
unfoldable pub read_bound : List ℕ → Answer (List ℕ × List ℕ)
read_bound (a ∷ b ∷ c ∷ d ∷ rest) =
    let value_len = from_be32 a b c d in
    if ltb (length rest) value_len
    then refused (message "range bound length exceeds remaining bytes")
    else given (take value_len rest, drop value_len rest)
read_bound _ = refused (message "too few bytes for size")

-- Behind the lower bound.
unfoldable pub parse_upper : BoundType → BoundType → List ℕ → List ℕ → Answer UntypedBinaryRange
parse_upper lt ut val rest =
    if is_unbounded ut
    then no_trailing rest (untyped (some val) none lt ut)
    else read_bound rest >>= (λ r. no_trailing r.1 (untyped (some val) (some r.0) lt ut))

-- Behind the first bound that there is.
unfoldable pub parse_first : BoundType → BoundType → List ℕ → List ℕ → Answer UntypedBinaryRange
parse_first lt ut val rest =
    if not (is_unbounded lt)
    then parse_upper lt ut val rest
    else no_trailing rest (untyped none (some val) lt ut)

-- Behind the types of the bounds.
unfoldable pub parse_bounds : BoundType → BoundType → List ℕ → Answer UntypedBinaryRange
parse_bounds lt ut rest =
    if is_unbounded lt && is_unbounded ut
    then no_trailing rest (untyped none none lt ut)
    else read_bound rest >>= (λ r. parse_first lt ut r.0 r.1)

-- `parseUntypedBinaryRange`.
unfoldable pub parse_untyped_binary_range : List ℕ → Answer UntypedBinaryRange
parse_untyped_binary_range [] = refused (message "range too short")
parse_untyped_binary_range (t ∷ rest) =
    if has_bit t empty_mask
    then no_trailing rest (untyped none none empty empty)
    else parse_bounds (lower_type_of t) (upper_type_of t) rest

-- What a RangeValuer gives: a bound that is nil is `none`.
pub record RangeValue {ℓ} (T : Type ℓ) : Type ℓ where
  pub is_null : Bool
  pub lower_bound : Option T
  pub upper_bound : Option T
  pub lower_bound_type : BoundType
  pub upper_bound_type : BoundType

-- The first two switches: the byte of the range.
unfoldable pub lower_mask : BoundType → Answer ℕ
lower_mask inclusive = given (set_bit 0 lower_inclusive_mask)
lower_mask unbounded = given (set_bit 0 lower_unbounded_mask)
lower_mask exclusive = given 0
lower_mask empty = given 0
lower_mask (unknown b) = refused (message "unknown LowerType")

unfoldable pub upper_mask : ℕ → BoundType → Answer ℕ
upper_mask t inclusive = given (set_bit t upper_inclusive_mask)
upper_mask t unbounded = given (set_bit t upper_unbounded_mask)
upper_mask t exclusive = given t
upper_mask t empty = refused (message "unknown UpperType")
upper_mask t (unknown b) = refused (message "unknown UpperType")

module _ {ℓ} {T : Type ℓ} (encode_element : T → List ℕ → Answer (Option (List ℕ))) where
  -- A nil buffer is a NULL element, else its length is set.
  unfoldable pub set_size : ℕ → Option (List ℕ) → Answer (List ℕ)
  set_size sp none = refused (message "bound cannot be NULL unless its type is Unbounded")
  set_size sp (some buf) = given (set_length sp buf)

  -- The part for a bound.
  unfoldable pub append_bound : BoundType → Option T → List ℕ → Answer (List ℕ)
  append_bound unbounded v buf = given buf
  append_bound t none buf = refused (message "bound cannot be NULL unless its type is Unbounded")
  append_bound t (some v) buf =
      encode_element v (append_int32 buf (negsuc 0)) >>= set_size (length buf)

  -- Behind the tests for NULL and for an empty range.
  unfoldable pub encode_bounds : RangeValue T → List ℕ → Answer (Option (List ℕ))
  encode_bounds r buf = do
    lower ← lower_mask r.lower_bound_type
    t ← upper_mask lower r.upper_bound_type
    buf1 ← append_bound r.lower_bound_type r.lower_bound (buf ++ (t ∷ []))
    buf2 ← append_bound r.upper_bound_type r.upper_bound buf1
    given (some buf2)

  unfoldable pub encode_typed : BoundType → RangeValue T → List ℕ → Answer (Option (List ℕ))
  encode_typed empty r buf = given (some (buf ++ (empty_mask ∷ [])))
  encode_typed t r buf = encode_bounds r buf

  -- `encodePlanRangeCodecRangeValuerToBinary.Encode`.
  unfoldable pub encode_range : RangeValue T → List ℕ → Answer (Option (List ℕ))
  encode_range r buf = if r.is_null then given none else encode_typed r.lower_bound_type r buf
