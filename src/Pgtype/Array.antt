-- ===== src/Pgtype/Array.antt =====
-- pgtype/array.go and pgtype/array_codec.go: arrays in the binary format. The codec of the elements
-- is a parameter.
pub mod Header
pub mod Bounds
pub mod Cardinality
pub mod RoundTrip
use mathlib.Core.List.{foldl}
use solo_coder.Common.{
  take, drop, zero, none, ◌+◌, false, ◌/◌, some, Option, ℕ, suc, ◌-◌, ◌*◌, ◌%◌, ◌^◌, Bool, List, [],
  ◌∷◌, ltb, ◌==◌, if◌then◌else◌, length,
}
use solo_coder.Common.Int.{ℤ, pos, negsuc}
use solo_coder.Pgio.{set_int32, int32_of, append_uint32, append_int32}
use solo_coder.Pgio.Laws.{from_be32}
use solo_coder.Pgtype.Integers.{w64, to_signed}
use solo_coder.Pgtype.Sizes.{set_length}
use solo_coder.Pgtype.Plan.{◌>>=◌, message, Answer, refused, given}

pub record ArrayDimension : Type 0 where
  pub length_of : ℤ
  pub lower_bound : ℤ

pub record ArrayHeader : Type 0 where
  pub contains_null : Bool
  pub element_oid : ℕ
  pub dimensions : List ArrayDimension

-- A product of Go's `int`s, which wraps round at 64 bits.
unfoldable pub wrap_times : ℤ → ℤ → ℤ
wrap_times (pos a) (pos b) = to_signed w64 (a * b % 2 ^ 64)
wrap_times (pos a) (negsuc b) = to_signed w64 ((2 ^ 64 - a * suc b % 2 ^ 64) % 2 ^ 64)
wrap_times (negsuc a) (pos b) = to_signed w64 ((2 ^ 64 - suc a * b % 2 ^ 64) % 2 ^ 64)
wrap_times (negsuc a) (negsuc b) = to_signed w64 (suc a * suc b % 2 ^ 64)

unfoldable pub multiply_dimensions : ℤ → List ArrayDimension → ℤ
multiply_dimensions n [] = n
multiply_dimensions n (d ∷ ds) = multiply_dimensions (wrap_times n d.length_of) ds

-- `cardinality`: a negative product counts as 0.
unfoldable pub clip : ℤ → ℕ
clip (pos n) = n
clip (negsuc n) = 0

unfoldable pub cardinality : List ArrayDimension → ℕ
cardinality [] = 0
cardinality (d ∷ ds) = clip (multiply_dimensions d.length_of ds)

-- `int32(binary.BigEndian.Uint32(src[rp:]))` of both numbers of a dimension, behind the test of the
-- length: the bytes of all dimensions are there.
unfoldable pub read_dimensions : ℕ → List ℕ → List ArrayDimension × List ℕ
read_dimensions (suc n) (a ∷ b ∷ c ∷ d ∷ e ∷ f ∷ g ∷ h ∷ rest) =
    let (ds, rest') = read_dimensions n rest in
    (
      record {
        length_of = int32_of (from_be32 a b c d);
        lower_bound = int32_of (from_be32 e f g h);
      }
          ∷ ds,
      rest',
    )
read_dimensions n rest = ([], rest)

-- `arrayHeader.DecodeBinary`: the header, and the bytes behind it.
unfoldable pub decode_binary : List ℕ → Answer (ArrayHeader × List ℕ)
decode_binary (a ∷ b ∷ c ∷ d ∷ e ∷ f ∷ g ∷ h ∷ i ∷ j ∷ k ∷ l ∷ rest) =
    let num_dims = from_be32 a b c d in
    let (ds, rest') = read_dimensions num_dims rest in
    if ltb 6 num_dims
    then refused (message "array has too many dimensions")
    else if ltb (length rest) (num_dims * 8)
    then refused (message "array header too short for its dimensions")
    else given (
      record {
        contains_null = from_be32 e f g h == 1;
        element_oid = from_be32 i j k l;
        dimensions = ds;
      },
      rest',
    )
decode_binary _ = refused (message "array header too short")

unfoldable pub append_dimension : List ℕ → ArrayDimension → List ℕ
append_dimension buf d = append_int32 (append_int32 buf d.length_of) d.lower_bound

-- `arrayHeader.EncodeBinary`.
unfoldable pub encode_binary : ArrayHeader → List ℕ → List ℕ
encode_binary h buf =
    let contains_null = if h.contains_null then pos 1 else pos 0 in
    let buf = append_int32 buf (pos (length h.dimensions)) in
    let buf = append_int32 buf contains_null in
    let buf = append_uint32 buf h.element_oid in foldl append_dimension buf h.dimensions

-- One round of the loop of `decodeBinary`: the bytes that the element is scanned from, `none` for
-- NULL.
unfoldable pub take_element : ℤ → List ℕ → Answer (Option (List ℕ) × List ℕ)
take_element (pos n) rest =
    if ltb (length rest) n
    then refused (message "array element length exceeds remaining bytes")
    else given (some (take n rest), drop n rest)
take_element (negsuc n) rest = given (none, rest)

unfoldable pub read_element : List ℕ → Answer (Option (List ℕ) × List ℕ)
read_element (a ∷ b ∷ c ∷ d ∷ rest) = take_element (int32_of (from_be32 a b c d)) rest
read_element _ = refused (message "array body truncated")

unfoldable pub read_elements : ℕ → List ℕ → Answer (List (Option (List ℕ)))
read_elements zero rest = given []
read_elements (suc n) rest = do
  (e, rest') ← read_element rest
  es ← read_elements n rest'
  given (e ∷ es)

-- Behind the header, up to `array.SetDimensions`: the dimensions that it allocates the elements for.
unfoldable pub allocate : ArrayHeader → List ℕ → Answer (List ArrayDimension)
allocate header rest =
    if ltb (length rest / 4) (cardinality header.dimensions)
    then refused (message "array claims more elements than bytes remain")
    else given header.dimensions

-- Behind the header.
unfoldable pub decode_body :
    ArrayHeader → List ℕ → Answer (List ArrayDimension × List (Option (List ℕ)))
decode_body header rest = do
  ds ← allocate header rest
  es ← read_elements (cardinality header.dimensions) rest
  given (ds, es)

-- `ArrayCodec.decodeBinary`: the dimensions, and what each element is scanned from.
unfoldable pub decode_array : List ℕ → Answer (List ArrayDimension × List (Option (List ℕ)))
decode_array src = decode_binary src >>= (λ r. decode_body r.0 r.1)

module _ {ℓ} {T : Type ℓ} (encode_element : T → List ℕ → Answer (Option (List ℕ))) where
  -- One round of the loop of `encodePlanArrayCodecBinary.Encode`; the index is that of the header's
  -- flag.
  unfoldable pub finish_element : ℕ → List ℕ → Option (List ℕ) → List ℕ
  finish_element contains_null_index buf none =
      set_int32 (append_int32 buf (negsuc 0)) contains_null_index (pos 1)
  finish_element contains_null_index buf (some elem_buf) = set_length (length buf) elem_buf

  unfoldable pub encode_elements : ℕ → List T → List ℕ → Answer (List ℕ)
  encode_elements contains_null_index [] buf = given buf
  encode_elements contains_null_index (v ∷ vs) buf = do
    elem_buf ← encode_element v (append_int32 buf (negsuc 0))
    encode_elements contains_null_index vs (finish_element contains_null_index buf elem_buf)

  -- `encodePlanArrayCodecBinary.Encode`: the dimensions, where `none` is nil, and the elements, as
  -- many as the dimensions have.
  unfoldable pub encode_array :
      ℕ → Option (List ArrayDimension) → List T → List ℕ → Answer (Option (List ℕ))
  encode_array oid none vs buf = given none
  encode_array oid (some ds) vs buf =
      let header : ArrayHeader = record {
        contains_null = false;
        element_oid = oid;
        dimensions = ds;
      } in
      encode_elements (length buf + 4) vs (encode_binary header buf) >>= (λ buf. given (some buf))
