-- ===== src/Pgtype/Array/Header.antt =====
-- pgtype/array.go: the header of an array is read as the one that was written.
use solo_coder.Common.{
  length-append, ◌*◌, ltb, ap, ◌==◌, ◌≤◌, ◌∙◌, ℕ, ◌^◌, ◌<◌, ◌≡◌, refl, Bool, true, false, List, [],
  ◌∷◌, ◌++◌, append_assoc, arith, if◌then◌else◌, length, All,
}
use solo_coder.Common.Int.{pos}
use solo_coder.Pgio.{uint32_of}
use solo_coder.Pgio.Laws.{
  be32, from_be32-be32, append_uint32-be32, append_int32-be32, uint32_of_lt, IsInt32,
  int32_of-uint32_of,
}
use solo_coder.Pgproto3.Read.Laws.{length-flat, flat, foldl-flat}
use solo_coder.Pgtype.Plan.{given}
use solo_coder.Pgtype.Array.{
  decode_binary, ArrayDimension, ArrayHeader, read_dimensions, append_dimension, encode_binary,
}

unfoldable pub dimension_bytes : ArrayDimension → List ℕ
dimension_bytes d = be32 (uint32_of d.length_of) ++ be32 (uint32_of d.lower_bound)

-- A dimension of int32 numbers.
abbrev pub IsDimension : ArrayDimension → Type 0
IsDimension d = IsInt32 d.length_of × IsInt32 d.lower_bound

-- The bytes of a header, with the flag as a number.
unfoldable pub header_bytes : ℕ → ℕ → ℕ → List ArrayDimension → List ℕ
header_bytes count flag oid ds = be32 count ++ (be32 flag ++ (be32 oid ++ flat dimension_bytes ds))

append_dimension-bytes :
    (buf : List ℕ) (d : ArrayDimension) → append_dimension buf d ≡ buf ++ dimension_bytes d
unfolding append_dimension dimension_bytes
append_dimension-bytes buf d =
    rw
      (
        append_int32-be32 buf d.length_of,
        append_int32-be32 (buf ++ be32 (uint32_of d.length_of)) d.lower_bound,
        append_assoc buf (be32 (uint32_of d.length_of)) (be32 (uint32_of d.lower_bound)),
      )
      refl

abbrev pub flag_of : Bool → ℕ
flag_of true = 1
flag_of false = 0

uint32_of_flag : (b : Bool) → uint32_of (if b then pos 1 else pos 0) ≡ flag_of b
unfolding uint32_of
uint32_of_flag true = refl
uint32_of_flag false = refl

uint32_of_small : (n : ℕ) → n < 2 ^ 32 → uint32_of (pos n) ≡ n
unfolding uint32_of
uint32_of_small n h = omega (arith, h)

pub encode_binary-bytes :
    (h : ArrayHeader) (buf : List ℕ)
    → length h.dimensions < 2 ^ 32
    → encode_binary h buf
      ≡ buf
        ++ header_bytes (length h.dimensions) (flag_of h.contains_null) h.element_oid h.dimensions
unfolding encode_binary header_bytes
encode_binary-bytes h buf fits =
    let count = be32 (length h.dimensions) in
    let flag = be32 (flag_of h.contains_null) in
    let oid = be32 h.element_oid in
    let dims = flat dimension_bytes h.dimensions in
    rw
      (
        append_int32-be32 buf (pos (length h.dimensions)),
        append_int32-be32 _ (if h.contains_null then pos 1 else pos 0),
        append_uint32-be32 _ h.element_oid,
        foldl-flat append_dimension dimension_bytes append_dimension-bytes _ h.dimensions,
        uint32_of_flag h.contains_null,
        uint32_of_small (length h.dimensions) fits,
      )
      (append_assoc ((buf ++ count) ++ flag) oid dims
        ∙ append_assoc (buf ++ count) flag (oid ++ dims)
        ∙ append_assoc buf count (flag ++ (oid ++ dims)))

read_dimensions-flat :
    (ds : List ArrayDimension) (rest : List ℕ)
    → All IsDimension ds
    → read_dimensions (length ds) (flat dimension_bytes ds ++ rest) ≡ (ds, rest)
unfolding read_dimensions flat dimension_bytes be32
read_dimensions-flat [] rest h = refl
read_dimensions-flat (d ∷ ds) rest ((hl, hb), hs) =
    rw
      (
        from_be32-be32 (uint32_of d.length_of) (uint32_of_lt d.length_of),
        from_be32-be32 (uint32_of d.lower_bound) (uint32_of_lt d.lower_bound),
        int32_of-uint32_of d.length_of hl,
        int32_of-uint32_of d.lower_bound hb,
        read_dimensions-flat ds rest hs,
      )
      refl

length-dimension_bytes : (d : ArrayDimension) → length (dimension_bytes d) ≡ 8
unfolding dimension_bytes be32
length-dimension_bytes d = refl

abbrev pub header_of : Bool → ℕ → List ArrayDimension → ArrayHeader
header_of b oid ds = record { contains_null = b; element_oid = oid; dimensions = ds }

pub decode_binary-bytes :
    (flag oid : ℕ) (ds : List ArrayDimension) (rest : List ℕ)
    → flag < 2 ^ 32
    → oid < 2 ^ 32
    → length ds ≤ 6
    → All IsDimension ds
    → decode_binary (header_bytes (length ds) flag oid ds ++ rest)
      ≡ given (header_of (flag == 1) oid ds, rest)
unfolding decode_binary header_bytes be32
decode_binary-bytes flag oid ds rest hf ho few hs =
    let some_dims : ltb 6 (length ds) ≡ false = ground (arith, few) in
    let all_there : ltb (length (flat dimension_bytes ds ++ rest)) (length ds * 8) ≡ false =
      ground (
        arith,
        length-append (flat dimension_bytes ds) rest,
        length-flat dimension_bytes 8 length-dimension_bytes ds,
      ) in
    rw
      (
        from_be32-be32 (length ds) (omega (arith, few)),
        from_be32-be32 flag hf,
        from_be32-be32 oid ho,
        read_dimensions-flat ds rest hs,
        some_dims,
        all_there,
      )
      refl

-- For every header of at most six dimensions with int32 numbers and an OID of 32 bits, and every
-- bytes behind it: what EncodeBinary appends to the buffer is read by DecodeBinary as the same
-- header, up to the bytes behind it.
pub header_round_trip :
    (h : ArrayHeader) (buf rest : List ℕ)
    → h.element_oid < 2 ^ 32
    → length h.dimensions ≤ 6
    → All IsDimension h.dimensions
    → (s : List ℕ) × (encode_binary h buf ≡ buf ++ s)
      × (decode_binary (s ++ rest) ≡ given (h, rest))
header_round_trip h buf rest oid few dims = (
  header_bytes (length h.dimensions) (flag_of h.contains_null) h.element_oid h.dimensions,
  encode_binary-bytes h buf (omega (arith, few)),
  decode_binary-bytes (flag_of h.contains_null) h.element_oid h.dimensions rest
        (flag_lt h.contains_null) oid few dims
      ∙ ap (λ b. given (header_of b h.element_oid h.dimensions, rest)) (flag_is h.contains_null),
)
  where
    flag_lt : (b : Bool) → flag_of b < 2 ^ 32
    flag_lt true = omega arith
    flag_lt false = omega arith

    flag_is : (b : Bool) → (flag_of b == 1) ≡ b
    flag_is true = refl
    flag_is false = refl
