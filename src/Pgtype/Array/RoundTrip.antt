-- ===== src/Pgtype/Array/RoundTrip.antt =====
-- pgtype/array_codec.go: the elements of an array are read as the ones that were written.
use solo_coder.Pgtype.Array.Header.{
  encode_binary-bytes, decode_binary-bytes, header_of, IsDimension, dimension_bytes, header_bytes,
}
use solo_coder.Pgtype.Plan.{◌>>=◌}
use solo_coder.Common.{
  ◌==◌, drop_append, take_append, ◌/◌, length-append, false, ◌+◌, ltb, arith, All, ◌≤◌, ◌^◌, ◌%◌,
  ◌<◌, ◌*◌, ℕ, ◌≡◌, refl, sym, ap, ◌∙◌, Option, none, some, List, [], ◌∷◌, ◌++◌, map, append-nil,
  append_assoc, length,
}
use solo_coder.Common.Int.{pos, negsuc}
use solo_coder.Pgio.{uint32_of, append_int32}
use solo_coder.Pgio.Laws.{
  length-be32, int32_of-uint32_of, uint32_of_lt, from_be32-be32, be32, append_int32-be32,
}
use solo_coder.Pgproto3.Read.Laws.{flat, value_bytes, IsSendable}
use solo_coder.Pgtype.Array.{
  encode_binary, cardinality, ArrayHeader, encode_array, allocate, decode_body, decode_array,
  ArrayDimension, take_element, read_element, read_elements, finish_element, encode_elements,
}
use solo_coder.Pgtype.Plan.{Answer, given}
use solo_coder.Pgtype.Sizes.{sized, set_int32-at, set_length-sized}

module _ {T : Type 0} (encode_element : T → List ℕ → Answer (Option (List ℕ)))
    (item : T → Option (List ℕ)) where
  -- What the encode plan of the elements does: nothing for NULL, else it appends the element's
  -- bytes, which are fewer than an int32 counts.
  abbrev pub appended : List ℕ → Option (List ℕ) → Option (List ℕ)
  appended buf none = none
  appended buf (some b) = some (buf ++ b)

  abbrev pub AppendsItems : Type 0
  AppendsItems =
      (v : T) (buf : List ℕ)
      → (encode_element v buf ≡ given (appended buf (item v))) × IsSendable (item v)

  -- The header's flag behind an element.
  abbrev flag_after : ℕ → Option (List ℕ) → ℕ
  flag_after flag none = 1
  flag_after flag (some b) = flag

  abbrev flags_after : ℕ → List T → ℕ
  flags_after flag [] = flag
  flags_after flag (v ∷ vs) = flags_after (flag_after flag (item v)) vs

  abbrev item_bytes : T → List ℕ
  item_bytes v = value_bytes (item v)

  finish_element-bytes :
      (front tail : List ℕ) (flag : ℕ) (e : Option (List ℕ))
      → IsSendable e
      → finish_element encode_element
          (length front)
          (front ++ (be32 flag ++ tail))
          (appended (append_int32 (front ++ (be32 flag ++ tail)) (negsuc 0)) e)
        ≡ front ++ (be32 (flag_after flag e) ++ (tail ++ value_bytes e))
  unfolding finish_element value_bytes uint32_of sized
  finish_element-bytes front tail flag none h =
      rw
        (
          append_int32-be32 (front ++ (be32 flag ++ tail)) (negsuc 0),
          append_assoc front (be32 flag ++ tail) (be32 (uint32_of (negsuc 0))),
          append_assoc (be32 flag) tail (be32 (uint32_of (negsuc 0))),
        )
        (set_int32-at front (tail ++ be32 (uint32_of (negsuc 0))) flag (pos 1))
  finish_element-bytes front tail flag (some b) h =
      let small : length b % 2 ^ 32 ≡ length b = omega (arith, h) in
      set_length-sized b (front ++ (be32 flag ++ tail)) h
      ∙ append_assoc front (be32 flag ++ tail) (sized b)
      ∙ ap (λ t. front ++ t) (append_assoc (be32 flag) tail (sized b))
      ∙ ap (λ n. front ++ (be32 flag ++ (tail ++ (be32 n ++ b)))) (sym small)

  encode_elements-bytes :
      (appends : AppendsItems) (front tail : List ℕ) (flag : ℕ) (vs : List T)
      → encode_elements encode_element (length front) vs (front ++ (be32 flag ++ tail))
        ≡ given (front ++ (be32 (flags_after flag vs) ++ (tail ++ flat item_bytes vs)))
  unfolding encode_elements flat
  encode_elements-bytes appends front tail flag [] =
      ap (λ t. given (front ++ (be32 flag ++ t))) (sym (append-nil tail))
  encode_elements-bytes appends front tail flag (v ∷ vs) =
      let buf = front ++ (be32 flag ++ tail) in
      let next : Option (List ℕ) → Answer (List ℕ) = λ e.
        encode_elements encode_element (length front) vs
          (finish_element encode_element (length front) buf e) in
      ap (λ a. a >>= next) (appends v (append_int32 buf (negsuc 0))).0
      ∙ ap (encode_elements encode_element (length front) vs)
          (finish_element-bytes front tail flag (item v) (appends v []).1)
      ∙ encode_elements-bytes appends front (tail ++ item_bytes v) (flag_after flag (item v)) vs
      ∙ ap (λ t. given (front ++ (be32 (flags_after flag (v ∷ vs)) ++ t)))
          (append_assoc tail (item_bytes v) (flat item_bytes vs))

  read_element-bytes :
      (e : Option (List ℕ)) (rest : List ℕ)
      → IsSendable e
      → read_element (value_bytes e ++ rest) ≡ given (e, rest)
  unfolding read_element take_element value_bytes be32
  read_element-bytes none rest h =
      rw
        (
          from_be32-be32 (uint32_of (negsuc 0)) (uint32_of_lt (negsuc 0)),
          int32_of-uint32_of (negsuc 0) (omega arith),
        )
        refl
  read_element-bytes (some b) rest h =
      let fits : ltb (length (b ++ rest)) (length b) ≡ false =
        ground (arith, length-append b rest) in
      rw
        (
          from_be32-be32 (uint32_of (pos (length b))) (uint32_of_lt (pos (length b))),
          int32_of-uint32_of (pos (length b)) h,
          fits,
          take_append b rest,
          drop_append b rest,
        )
        refl

  read_elements-bytes :
      (appends : AppendsItems) (vs : List T)
      → read_elements (length vs) (flat item_bytes vs) ≡ given (map item vs)
  unfolding read_elements flat
  read_elements-bytes appends [] = refl
  read_elements-bytes appends (v ∷ vs) =
      let next : Option (List ℕ) × List ℕ → Answer (List (Option (List ℕ))) =
        λ r. read_elements (length vs) r.1 >>= (λ es. given (r.0 ∷ es)) in
      ap (λ a. a >>= next) (read_element-bytes (item v) (flat item_bytes vs) (appends v []).1)
      ∙ ap (λ a. a >>= (λ es. given (item v ∷ es))) (read_elements-bytes appends vs)

  item_bytes_long : (vs : List T) → 4 * length vs ≤ length (flat item_bytes vs)
  unfolding flat value_bytes
  item_bytes_long [] = omega arith
  item_bytes_long (v ∷ vs) =
      omega (
        arith,
        length-append (item_bytes v) (flat item_bytes vs),
        four (item v),
        item_bytes_long vs,
      )
    where
      four : (e : Option (List ℕ)) → 4 ≤ length (value_bytes e)
      four none = omega (arith, length-be32 (uint32_of (negsuc 0)))
      four (some b) = omega (
        arith,
        length-append (be32 (uint32_of (pos (length b)))) b,
        length-be32 (uint32_of (pos (length b))),
      )

  decode_body-bytes :
      (appends : AppendsItems) (h : ArrayHeader) (vs : List T)
      → cardinality h.dimensions ≡ length vs
      → decode_body h (flat item_bytes vs) ≡ given (h.dimensions, map item vs)
  unfolding decode_body allocate
  decode_body-bytes appends h vs count =
      let enough : ltb (length (flat item_bytes vs) / 4) (length vs) ≡ false =
        ground (arith, item_bytes_long vs) in
      rw (count, enough)
        (ap (λ a. a >>= (λ es. given (h.dimensions, es))) (read_elements-bytes appends vs))

  encode_header-bytes :
      (oid : ℕ) (ds : List ArrayDimension) (buf : List ℕ)
      → length ds ≤ 6
      → encode_binary (header_of false oid ds) buf
        ≡ (buf ++ be32 (length ds)) ++ (be32 0 ++ (be32 oid ++ flat dimension_bytes ds))
  unfolding header_bytes
  encode_header-bytes oid ds buf few =
      encode_binary-bytes (header_of false oid ds) buf (omega (arith, few))
      ∙ sym (append_assoc buf (be32 (length ds)) (be32 0 ++ (be32 oid ++ flat dimension_bytes ds)))

  flags_lt : (flag : ℕ) (vs : List T) → flag < 2 ^ 32 → flags_after flag vs < 2 ^ 32
  flags_lt flag [] h = h
  flags_lt flag (v ∷ vs) h = flags_lt (flag_after flag (item v)) vs (go (item v))
    where
      go : (e : Option (List ℕ)) → flag_after flag e < 2 ^ 32
      go none = omega arith
      go (some b) = h

  -- The bytes of an array.
  array_bytes : ℕ → List ArrayDimension → List T → List ℕ
  array_bytes oid ds vs = header_bytes (length ds) (flags_after 0 vs) oid ds ++ flat item_bytes vs

  encode_array-bytes :
      (appends : AppendsItems) (oid : ℕ) (ds : List ArrayDimension) (vs : List T) (buf : List ℕ)
      → length ds ≤ 6
      → encode_array encode_element oid (some ds) vs buf
        ≡ given (some (buf ++ array_bytes oid ds vs))
  unfolding encode_array array_bytes header_bytes
  encode_array-bytes appends oid ds vs buf few =
      let count = be32 (length ds) in
      let tail = be32 oid ++ flat dimension_bytes ds in
      let flag = be32 (flags_after 0 vs) in
      let items = flat item_bytes vs in
      let index : length buf + 4 ≡ length (buf ++ count) =
        omega (arith, length-append buf count, length-be32 (length ds)) in
      ap (λ b. encode_elements encode_element (length buf + 4) vs b >>= (λ b. given (some b)))
        (encode_header-bytes oid ds buf few)
      ∙ ap
          (λ i.
            encode_elements encode_element i vs ((buf ++ count) ++ (be32 0 ++ tail))
            >>= (λ b. given (some b)))
          index
      ∙ ap (λ a. a >>= (λ b. given (some b)))
          (encode_elements-bytes appends (buf ++ count) tail 0 vs)
      ∙ ap (λ t. given (some t))
          (append_assoc buf count (flag ++ (tail ++ items))
            ∙ ap (λ t. buf ++ (count ++ t)) (sym (append_assoc flag tail items))
            ∙ ap (λ t. buf ++ t) (sym (append_assoc count (flag ++ tail) items)))

  -- For every encode plan of elements that appends their bytes or gives nil for NULL, every element
  -- OID of 32 bits, and at most six dimensions of int32 numbers that have as many elements as the
  -- array: what is encoded behind the bytes of the buffer is decoded to the same dimensions, and
  -- each element is scanned from the bytes that it was encoded to, a NULL from nil.
  pub array_round_trip :
      (appends : AppendsItems) (oid : ℕ) (ds : List ArrayDimension) (vs : List T) (buf : List ℕ)
      → oid < 2 ^ 32
      → length ds ≤ 6
      → All IsDimension ds
      → cardinality ds ≡ length vs
      → (s : List ℕ) × (encode_array encode_element oid (some ds) vs buf ≡ given (some (buf ++ s)))
        × (decode_array s ≡ given (ds, map item vs))
  unfolding decode_array array_bytes
  array_round_trip appends oid ds vs buf ho few dims count =
      let flag = flags_after 0 vs in
      let next : ArrayHeader × List ℕ → Answer (List ArrayDimension × List (Option (List ℕ))) =
        λ r. decode_body r.0 r.1 in
      (
        array_bytes oid ds vs,
        encode_array-bytes appends oid ds vs buf few,
        ap (λ a. a >>= next)
              (decode_binary-bytes flag oid ds (flat item_bytes vs) (flags_lt 0 vs (omega arith)) ho
                few dims)
            ∙ decode_body-bytes appends (header_of (flag == 1) oid ds) vs count,
      )
