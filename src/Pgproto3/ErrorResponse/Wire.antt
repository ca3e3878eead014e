-- ===== src/Pgproto3/ErrorResponse/Wire.antt =====
-- The wire form of an ErrorResponse and of a NoticeResponse.
use solo_coder.Pgproto3.ErrorResponse.{decode, encode}
use solo_coder.Pgproto3.ErrorResponse.Fields.{IsValid}
use solo_coder.Common.{
  ℕ, zero, suc, ◌<◌, ◌≡◌, refl, ap, ◌∙◌, false, List, [], ◌∷◌, ◌++◌, append-nil, append_assoc,
  arith, ◌==◌, length, All, length-append, All-append,
}
use solo_coder.Common.Int.{ℤ, pos, negsuc}
use solo_coder.Pgproto3.Decimal.Laws.{itoa-NoNul}
use solo_coder.Pgproto3.ErrorResponse.{
  no_fields, set_field, read_fields, append_text, append_number, append_unknown, append_fields,
  encode_notice, ErrorResponse,
}
use solo_coder.Pgproto3.ErrorResponse.Fields.{
  text_field, number_field, sent_fields, IsUnknown, set_all, set_all-sent,
}
use solo_coder.Pgproto3.Message.{eof, ok}
use solo_coder.Pgproto3.Message.Frame.{framed, finish-begin}
use solo_coder.Pgproto3.Read.{read_byte}
use solo_coder.Pgproto3.Read.Laws.{
  NoNul, cstring_bytes, read_cstring-bytes, flat, flat-append, foldl-flat,
}

unfoldable pub field_bytes : ℕ × List ℕ → List ℕ
field_bytes p = p.0 ∷ cstring_bytes p.1

unfoldable pub body : ErrorResponse → List ℕ
body m = flat field_bytes (sent_fields m) ++ (0 ∷ [])

append_text-bytes :
    (dst : List ℕ) (k : ℕ) (v : List ℕ)
    → append_text dst k v ≡ dst ++ flat field_bytes (text_field k v)
unfolding append_text text_field flat field_bytes cstring_bytes
append_text-bytes dst k [] = rw append-nil
append_text-bytes dst k (c ∷ v) = simp (append_assoc, append-nil)

append_number-bytes :
    (dst : List ℕ) (k : ℕ) (n : ℤ)
    → append_number dst k n ≡ dst ++ flat field_bytes (number_field k n)
unfolding append_number number_field flat field_bytes cstring_bytes
append_number-bytes dst k (pos zero) = rw append-nil
append_number-bytes dst k (pos (suc n)) = simp (append_assoc, append-nil)
append_number-bytes dst k (negsuc n) = simp (append_assoc, append-nil)

append_unknown-bytes : (dst : List ℕ) (p : ℕ × List ℕ) → append_unknown dst p ≡ dst ++ field_bytes p
unfolding append_unknown field_bytes cstring_bytes
append_unknown-bytes dst (k, v) = simp append_assoc

append_fields-body : (dst : List ℕ) (m : ErrorResponse) → append_fields dst m ≡ dst ++ body m
unfolding append_fields body sent_fields
append_fields-body dst m = simp (
  append_text-bytes,
  append_number-bytes,
  foldl-flat _ field_bytes append_unknown-bytes,
  flat-append,
  append_assoc,
)

pub encode-framed :
    (dst : List ℕ) (m : ErrorResponse) → encode dst m ≡ framed dst (b'E' ∷ []) (body m)
unfolding encode
encode-framed dst m = rw append_fields-body (finish-begin dst b'E' (body m))

pub encode_notice-framed :
    (dst : List ℕ) (m : ErrorResponse) → encode_notice dst m ≡ framed dst (b'N' ∷ []) (body m)
unfolding encode_notice
encode_notice-framed dst m = rw append_fields-body (finish-begin dst b'N' (body m))

-- What the loop of `decode` can read: a key that is not the end mark, and a string.
abbrev IsField : ℕ × List ℕ → Type 0
IsField p = (0 < p.0) × NoNul p.1

read_fields-flat :
    (fuel : ℕ) (r : ErrorResponse) (ps : List (ℕ × List ℕ))
    → All IsField ps
    → length ps < fuel
    → read_fields fuel r (flat field_bytes ps ++ (0 ∷ [])) ≡ ok (set_all r ps)
unfolding read_fields flat field_bytes set_all read_byte
read_fields-flat zero r ps v h = elim h [ ]
read_fields-flat (suc fuel) r [] v h = refl
read_fields-flat (suc fuel) r (p ∷ ps) v h =
    let key : (p.0 == 0) ≡ false = ground (arith, v.0.0) in
    rw (key, append_assoc, read_cstring-bytes eof p.1 _ v.0.1)
      (read_fields-flat fuel (set_field r p.0 p.1) ps v.1 (omega arith))

text_field-IsField : (k : ℕ) (v : List ℕ) → NoNul v → 0 < k → All IsField (text_field k v)
unfolding text_field
text_field-IsField k [] v h = tt
text_field-IsField k (c ∷ s) v h = ((h, v), tt)

number_field-IsField : (k : ℕ) (n : ℤ) → 0 < k → All IsField (number_field k n)
unfolding number_field
number_field-IsField k (pos zero) h = tt
number_field-IsField k (pos (suc n)) h = ((h, itoa-NoNul (pos (suc n))), tt)
number_field-IsField k (negsuc n) h = ((h, itoa-NoNul (negsuc n)), tt)

unknown-IsField : (ps : List (ℕ × List ℕ)) → All IsUnknown ps → All IsField ps
unknown-IsField [] h = tt
unknown-IsField (p ∷ ps) h = ((h.0.1, h.0.2), unknown-IsField ps h.1)

sent_fields-IsField : (m : ErrorResponse) → IsValid m → All IsField (sent_fields m)
unfolding sent_fields
sent_fields-IsField m v =
    (All-append IsField _ _ (text_field-IsField b'S' m.severity v.severity (omega arith)) (
      All-append IsField _ _
        (text_field-IsField b'V' m.severity_unlocalized v.severity_unlocalized (omega arith))
        (All-append IsField _ _ (text_field-IsField b'C' m.code v.code (omega arith)) (
          All-append IsField _ _
            (text_field-IsField b'M' m.message_text v.message_text (omega arith))
            (All-append IsField _ _ (text_field-IsField b'D' m.detail v.detail (omega arith)) (
              All-append IsField _ _ (text_field-IsField b'H' m.hint v.hint (omega arith)) (
                All-append IsField _ _ (number_field-IsField b'P' m.position (omega arith)) (
                  All-append IsField _ _
                    (number_field-IsField b'p' m.internal_position (omega arith))
                    (All-append IsField _ _
                      (text_field-IsField b'q' m.internal_query v.internal_query (omega arith))
                      (All-append IsField _ _
                        (text_field-IsField b'W' m.where_text v.where_text (omega arith))
                        (All-append IsField _ _
                          (text_field-IsField b's' m.schema_name v.schema_name (omega arith))
                          (All-append IsField _ _
                            (text_field-IsField b't' m.table_name v.table_name (omega arith))
                            (All-append IsField _ _
                              (text_field-IsField b'c' m.column_name v.column_name (omega arith))
                              (All-append IsField _ _
                                (text_field-IsField b'd' m.data_type_name v.data_type_name
                                  (omega arith))
                                (All-append IsField _ _
                                  (text_field-IsField b'n' m.constraint_name v.constraint_name
                                    (omega arith))
                                  (All-append IsField _ _
                                    (text_field-IsField b'F' m.file v.file (omega arith))
                                    (All-append IsField _ _
                                      (number_field-IsField b'L' m.line (omega arith))
                                      (All-append IsField _ _
                                        (text_field-IsField b'R' m.routine v.routine (omega arith))
                                        (unknown-IsField m.unknown_fields
                                          v.unknown)))))))))))))))))))

length-fields : (ps : List (ℕ × List ℕ)) → length ps < length (flat field_bytes ps ++ (0 ∷ []))
unfolding flat field_bytes
length-fields [] = omega arith
length-fields (p ∷ ps) = omega (
  arith,
  length-append (cstring_bytes p.1 ++ flat field_bytes ps) (0 ∷ []),
  length-append (cstring_bytes p.1) (flat field_bytes ps),
  length-append (flat field_bytes ps) (0 ∷ []),
  length-fields ps,
)

pub decode-body : (m : ErrorResponse) → IsValid m → decode (body m) ≡ ok m
unfolding decode body
decode-body m v =
    read_fields-flat _ no_fields (sent_fields m) (sent_fields-IsField m v)
      (length-fields (sent_fields m))
    ∙ ap ok (set_all-sent m v)

-- An ErrorResponse with strings free of zero bytes, int32 numbers, and unknown fields under distinct
-- keys that no named field has, is encoded behind what the buffer holds as
-- a frame with its body, or refused where the frame would be too long; `decode` reads the same
-- message back from the body.
pub error_response_round_trip :
    (dst : List ℕ) (m : ErrorResponse)
    → IsValid m
    → (encode dst m ≡ framed dst (b'E' ∷ []) (body m)) × (decode (body m) ≡ ok m)
error_response_round_trip dst m v = (encode-framed dst m, decode-body m v)
