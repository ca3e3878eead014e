-- ===== src/Pgproto3/RowDescription.antt =====
-- pgproto3/row_description.go.
use mathlib.Core.List.{foldl}
use solo_coder.Common.{
  ℕ, ◌%◌, ◌^◌, ◌≤◌, ◌≡◌, true, List, [], ◌∷◌, ◌++◌, append_assoc, arith, leb, le→leb, length, All,
}
use solo_coder.Common.Int.{ℤ}
use solo_coder.Pgio.{uint16_of, uint32_of, append_uint16, append_uint32, append_int16, append_int32}
use solo_coder.Pgio.Laws.{
  be16, be32, append_uint16-be16, append_uint32-be32, append_int16-be16, append_int32-be32, IsInt16,
  IsInt32,
}
use solo_coder.Pgproto3.Message.{
  ◌>>=◌, ◌>>◌, guard, begin_message, finish_message, Error, Result, invalid_message_format, message,
  ok,
}
use solo_coder.Pgproto3.Message.Frame.{framed, finish-begin}
use solo_coder.Pgproto3.Read.{
  max_uint16, read_uint16, read_uint32, read_cstring, read_many, read_int16, read_int32,
}
use solo_coder.Pgproto3.Read.Laws.{
  NoNul, read_uint16-be16, read_uint32-be32, read_cstring-append, flat, foldl-flat,
  read_many-flat_end, IsUint16, IsUint32, read_int16-be16, read_int32-be32, append_uint16-count,
}

pub record FieldDescription : Type 0 where
  pub name : List ℕ
  pub table_oid : ℕ
  pub table_attribute_number : ℕ
  pub data_type_oid : ℕ
  pub data_type_size : ℤ
  pub type_modifier : ℤ
  pub format : ℤ

pub record RowDescription : Type 0 where
  pub fields : List FieldDescription

abbrev bad : Error
bad = invalid_message_format "RowDescription" ""

-- One round of the loop of `decode`.
unfoldable pub read_field : List ℕ → Result (FieldDescription × List ℕ)
read_field src = do
  (name, r) ← read_cstring bad src
  guard (leb 18 (length r)) bad
  (table_oid, r) ← read_uint32 bad r
  (table_attribute_number, r) ← read_uint16 bad r
  (data_type_oid, r) ← read_uint32 bad r
  (data_type_size, r) ← read_int16 bad r
  (type_modifier, r) ← read_int32 bad r
  (format, r) ← read_int16 bad r
  ok (
    record {
      name = name;
      table_oid = table_oid;
      table_attribute_number = table_attribute_number;
      data_type_oid = data_type_oid;
      data_type_size = data_type_size;
      type_modifier = type_modifier;
      format = format;
    },
    r,
  )

unfoldable pub decode : List ℕ → Result RowDescription
decode src = do
  (field_count, r) ← read_uint16 bad src
  (fields, r) ← read_many read_field field_count r
  ok (record { fields = fields })

-- One round of the loop of `encode`.
unfoldable pub append_field : List ℕ → FieldDescription → List ℕ
append_field dst fd =
    let dst = dst ++ fd.name in
    let dst = dst ++ (0 ∷ []) in
    let dst = append_uint32 dst fd.table_oid in
    let dst = append_uint16 dst fd.table_attribute_number in
    let dst = append_uint32 dst fd.data_type_oid in
    let dst = append_int16 dst fd.data_type_size in
    let dst = append_int32 dst fd.type_modifier in append_int16 dst fd.format

unfoldable pub encode : List ℕ → RowDescription → Result (List ℕ)
encode dst src =
    let (dst, sp) = begin_message dst b'T' in
    do
      guard (leb (length src.fields) max_uint16) (message "too many fields")
      let dst = append_uint16 dst (length src.fields % 2 ^ 16)
      let dst = foldl append_field dst src.fields
      finish_message dst sp

pub record IsValidField (fd : FieldDescription) : Type 0 where
  pub name : NoNul fd.name
  pub table_oid : IsUint32 fd.table_oid
  pub table_attribute_number : IsUint16 fd.table_attribute_number
  pub data_type_oid : IsUint32 fd.data_type_oid
  pub data_type_size : IsInt16 fd.data_type_size
  pub type_modifier : IsInt32 fd.type_modifier
  pub format : IsInt16 fd.format

pub record IsValid (m : RowDescription) : Type 0 where
  pub few : length m.fields ≤ max_uint16
  pub fields : All IsValidField m.fields

unfoldable pub field_numbers : FieldDescription → List ℕ
field_numbers fd =
    be32 fd.table_oid
    ++ (be16 fd.table_attribute_number
        ++ (be32 fd.data_type_oid
            ++ (be16 (uint16_of fd.data_type_size)
                ++ (be32 (uint32_of fd.type_modifier) ++ be16 (uint16_of fd.format)))))

unfoldable pub field_bytes : FieldDescription → List ℕ
field_bytes fd = fd.name ++ (0 ∷ field_numbers fd)

unfoldable pub body : RowDescription → List ℕ
body m = be16 (length m.fields) ++ flat field_bytes m.fields

append_field-bytes :
    (dst : List ℕ) (fd : FieldDescription) → append_field dst fd ≡ dst ++ field_bytes fd
unfolding append_field field_bytes field_numbers
append_field-bytes dst fd =
    simp
      (append_uint16-be16, append_uint32-be32, append_int16-be16, append_int32-be32, append_assoc)

pub encode-framed :
    (dst : List ℕ) (m : RowDescription) → IsValid m → encode dst m ≡ framed dst (b'T' ∷ []) (body m)
unfolding encode body
encode-framed dst m v =
    simp
      (
        le→leb (length m.fields) max_uint16 v.few,
        append_uint16-count,
        foldl-flat _ field_bytes append_field-bytes,
        append_assoc,
      )
      (finish-begin dst b'T' (body m))

long_numbers :
    (fd : FieldDescription) (rest : List ℕ) → leb 18 (length (field_numbers fd ++ rest)) ≡ true
unfolding field_numbers be16 be32
long_numbers fd rest = ground arith

read_field-bytes :
    (fd : FieldDescription) (rest : List ℕ)
    → IsValidField fd
    → read_field (field_bytes fd ++ rest) ≡ ok (fd, rest)
unfolding read_field field_bytes
read_field-bytes fd rest v =
    rw (append_assoc, read_cstring-append bad fd.name _ v.name, long_numbers fd rest)
      (unfold field_numbers in
        rw (
          append_assoc,
          read_uint32-be32 bad fd.table_oid _ v.table_oid,
          append_assoc,
          read_uint16-be16 bad fd.table_attribute_number _ v.table_attribute_number,
          append_assoc,
          read_uint32-be32 bad fd.data_type_oid _ v.data_type_oid,
          append_assoc,
          read_int16-be16 bad fd.data_type_size _ v.data_type_size,
          append_assoc,
          read_int32-be32 bad fd.type_modifier _ v.type_modifier,
          read_int16-be16 bad fd.format rest v.format,
        ))

pub decode-body : (m : RowDescription) → IsValid m → decode (body m) ≡ ok m
unfolding decode body
decode-body m v = rw (
  read_uint16-be16 bad (length m.fields) _ (omega arith),
  read_many-flat_end read_field field_bytes IsValidField read_field-bytes m.fields v.fields,
)

-- A RowDescription of at most 65535 fields, each with a name free of zero bytes and numbers in the
-- range of their types, is encoded behind what the buffer holds as
-- a frame with its body, or refused where the frame would be too long; `decode` reads the same
-- message back from the body.
pub row_description_round_trip :
    (dst : List ℕ) (m : RowDescription)
    → IsValid m
    → (encode dst m ≡ framed dst (b'T' ∷ []) (body m)) × (decode (body m) ≡ ok m)
row_description_round_trip dst m v = (encode-framed dst m v, decode-body m v)
