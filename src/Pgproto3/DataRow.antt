-- ===== src/Pgproto3/DataRow.antt =====
-- pgproto3/data_row.go. The reuse of the old slice's memory leaves no trace in the value.
use mathlib.Core.List.{foldl}
use solo_coder.Common.{
  ℕ, ◌%◌, ◌^◌, ◌≤◌, ◌≡◌, Option, List, [], ◌∷◌, ◌++◌, append_assoc, arith, leb, le→leb, length, All,
}
use solo_coder.Pgio.{append_uint16}
use solo_coder.Pgio.Laws.{be16}
use solo_coder.Pgproto3.Message.{
  ◌>>=◌, ◌>>◌, guard, begin_message, finish_message, Error, Result, invalid_message_format, message,
  ok,
}
use solo_coder.Pgproto3.Message.Frame.{framed, finish-begin}
use solo_coder.Pgproto3.Read.{max_uint16, read_uint16, read_many, read_value, append_value}
use solo_coder.Pgproto3.Read.Laws.{
  read_uint16-be16, flat, foldl-flat, read_many-flat_end, append_uint16-count, value_bytes,
  append_value-bytes, IsSendable, read_value-bytes,
}

pub record DataRow : Type 0 where
  pub values : List (Option (List ℕ))

abbrev bad : Error
bad = invalid_message_format "DataRow" ""

unfoldable pub decode : List ℕ → Result DataRow
decode src = do
  (field_count, r) ← read_uint16 bad src
  (values, r) ← read_many (read_value bad) field_count r
  ok (record { values = values })

unfoldable pub encode : List ℕ → DataRow → Result (List ℕ)
encode dst src =
    let (dst, sp) = begin_message dst b'D' in
    do
      guard (leb (length src.values) max_uint16) (message "too many values")
      let dst = append_uint16 dst (length src.values % 2 ^ 16)
      let dst = foldl append_value dst src.values
      finish_message dst sp

pub record IsValid (m : DataRow) : Type 0 where
  pub few : length m.values ≤ max_uint16
  pub values : All IsSendable m.values

unfoldable pub body : DataRow → List ℕ
body m = be16 (length m.values) ++ flat value_bytes m.values

pub encode-framed :
    (dst : List ℕ) (m : DataRow) → IsValid m → encode dst m ≡ framed dst (b'D' ∷ []) (body m)
unfolding encode body
encode-framed dst m v =
    simp
      (
        le→leb (length m.values) max_uint16 v.few,
        append_uint16-count,
        foldl-flat _ value_bytes append_value-bytes,
        append_assoc,
      )
      (finish-begin dst b'D' (body m))

pub decode-body : (m : DataRow) → IsValid m → decode (body m) ≡ ok m
unfolding decode body
decode-body m v = rw (
  read_uint16-be16 bad (length m.values) _ (omega arith),
  read_many-flat_end (read_value bad) value_bytes IsSendable (read_value-bytes bad) m.values
      v.values,
)

-- A DataRow of at most 65535 values, each NULL or of a length that is an int32, is encoded behind what the buffer holds as
-- a frame with its body, or refused where the frame would be too long; `decode` reads the same
-- message back from the body.
pub data_row_round_trip :
    (dst : List ℕ) (m : DataRow)
    → IsValid m
    → (encode dst m ≡ framed dst (b'D' ∷ []) (body m)) × (decode (body m) ≡ ok m)
data_row_round_trip dst m v = (encode-framed dst m v, decode-body m v)
