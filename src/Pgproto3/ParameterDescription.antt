-- ===== src/Pgproto3/ParameterDescription.antt =====
-- pgproto3/parameter_description.go. The count field is skipped: the number of parameters follows
-- from the size of the message.
use mathlib.Core.List.{foldl}
use solo_coder.Common.{
  ℕ, ◌/◌, ◌%◌, ◌^◌, ◌≤◌, ◌≡◌, List, [], ◌∷◌, ◌++◌, append_assoc, arith, leb, le→leb, length, All,
}
use solo_coder.Pgio.{append_uint16, append_uint32}
use solo_coder.Pgio.Laws.{be16, be32, append_uint32-be32, length-be32}
use solo_coder.Pgproto3.Message.{
  ◌>>=◌, ◌>>◌, guard, begin_message, finish_message, Error, Result, invalid_message_format, message,
  ok,
}
use solo_coder.Pgproto3.Message.Frame.{framed, finish-begin}
use solo_coder.Pgproto3.Read.{max_uint16, read_uint16, read_uint32, read_many}
use solo_coder.Pgproto3.Read.Laws.{
  read_uint16-be16, read_uint32-be32, flat, foldl-flat, read_many-flat_end, length-flat, IsUint16,
  IsUint32, append_uint16-count,
}

pub record ParameterDescription : Type 0 where
  pub parameter_oids : List ℕ

abbrev bad : Error
bad = invalid_message_format "ParameterDescription" ""

unfoldable pub decode : List ℕ → Result ParameterDescription
decode src = do
  (_, r) ← read_uint16 bad src
  (parameter_oids, r) ← read_many (read_uint32 bad) (length r / 4) r
  ok (record { parameter_oids = parameter_oids })

unfoldable pub encode : List ℕ → ParameterDescription → Result (List ℕ)
encode dst src =
    let (dst, sp) = begin_message dst b't' in
    do
      guard (leb (length src.parameter_oids) max_uint16) (message "too many parameter oids")
      let dst = append_uint16 dst (length src.parameter_oids % 2 ^ 16)
      let dst = foldl append_uint32 dst src.parameter_oids
      finish_message dst sp

pub record IsValid (m : ParameterDescription) : Type 0 where
  pub few : length m.parameter_oids ≤ max_uint16
  pub oids : All IsUint32 m.parameter_oids

unfoldable pub body : ParameterDescription → List ℕ
body m = be16 (length m.parameter_oids) ++ flat be32 m.parameter_oids

pub encode-framed :
    (dst : List ℕ) (m : ParameterDescription)
    → IsValid m
    → encode dst m ≡ framed dst (b't' ∷ []) (body m)
unfolding encode body
encode-framed dst m v =
    simp
      (
        le→leb (length m.parameter_oids) max_uint16 v.few,
        append_uint16-count,
        foldl-flat _ be32 append_uint32-be32,
        append_assoc,
      )
      (finish-begin dst b't' (body m))

-- Whatever count of 16 bits the body states, the uint32 codes that follow it are all read.
pub decode-any_count :
    (count : ℕ) (m : ParameterDescription)
    → IsUint16 count
    → All IsUint32 m.parameter_oids
    → decode (be16 count ++ flat be32 m.parameter_oids) ≡ ok m
unfolding decode
decode-any_count count m h v =
    let e : length (flat be32 m.parameter_oids) / 4 ≡ length m.parameter_oids =
      omega (arith, length-flat be32 4 length-be32 m.parameter_oids) in
    rw (
      read_uint16-be16 bad count _ h,
      e,
      read_many-flat_end (read_uint32 bad) be32 IsUint32 (read_uint32-be32 bad) m.parameter_oids v,
    )

pub decode-body : (m : ParameterDescription) → IsValid m → decode (body m) ≡ ok m
unfolding body
decode-body m v = decode-any_count (length m.parameter_oids) m (omega arith) v.oids
