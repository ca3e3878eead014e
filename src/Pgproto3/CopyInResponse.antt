-- ===== src/Pgproto3/CopyInResponse.antt =====
-- pgproto3/copy_in_response.go.
use mathlib.Core.List.{foldl}
use solo_coder.Common.{
  ℕ, ◌*◌, ◌%◌, ◌^◌, ◌≤◌, ◌≡◌, true, List, [], ◌∷◌, ◌++◌, append_assoc, arith, leb, ◌==◌, le→leb,
  length, All,
}
use solo_coder.Pgio.{append_uint16}
use solo_coder.Pgio.Laws.{be16, append_uint16-be16, length-be16}
use solo_coder.Pgproto3.Message.{
  ◌>>=◌, ◌>>◌, guard, begin_message, finish_message, Error, Result, invalid_message_format, message,
  ok,
}
use solo_coder.Pgproto3.Message.Frame.{framed, finish-begin}
use solo_coder.Pgproto3.Read.{max_uint16, read_uint16, read_byte, read_many}
use solo_coder.Pgproto3.Read.Laws.{
  read_uint16-be16, flat, foldl-flat, read_many-flat_end, length-flat, IsUint16,
  append_uint16-count,
}

pub record CopyInResponse : Type 0 where
  pub overall_format : ℕ
  pub column_format_codes : List ℕ

abbrev bad : Error
bad = invalid_message_format "CopyInResponse" ""

-- The codes must take all the rest of the message.
unfoldable pub decode : List ℕ → Result CopyInResponse
decode src = do
  (overall_format, r) ← read_byte bad src
  (column_count, r) ← read_uint16 bad r
  guard (length r == column_count * 2) bad
  (column_format_codes, r) ← read_many (read_uint16 bad) column_count r
  ok (record { overall_format = overall_format; column_format_codes = column_format_codes })

unfoldable pub encode : List ℕ → CopyInResponse → Result (List ℕ)
encode dst src =
    let (dst, sp) = begin_message dst b'G' in
    let dst = dst ++ (src.overall_format ∷ []) in
    do
      guard (leb (length src.column_format_codes) max_uint16)
          (message "too many column format codes")
      let dst = append_uint16 dst (length src.column_format_codes % 2 ^ 16)
      let dst = foldl append_uint16 dst src.column_format_codes
      finish_message dst sp

pub record IsValid (m : CopyInResponse) : Type 0 where
  pub few : length m.column_format_codes ≤ max_uint16
  pub codes : All IsUint16 m.column_format_codes

unfoldable pub body : CopyInResponse → List ℕ
body m = m.overall_format ∷ (be16 (length m.column_format_codes) ++ flat be16 m.column_format_codes)

pub encode-framed :
    (dst : List ℕ) (m : CopyInResponse) → IsValid m → encode dst m ≡ framed dst (b'G' ∷ []) (body m)
unfolding encode body
encode-framed dst m v =
    simp
      (
        le→leb (length m.column_format_codes) max_uint16 v.few,
        append_uint16-count,
        foldl-flat _ be16 append_uint16-be16,
        append_assoc,
      )
      (finish-begin dst b'G' (body m))

pub decode-body : (m : CopyInResponse) → IsValid m → decode (body m) ≡ ok m
unfolding decode body read_byte
decode-body m v =
    let exact : (length (flat be16 m.column_format_codes) == length m.column_format_codes * 2)
        ≡ true =
      ground (arith, length-flat be16 2 length-be16 m.column_format_codes) in
    rw (
      read_uint16-be16 bad (length m.column_format_codes) _ (omega arith),
      exact,
      read_many-flat_end (read_uint16 bad) be16 IsUint16 (read_uint16-be16 bad)
          m.column_format_codes v.codes,
    )
