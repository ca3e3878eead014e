-- ===== src/Pgproto3/Parse.antt =====
-- pgproto3/parse.go.
use mathlib.Core.List.{foldl}
use solo_coder.Common.{
  ℕ, ◌%◌, ◌^◌, ◌≤◌, ◌≡◌, List, [], ◌∷◌, ◌++◌, append_assoc, arith, leb, le→leb, length, All,
}
use solo_coder.Pgio.{append_uint16, append_uint32}
use solo_coder.Pgio.Laws.{be16, be32, append_uint32-be32}
use solo_coder.Pgproto3.Message.{
  ◌>>=◌, ◌>>◌, guard, begin_message, finish_message, Error, Result, eof, invalid_message_format,
  message, ok,
}
use solo_coder.Pgproto3.Message.Frame.{framed, finish-begin}
use solo_coder.Pgproto3.Read.{max_uint16, read_uint16, read_uint32, read_cstring, read_many}
use solo_coder.Pgproto3.Read.Laws.{
  NoNul, read_uint16-be16, read_uint32-be32, read_cstring-append, flat, foldl-flat,
  read_many-flat_end, IsUint32, append_uint16-count,
}

pub record Parse : Type 0 where
  pub name : List ℕ
  pub query : List ℕ
  pub parameter_oids : List ℕ

abbrev bad : Error
bad = invalid_message_format "Parse" ""

unfoldable pub decode : List ℕ → Result Parse
decode src = do
  (name, r) ← read_cstring eof src
  (query, r) ← read_cstring eof r
  (parameter_oid_count, r) ← read_uint16 bad r
  (parameter_oids, r) ← read_many (read_uint32 bad) parameter_oid_count r
  ok (record { name = name; query = query; parameter_oids = parameter_oids })

unfoldable pub encode : List ℕ → Parse → Result (List ℕ)
encode dst src =
    let (dst, sp) = begin_message dst b'P' in
    let dst = dst ++ src.name in
    let dst = dst ++ (0 ∷ []) in
    let dst = dst ++ src.query in
    let dst = dst ++ (0 ∷ []) in
    do
      guard (leb (length src.parameter_oids) max_uint16) (message "too many parameter oids")
      let dst = append_uint16 dst (length src.parameter_oids % 2 ^ 16)
      let dst = foldl append_uint32 dst src.parameter_oids
      finish_message dst sp

pub record IsValid (m : Parse) : Type 0 where
  pub name : NoNul m.name
  pub query : NoNul m.query
  pub few : length m.parameter_oids ≤ max_uint16
  pub oids : All IsUint32 m.parameter_oids

unfoldable pub body : Parse → List ℕ
body m =
    m.name
    ++ (0 ∷ (m.query ++ (0 ∷ (be16 (length m.parameter_oids) ++ flat be32 m.parameter_oids))))

pub encode-framed :
    (dst : List ℕ) (m : Parse) → IsValid m → encode dst m ≡ framed dst (b'P' ∷ []) (body m)
unfolding encode body
encode-framed dst m v =
    simp
      (
        le→leb (length m.parameter_oids) max_uint16 v.few,
        append_uint16-count,
        foldl-flat _ be32 append_uint32-be32,
        append_assoc,
      )
      (finish-begin dst b'P' (body m))

pub decode-body : (m : Parse) → IsValid m → decode (body m) ≡ ok m
unfolding decode body
decode-body m v = rw (
  read_cstring-append eof m.name _ v.name,
  read_cstring-append eof m.query _ v.query,
  read_uint16-be16 bad (length m.parameter_oids) _ (omega arith),
  read_many-flat_end (read_uint32 bad) be32 IsUint32 (read_uint32-be32 bad) m.parameter_oids v.oids,
)

-- A Parse with strings free of zero bytes and at most 65535 uint32 type codes is encoded behind what the buffer holds as
-- a frame with its body, or refused where the frame would be too long; `decode` reads the same
-- message back from the body.
pub parse_round_trip :
    (dst : List ℕ) (m : Parse)
    → IsValid m
    → (encode dst m ≡ framed dst (b'P' ∷ []) (body m)) × (decode (body m) ≡ ok m)
parse_round_trip dst m v = (encode-framed dst m v, decode-body m v)
