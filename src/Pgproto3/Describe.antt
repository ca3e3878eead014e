-- ===== src/Pgproto3/Describe.antt =====
-- pgproto3/describe.go.
use solo_coder.Common.{
  ℕ, suc, ◌≡◌, true, List, [], ◌∷◌, ◌++◌, append_assoc, arith, leb, length, length-append,
}
use solo_coder.Pgproto3.Message.{
  ◌>>=◌, ◌>>◌, guard, begin_message, finish_message, Error, Result, invalid_message_format, ok,
}
use solo_coder.Pgproto3.Message.Frame.{framed, finish-begin}
use solo_coder.Pgproto3.Read.{read_last_cstring, read_byte}
use solo_coder.Pgproto3.Read.Laws.{NoNul, read_last_cstring-append}

-- The object type is 'S' for a prepared statement and 'P' for a portal.
pub record Describe : Type 0 where
  pub object_type : ℕ
  pub name : List ℕ

abbrev bad : Error
bad = invalid_message_format "Describe" ""

unfoldable pub decode : List ℕ → Result Describe
decode src = do
  guard (leb 2 (length src)) bad
  (object_type, r) ← read_byte bad src
  name ← read_last_cstring bad r
  ok (record { object_type = object_type; name = name })

unfoldable pub encode : List ℕ → Describe → Result (List ℕ)
encode dst src =
    let (dst, sp) = begin_message dst b'D' in
    let dst = dst ++ (src.object_type ∷ []) in
    let dst = dst ++ src.name in let dst = dst ++ (0 ∷ []) in finish_message dst sp

pub record IsValid (m : Describe) : Type 0 where
  pub name : NoNul m.name

unfoldable pub body : Describe → List ℕ
body m = m.object_type ∷ (m.name ++ (0 ∷ []))

pub encode-framed : (dst : List ℕ) (m : Describe) → encode dst m ≡ framed dst (b'D' ∷ []) (body m)
unfolding encode body
encode-framed dst m = simp append_assoc (finish-begin dst b'D' (body m))

pub decode-body : (m : Describe) → IsValid m → decode (body m) ≡ ok m
unfolding decode body read_byte
decode-body m v =
    let long : leb 2 (suc (length (m.name ++ (0 ∷ [])))) ≡ true =
      ground (arith, length-append m.name (0 ∷ [])) in
    rw (long, read_last_cstring-append bad m.name v.name)
