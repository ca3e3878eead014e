-- ===== src/Pgproto3/CommandComplete.antt =====
-- pgproto3/command_complete.go.
use solo_coder.Common.{
  ℕ, ◌+◌, ◌≡◌, none, some, List, [], ◌∷◌, ◌++◌, append_assoc, arith, ◌==◌, if◌then◌else◌, length,
  take, length-append, take_append,
}
use solo_coder.Pgproto3.Message.{
  begin_message, finish_message, Result, invalid_message_format, ok, err,
}
use solo_coder.Pgproto3.Message.Frame.{framed, finish-begin}
use solo_coder.Pgproto3.Read.{index_nul}
use solo_coder.Pgproto3.Read.Laws.{NoNul, index_nul-append}

pub record CommandComplete : Type 0 where
  pub command_tag : List ℕ

unfoldable pub decode : List ℕ → Result CommandComplete
decode src = elim (index_nul src) [
  | none ↦ err (invalid_message_format "CommandComplete" "unterminated string")
  | some idx ↦
      if idx + 1 == length src
      then ok (record { command_tag = take idx src })
      else err (invalid_message_format "CommandComplete" "string terminated too early")
]

unfoldable pub encode : List ℕ → CommandComplete → Result (List ℕ)
encode dst src =
    let (dst, sp) = begin_message dst b'C' in
    let dst = dst ++ src.command_tag in let dst = dst ++ (0 ∷ []) in finish_message dst sp

unfoldable pub body : CommandComplete → List ℕ
body m = m.command_tag ++ (0 ∷ [])

pub encode-framed :
    (dst : List ℕ) (m : CommandComplete) → encode dst m ≡ framed dst (b'C' ∷ []) (body m)
unfolding encode body
encode-framed dst m = simp append_assoc (finish-begin dst b'C' (body m))

pub decode-body : (m : CommandComplete) → NoNul m.command_tag → decode (body m) ≡ ok m
unfolding decode body
decode-body m v =
    rw (index_nul-append m.command_tag [] v, decode, take_append m.command_tag (0 ∷ []))
      (ground (arith, length-append m.command_tag (0 ∷ [])))
