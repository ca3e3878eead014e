-- ===== src/Pgproto3/CopyFail.antt =====
-- pgproto3/copy_fail.go.
use solo_coder.Common.{
  ℕ, ◌≡◌, true, List, [], ◌∷◌, ◌++◌, append_assoc, arith, ltb, length, length-append,
}
use solo_coder.Pgproto3.Message.{
  ◌>>=◌, ◌>>◌, guard, begin_message, finish_message, Error, Result, invalid_message_format, ok,
}
use solo_coder.Pgproto3.Message.Frame.{framed, finish-begin}
use solo_coder.Pgproto3.Read.{read_last_cstring}
use solo_coder.Pgproto3.Read.Laws.{NoNul, read_last_cstring-append}

pub record CopyFail : Type 0 where
  pub message_text : List ℕ

abbrev bad : Error
bad = invalid_message_format "CopyFail" ""

unfoldable pub decode : List ℕ → Result CopyFail
decode src = do
  guard (ltb 0 (length src)) bad
  message_text ← read_last_cstring bad src
  ok (record { message_text = message_text })

unfoldable pub encode : List ℕ → CopyFail → Result (List ℕ)
encode dst src =
    let (dst, sp) = begin_message dst b'f' in
    let dst = dst ++ src.message_text in let dst = dst ++ (0 ∷ []) in finish_message dst sp

unfoldable pub body : CopyFail → List ℕ
body m = m.message_text ++ (0 ∷ [])

pub encode-framed : (dst : List ℕ) (m : CopyFail) → encode dst m ≡ framed dst (b'f' ∷ []) (body m)
unfolding encode body
encode-framed dst m = simp append_assoc (finish-begin dst b'f' (body m))

pub decode-body : (m : CopyFail) → NoNul m.message_text → decode (body m) ≡ ok m
unfolding decode body
decode-body m v =
    let long : ltb 0 (length (m.message_text ++ (0 ∷ []))) ≡ true =
      ground (arith, length-append m.message_text (0 ∷ [])) in
    rw (long, read_last_cstring-append bad m.message_text v)
