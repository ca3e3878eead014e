-- ===== src/Pgproto3/Query.antt =====
-- pgproto3/query.go.
use solo_coder.Common.{
  ℕ, ◌≡◌, true, List, [], ◌∷◌, ◌++◌, append_assoc, arith, ltb, length, length-append,
}
use solo_coder.Pgproto3.Message.{
  ◌>>=◌, ◌>>◌, guard, begin_message, finish_message, Error, Result, invalid_message_format, ok,
}
use solo_coder.Pgproto3.Message.Frame.{framed, finish-begin}
use solo_coder.Pgproto3.Read.{read_last_cstring}
use solo_coder.Pgproto3.Read.Laws.{NoNul, read_last_cstring-append}

pub record Query : Type 0 where
  pub string : List ℕ

abbrev bad : Error
bad = invalid_message_format "Query" ""

unfoldable pub decode : List ℕ → Result Query
decode src = do
  guard (ltb 0 (length src)) bad
  string ← read_last_cstring bad src
  ok (record { string = string })

unfoldable pub encode : List ℕ → Query → Result (List ℕ)
encode dst src =
    let (dst, sp) = begin_message dst b'Q' in
    let dst = dst ++ src.string in let dst = dst ++ (0 ∷ []) in finish_message dst sp

unfoldable pub body : Query → List ℕ
body m = m.string ++ (0 ∷ [])

pub encode-framed : (dst : List ℕ) (m : Query) → encode dst m ≡ framed dst (b'Q' ∷ []) (body m)
unfolding encode body
encode-framed dst m = simp append_assoc (finish-begin dst b'Q' (body m))

pub decode-body : (m : Query) → NoNul m.string → decode (body m) ≡ ok m
unfolding decode body
decode-body m v =
    let long : ltb 0 (length (m.string ++ (0 ∷ []))) ≡ true =
      ground (arith, length-append m.string (0 ∷ [])) in
    rw (long, read_last_cstring-append bad m.string v)
