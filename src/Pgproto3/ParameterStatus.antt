-- ===== src/Pgproto3/ParameterStatus.antt =====
-- pgproto3/parameter_status.go.
use solo_coder.Common.{ℕ, ◌≡◌, List, [], ◌∷◌, ◌++◌, append_assoc}
use solo_coder.Pgproto3.Message.{◌>>=◌, begin_message, finish_message, Result, eof, ok}
use solo_coder.Pgproto3.Message.Frame.{framed, finish-begin}
use solo_coder.Pgproto3.Read.{read_cstring}
use solo_coder.Pgproto3.Read.Laws.{NoNul, read_cstring-append}

pub record ParameterStatus : Type 0 where
  pub name : List ℕ
  pub value : List ℕ

unfoldable pub decode : List ℕ → Result ParameterStatus
decode src = do
  (name, r) ← read_cstring eof src
  (value, r) ← read_cstring eof r
  ok (record { name = name; value = value })

unfoldable pub encode : List ℕ → ParameterStatus → Result (List ℕ)
encode dst src =
    let (dst, sp) = begin_message dst b'S' in
    let dst = dst ++ src.name in
    let dst = dst ++ (0 ∷ []) in
    let dst = dst ++ src.value in let dst = dst ++ (0 ∷ []) in finish_message dst sp

pub record IsValid (m : ParameterStatus) : Type 0 where
  pub name : NoNul m.name
  pub value : NoNul m.value

unfoldable pub body : ParameterStatus → List ℕ
body m = m.name ++ (0 ∷ (m.value ++ (0 ∷ [])))

pub encode-framed :
    (dst : List ℕ) (m : ParameterStatus) → encode dst m ≡ framed dst (b'S' ∷ []) (body m)
unfolding encode body
encode-framed dst m = simp append_assoc (finish-begin dst b'S' (body m))

pub decode-body : (m : ParameterStatus) → IsValid m → decode (body m) ≡ ok m
unfolding decode body
decode-body m v =
    rw (read_cstring-append eof m.name _ v.name, read_cstring-append eof m.value [] v.value)
