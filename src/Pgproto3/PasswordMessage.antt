-- ===== src/Pgproto3/PasswordMessage.antt =====
-- pgproto3/password_message.go.
use solo_coder.Common.{ℕ, ◌≡◌, List, [], ◌∷◌, ◌++◌, append_assoc}
use solo_coder.Pgproto3.Message.{◌>>=◌, begin_message, finish_message, Result, eof, ok}
use solo_coder.Pgproto3.Message.Frame.{framed, finish-begin}
use solo_coder.Pgproto3.Read.{read_cstring}
use solo_coder.Pgproto3.Read.Laws.{NoNul, read_cstring-append}

pub record PasswordMessage : Type 0 where
  pub password : List ℕ

unfoldable pub decode : List ℕ → Result PasswordMessage
decode src = do (password, r) ← read_cstring eof src; ok (record { password = password })

unfoldable pub encode : List ℕ → PasswordMessage → Result (List ℕ)
encode dst src =
    let (dst, sp) = begin_message dst b'p' in
    let dst = dst ++ src.password in let dst = dst ++ (0 ∷ []) in finish_message dst sp

unfoldable pub body : PasswordMessage → List ℕ
body m = m.password ++ (0 ∷ [])

pub encode-framed :
    (dst : List ℕ) (m : PasswordMessage) → encode dst m ≡ framed dst (b'p' ∷ []) (body m)
unfolding encode body
encode-framed dst m = simp append_assoc (finish-begin dst b'p' (body m))

pub decode-body : (m : PasswordMessage) → NoNul m.password → decode (body m) ≡ ok m
unfolding decode body
decode-body m v = rw (read_cstring-append eof m.password [] v)
