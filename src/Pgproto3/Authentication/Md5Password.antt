-- ===== src/Pgproto3/Authentication/Md5Password.antt =====
-- pgproto3/authentication_md5_password.go.
use solo_coder.Common.{
  ℕ, suc, ◌≡◌, true, List, [], ◌∷◌, ◌++◌, append-nil, append_assoc, arith, ◌==◌, length, take,
  take_append,
}
use solo_coder.Pgio.{append_uint32}
use solo_coder.Pgio.Laws.{be32, append_uint32-be32}
use solo_coder.Pgproto3.Authentication.{auth_type_md5_password}
use solo_coder.Pgproto3.Message.{
  ◌>>=◌, ◌>>◌, guard, begin_message, finish_message, Result, message, ok,
}
use solo_coder.Pgproto3.Message.Frame.{framed, finish-begin}
use solo_coder.Pgproto3.Read.{read_uint32}

-- The salt is an array of four bytes.
pub record Md5Password : Type 0 where
  pub salt : List ℕ

unfoldable pub decode : List ℕ → Result Md5Password
decode src = do
  guard (length src == 8) (message "bad authentication message size")
  (auth_type, r) ← read_uint32 (message "bad authentication message size") src
  guard (auth_type == auth_type_md5_password) (message "bad auth type")
  ok (record { salt = take 4 r })

unfoldable pub encode : List ℕ → Md5Password → Result (List ℕ)
encode dst src =
    let (dst, sp) = begin_message dst b'R' in
    let dst = append_uint32 dst auth_type_md5_password in
    let dst = dst ++ src.salt in finish_message dst sp

unfoldable pub body : Md5Password → List ℕ
body m = be32 auth_type_md5_password ++ m.salt

pub encode-framed :
    (dst : List ℕ) (m : Md5Password) → encode dst m ≡ framed dst (b'R' ∷ []) (body m)
unfolding encode body
encode-framed dst m = simp (append_uint32-be32, append_assoc) (finish-begin dst b'R' (body m))

pub decode-body : (m : Md5Password) → length m.salt ≡ 4 → decode (body m) ≡ ok m
unfolding decode body be32 read_uint32
decode-body m h =
    let exact : (suc (suc (suc (suc (length m.salt)))) == 8) ≡ true = ground arith in
    let whole : take 4 m.salt ≡ m.salt = rw (h, append-nil) at (take_append m.salt []) in
    rw (exact, whole)
