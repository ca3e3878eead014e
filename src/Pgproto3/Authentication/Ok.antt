-- ===== src/Pgproto3/Authentication/Ok.antt =====
-- pgproto3/authentication_ok.go.
use solo_coder.Common.{ℕ, ◌≡◌, refl, List, [], ◌∷◌, ◌==◌, length}
use solo_coder.Pgio.{append_uint32}
use solo_coder.Pgio.Laws.{be32, append_uint32-be32}
use solo_coder.Pgproto3.Authentication.{auth_type_ok}
use solo_coder.Pgproto3.Message.{
  ◌>>=◌, ◌>>◌, guard, begin_message, finish_message, Result, message, ok,
}
use solo_coder.Pgproto3.Message.Frame.{framed, finish-begin}
use solo_coder.Pgproto3.Read.{read_uint32}

unfoldable pub decode : List ℕ → Result (Unit {0})
decode src = do
  guard (length src == 4) (message "bad authentication message size")
  (auth_type, r) ← read_uint32 (message "bad authentication message size") src
  guard (auth_type == auth_type_ok) (message "bad auth type")
  ok tt

unfoldable pub encode : List ℕ → Result (List ℕ)
encode dst =
    let (dst, sp) = begin_message dst b'R' in
    let dst = append_uint32 dst auth_type_ok in finish_message dst sp

unfoldable pub body : List ℕ
body = be32 auth_type_ok

pub encode-framed : (dst : List ℕ) → encode dst ≡ framed dst (b'R' ∷ []) body
unfolding encode body
encode-framed dst = simp append_uint32-be32 (finish-begin dst b'R' body)

pub decode-body : decode body ≡ ok tt
unfolding decode body be32 read_uint32
decode-body = refl
