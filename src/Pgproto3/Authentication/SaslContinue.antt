-- ===== src/Pgproto3/Authentication/SaslContinue.antt =====
-- pgproto3/authentication_sasl_continue.go.
use solo_coder.Common.{ℕ, ◌≡◌, refl, List, [], ◌∷◌, ◌++◌, append_assoc, ◌==◌}
use solo_coder.Pgio.{append_uint32}
use solo_coder.Pgio.Laws.{be32, append_uint32-be32}
use solo_coder.Pgproto3.Authentication.{auth_type_sasl_continue}
use solo_coder.Pgproto3.Message.{
  ◌>>=◌, ◌>>◌, guard, begin_message, finish_message, Result, message, ok,
}
use solo_coder.Pgproto3.Message.Frame.{framed, finish-begin}
use solo_coder.Pgproto3.Read.{read_uint32}

pub record SaslContinue : Type 0 where
  pub bytes : List ℕ

unfoldable pub decode : List ℕ → Result SaslContinue
decode src = do
  (auth_type, r) ← read_uint32 (message "authentication message too short") src
  guard (auth_type == auth_type_sasl_continue) (message "bad auth type")
  ok (record { bytes = r })

unfoldable pub encode : List ℕ → SaslContinue → Result (List ℕ)
encode dst src =
    let (dst, sp) = begin_message dst b'R' in
    let dst = append_uint32 dst auth_type_sasl_continue in
    let dst = dst ++ src.bytes in finish_message dst sp

unfoldable pub body : SaslContinue → List ℕ
body m = be32 auth_type_sasl_continue ++ m.bytes

pub encode-framed :
    (dst : List ℕ) (m : SaslContinue) → encode dst m ≡ framed dst (b'R' ∷ []) (body m)
unfolding encode body
encode-framed dst m = simp (append_uint32-be32, append_assoc) (finish-begin dst b'R' (body m))

pub decode-body : (m : SaslContinue) → decode (body m) ≡ ok m
unfolding decode body be32 read_uint32
decode-body m = refl
