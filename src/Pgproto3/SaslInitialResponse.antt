-- ===== src/Pgproto3/SaslInitialResponse.antt =====
-- pgproto3/sasl_initial_response.go.
use solo_coder.Common.{ℕ, ◌≡◌, List, [], ◌∷◌, ◌++◌, append_assoc, arith, leb, length, drop}
use solo_coder.Common.Int.{pos}
use solo_coder.Pgio.{uint32_of, append_int32}
use solo_coder.Pgio.Laws.{be32, append_int32-be32}
use solo_coder.Pgproto3.Message.{
  ◌>>=◌, ◌>>◌, guard, begin_message, finish_message, Error, Result, message, ok,
}
use solo_coder.Pgproto3.Message.Frame.{framed, finish-begin}
use solo_coder.Pgproto3.Read.{read_cstring}
use solo_coder.Pgproto3.Read.Laws.{NoNul, read_cstring-append}

pub record SaslInitialResponse : Type 0 where
  pub auth_mechanism : List ℕ
  pub bytes : List ℕ

abbrev bad : Error
bad = message "invalid SASLInitialResponse"

-- The size in front of the response is skipped: the response is the rest of the message.
unfoldable pub decode : List ℕ → Result SaslInitialResponse
decode src = do
  (auth_mechanism, r) ← read_cstring bad src
  guard (leb 4 (length r)) bad
  ok (record { auth_mechanism = auth_mechanism; bytes = drop 4 r })

unfoldable pub encode : List ℕ → SaslInitialResponse → Result (List ℕ)
encode dst src =
    let (dst, sp) = begin_message dst b'p' in
    let dst = dst ++ src.auth_mechanism in
    let dst = dst ++ (0 ∷ []) in
    let dst = append_int32 dst (pos (length src.bytes)) in
    let dst = dst ++ src.bytes in finish_message dst sp

unfoldable pub body : SaslInitialResponse → List ℕ
body m = m.auth_mechanism ++ (0 ∷ (be32 (uint32_of (pos (length m.bytes))) ++ m.bytes))

pub encode-framed :
    (dst : List ℕ) (m : SaslInitialResponse) → encode dst m ≡ framed dst (b'p' ∷ []) (body m)
unfolding encode body
encode-framed dst m = simp (append_int32-be32, append_assoc) (finish-begin dst b'p' (body m))

pub decode-body : (m : SaslInitialResponse) → NoNul m.auth_mechanism → decode (body m) ≡ ok m
unfolding decode body be32
decode-body m v = rw (read_cstring-append bad m.auth_mechanism _ v) (ground arith)
