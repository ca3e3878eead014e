-- ===== src/Pgproto3/SaslResponse.antt =====
-- pgproto3/sasl_response.go.
use solo_coder.Common.{ℕ, ◌≡◌, refl, List, [], ◌∷◌, ◌++◌}
use solo_coder.Pgproto3.Message.{begin_message, finish_message, Result, ok}
use solo_coder.Pgproto3.Message.Frame.{framed, finish-begin}

pub record SaslResponse : Type 0 where
  pub bytes : List ℕ

unfoldable pub decode : List ℕ → Result SaslResponse
decode src = ok (record { bytes = src })

unfoldable pub encode : List ℕ → SaslResponse → Result (List ℕ)
encode dst src =
    let (dst, sp) = begin_message dst b'p' in let dst = dst ++ src.bytes in finish_message dst sp

unfoldable pub body : SaslResponse → List ℕ
body m = m.bytes

pub encode-framed :
    (dst : List ℕ) (m : SaslResponse) → encode dst m ≡ framed dst (b'p' ∷ []) (body m)
unfolding encode body
encode-framed dst m = finish-begin dst b'p' (body m)

pub decode-body : (m : SaslResponse) → decode (body m) ≡ ok m
unfolding decode body
decode-body m = refl
