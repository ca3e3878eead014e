-- ===== src/Pgproto3/CopyData.antt =====
-- pgproto3/copy_data.go.
use solo_coder.Common.{ℕ, ◌≡◌, refl, List, [], ◌∷◌, ◌++◌}
use solo_coder.Pgproto3.Message.{begin_message, finish_message, Result, ok}
use solo_coder.Pgproto3.Message.Frame.{framed, finish-begin}

pub record CopyData : Type 0 where
  pub bytes : List ℕ

unfoldable pub decode : List ℕ → Result CopyData
decode src = ok (record { bytes = src })

unfoldable pub encode : List ℕ → CopyData → Result (List ℕ)
encode dst src =
    let (dst, sp) = begin_message dst b'd' in let dst = dst ++ src.bytes in finish_message dst sp

unfoldable pub body : CopyData → List ℕ
body m = m.bytes

pub encode-framed : (dst : List ℕ) (m : CopyData) → encode dst m ≡ framed dst (b'd' ∷ []) (body m)
unfolding encode body
encode-framed dst m = finish-begin dst b'd' (body m)

pub decode-body : (m : CopyData) → decode (body m) ≡ ok m
unfolding decode body
decode-body m = refl
