-- ===== src/Pgproto3/FunctionCallResponse.antt =====
-- pgproto3/function_call_response.go.
use solo_coder.Common.{
  ℕ, zero, suc, ◌≡◌, Option, none, some, List, [], ◌∷◌, append-nil, arith, ◌==◌, if◌then◌else◌,
  length,
}
use solo_coder.Common.Int.{ℤ, pos, negsuc}
use solo_coder.Pgproto3.Message.{
  ◌>>=◌, begin_message, finish_message, Error, Result, invalid_message_format, ok, err,
}
use solo_coder.Pgproto3.Message.Frame.{framed, finish-begin}
use solo_coder.Pgproto3.Read.{read_int32, append_value}
use solo_coder.Pgproto3.Read.Laws.{read_int32-be32, value_bytes, append_value-bytes, IsSendable}

-- A NULL result is `none`.
pub record FunctionCallResponse : Type 0 where
  pub result : Option (List ℕ)

abbrev bad : Error
bad = invalid_message_format "FunctionCallResponse" ""

-- The result behind its size, which must be the size of all the rest.
unfoldable pub result_of : ℤ → List ℕ → Result FunctionCallResponse
result_of (pos n) r = if length r == n then ok (record { result = some r }) else err bad
result_of (negsuc zero) r = ok (record { result = none })
result_of (negsuc (suc n)) r = err bad

unfoldable pub decode : List ℕ → Result FunctionCallResponse
decode src = do (result_size, r) ← read_int32 bad src; result_of result_size r

unfoldable pub encode : List ℕ → FunctionCallResponse → Result (List ℕ)
encode dst src =
    let (dst, sp) = begin_message dst b'V' in
    let dst = append_value dst src.result in finish_message dst sp

unfoldable pub body : FunctionCallResponse → List ℕ
body m = value_bytes m.result

pub encode-framed :
    (dst : List ℕ) (m : FunctionCallResponse) → encode dst m ≡ framed dst (b'V' ∷ []) (body m)
unfolding encode body
encode-framed dst m = simp append_value-bytes (finish-begin dst b'V' (body m))

decode-value_bytes :
    (v : Option (List ℕ)) → IsSendable v → decode (value_bytes v) ≡ ok (record { result = v })
unfolding decode value_bytes result_of
decode-value_bytes none h = rw (rw append-nil at (read_int32-be32 bad (negsuc 0) [] (omega arith)))
decode-value_bytes (some v) h = rw (read_int32-be32 bad (pos (length v)) v h) (ground arith)

pub decode-body : (m : FunctionCallResponse) → IsSendable m.result → decode (body m) ≡ ok m
unfolding body
decode-body m v = decode-value_bytes m.result v
