-- ===== src/Pgproto3/Startup/CancelRequest.antt =====
-- pgproto3/cancel_request.go.
use solo_coder.Common.{
  ℕ, ◌+◌, ◌≤◌, ◌≡◌, refl, true, false, List, [], ◌++◌, append_assoc, arith, ltb, leb, ◌==◌, length,
}
use solo_coder.Common.Int.{pos}
use solo_coder.Pgio.{uint32_of, append_uint32, append_int32}
use solo_coder.Pgio.Laws.{be32, append_uint32-be32, append_int32-be32}
use solo_coder.Pgproto3.Message.{◌>>=◌, ◌>>◌, guard, max_message_body_len, Result, message, ok}
use solo_coder.Pgproto3.Message.Frame.{sized, framed}
use solo_coder.Pgproto3.Read.{read_uint32}
use solo_coder.Pgproto3.Read.Laws.{read_uint32-be32, IsUint32}
use solo_coder.Pgproto3.Startup.{cancel_request_code}

pub record CancelRequest : Type 0 where
  pub process_id : ℕ
  pub secret_key : List ℕ

unfoldable pub decode : List ℕ → Result CancelRequest
decode src = do
  let short = message "cancel request too short"
  guard (leb 12 (length src)) short
  guard (leb (length src) 264) (message "cancel request too long")
  (request_code, r) ← read_uint32 short src
  guard (request_code == cancel_request_code) (message "bad cancel request code")
  (process_id, r) ← read_uint32 short r
  ok (record { process_id = process_id; secret_key = r })

unfoldable pub encode : List ℕ → CancelRequest → Result (List ℕ)
encode dst src = do
  guard (leb (length src.secret_key) 256) (message "secret key too long")
  let dst = append_int32 dst (pos (12 + length src.secret_key))
  let dst = append_int32 dst (pos cancel_request_code)
  let dst = append_uint32 dst src.process_id
  ok (dst ++ src.secret_key)

-- A key of 4 to 256 bytes. A shorter one can be encoded, and the decoder refuses it.
pub record IsValid (m : CancelRequest) : Type 0 where
  pub process_id : IsUint32 m.process_id
  pub long : 4 ≤ length m.secret_key
  pub short : length m.secret_key ≤ 256

unfoldable pub body : CancelRequest → List ℕ
body m = be32 cancel_request_code ++ (be32 m.process_id ++ m.secret_key)

pub length-body : (m : CancelRequest) → length (body m) ≡ 8 + length m.secret_key
unfolding body be32
length-body m = omega arith

pub encode-framed :
    (dst : List ℕ) (m : CancelRequest) → IsValid m → encode dst m ≡ framed dst [] (body m)
unfolding encode sized
encode-framed dst m v =
    let fits : leb (length m.secret_key) 256 ≡ true = ground arith in
    let size : 4 + length (body m) ≡ 12 + length m.secret_key = omega (arith, length-body m) in
    let small : ltb max_message_body_len (12 + length m.secret_key) ≡ false = ground arith in
    rw (fits, size, small)
      (unfold body in
        simp (append_uint32-be32, append_int32-be32, append_assoc) (unfold uint32_of in refl))

pub decode-body : (m : CancelRequest) → IsValid m → decode (body m) ≡ ok m
unfolding decode
decode-body m v =
    let fits : leb 12 (length (body m)) ≡ true = ground (arith, length-body m) in
    let small : leb (length (body m)) 264 ≡ true = ground (arith, length-body m) in
    rw (fits, small)
      (unfold body in
        rw (
          read_uint32-be32 _ cancel_request_code _ (omega arith),
          read_uint32-be32 _ m.process_id m.secret_key v.process_id,
        ))
