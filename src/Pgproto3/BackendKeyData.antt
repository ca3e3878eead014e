-- ===== src/Pgproto3/BackendKeyData.antt =====
-- pgproto3/backend_key_data.go.
use solo_coder.Common.{
  ℕ, ◌≤◌, ◌≡◌, true, List, [], ◌∷◌, ◌++◌, append_assoc, arith, leb, length, length-append,
}
use solo_coder.Pgio.{append_uint32}
use solo_coder.Pgio.Laws.{be32, append_uint32-be32, length-be32}
use solo_coder.Pgproto3.Message.{
  ◌>>=◌, ◌>>◌, guard, begin_message, finish_message, Result, invalid_message_len, ok,
}
use solo_coder.Pgproto3.Message.Frame.{framed, finish-begin}
use solo_coder.Pgproto3.Read.{read_uint32}
use solo_coder.Pgproto3.Read.Laws.{read_uint32-be32, IsUint32}

pub record BackendKeyData : Type 0 where
  pub process_id : ℕ
  pub secret_key : List ℕ

unfoldable pub decode : List ℕ → Result BackendKeyData
decode src = do
  let short = invalid_message_len "BackendKeyData" 8 (length src)
  guard (leb 8 (length src)) short
  (process_id, r) ← read_uint32 short src
  ok (record { process_id = process_id; secret_key = r })

unfoldable pub encode : List ℕ → BackendKeyData → Result (List ℕ)
encode dst src =
    let (dst, sp) = begin_message dst b'K' in
    let dst = append_uint32 dst src.process_id in
    let dst = dst ++ src.secret_key in finish_message dst sp

-- A key of fewer than four bytes can be encoded, and the decoder refuses it.
pub record IsValid (m : BackendKeyData) : Type 0 where
  pub process_id : IsUint32 m.process_id
  pub secret_key : 4 ≤ length m.secret_key

unfoldable pub body : BackendKeyData → List ℕ
body m = be32 m.process_id ++ m.secret_key

pub encode-framed :
    (dst : List ℕ) (m : BackendKeyData) → encode dst m ≡ framed dst (b'K' ∷ []) (body m)
unfolding encode body
encode-framed dst m = simp (append_uint32-be32, append_assoc) (finish-begin dst b'K' (body m))

pub decode-body : (m : BackendKeyData) → IsValid m → decode (body m) ≡ ok m
unfolding decode body
decode-body m v =
    let long : leb 8 (length (be32 m.process_id ++ m.secret_key)) ≡ true =
      ground (arith, length-append (be32 m.process_id) m.secret_key, length-be32 m.process_id) in
    rw (long, read_uint32-be32 _ m.process_id m.secret_key v.process_id)
