-- ===== src/Pgproto3/NotificationResponse.antt =====
-- pgproto3/notification_response.go.
use solo_coder.Common.{ℕ, ◌≡◌, List, [], ◌∷◌, ◌++◌, append_assoc}
use solo_coder.Pgio.{append_uint32}
use solo_coder.Pgio.Laws.{be32, append_uint32-be32}
use solo_coder.Pgproto3.Message.{
  ◌>>=◌, begin_message, finish_message, Error, Result, eof, invalid_message_format, ok,
}
use solo_coder.Pgproto3.Message.Frame.{framed, finish-begin}
use solo_coder.Pgproto3.Read.{read_uint32, read_cstring}
use solo_coder.Pgproto3.Read.Laws.{NoNul, read_uint32-be32, read_cstring-append, IsUint32}

pub record NotificationResponse : Type 0 where
  pub pid : ℕ
  pub channel : List ℕ
  pub payload : List ℕ

abbrev bad : Error
bad = invalid_message_format "NotificationResponse" "too short"

unfoldable pub decode : List ℕ → Result NotificationResponse
decode src = do
  (pid, r) ← read_uint32 bad src
  (channel, r) ← read_cstring eof r
  (payload, r) ← read_cstring eof r
  ok (record { pid = pid; channel = channel; payload = payload })

unfoldable pub encode : List ℕ → NotificationResponse → Result (List ℕ)
encode dst src =
    let (dst, sp) = begin_message dst b'A' in
    let dst = append_uint32 dst src.pid in
    let dst = dst ++ src.channel in
    let dst = dst ++ (0 ∷ []) in
    let dst = dst ++ src.payload in let dst = dst ++ (0 ∷ []) in finish_message dst sp

pub record IsValid (m : NotificationResponse) : Type 0 where
  pub pid : IsUint32 m.pid
  pub channel : NoNul m.channel
  pub payload : NoNul m.payload

unfoldable pub body : NotificationResponse → List ℕ
body m = be32 m.pid ++ (m.channel ++ (0 ∷ (m.payload ++ (0 ∷ []))))

pub encode-framed :
    (dst : List ℕ) (m : NotificationResponse) → encode dst m ≡ framed dst (b'A' ∷ []) (body m)
unfolding encode body
encode-framed dst m = simp (append_uint32-be32, append_assoc) (finish-begin dst b'A' (body m))

pub decode-body : (m : NotificationResponse) → IsValid m → decode (body m) ≡ ok m
unfolding decode body
decode-body m v = rw (
  read_uint32-be32 bad m.pid _ v.pid,
  read_cstring-append eof m.channel _ v.channel,
  read_cstring-append eof m.payload [] v.payload,
)
