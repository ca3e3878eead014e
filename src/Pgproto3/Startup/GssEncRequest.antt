-- ===== src/Pgproto3/Startup/GssEncRequest.antt =====
-- pgproto3/gss_enc_request.go.
use solo_coder.Common.{ℕ, ◌≡◌, refl, List, [], append_assoc, ◌==◌}
use solo_coder.Common.Int.{pos}
use solo_coder.Pgio.{uint32_of, append_int32}
use solo_coder.Pgio.Laws.{be32, append_int32-be32}
use solo_coder.Pgproto3.Message.{◌>>=◌, ◌>>◌, guard, Result, message, ok}
use solo_coder.Pgproto3.Message.Frame.{sized, framed}
use solo_coder.Pgproto3.Read.{read_uint32}
use solo_coder.Pgproto3.Startup.{gss_enc_req_number}

unfoldable pub decode : List ℕ → Result (Unit {0})
decode src = do
  (request_code, r) ← read_uint32 (message "gss encoding request too short") src
  guard (request_code == gss_enc_req_number) (message "bad gss encoding request code")
  ok tt

unfoldable pub encode : List ℕ → Result (List ℕ)
encode dst = let dst = append_int32 dst (pos 8) in ok (append_int32 dst (pos gss_enc_req_number))

unfoldable pub body : List ℕ
body = be32 gss_enc_req_number

pub encode-framed : (dst : List ℕ) → encode dst ≡ framed dst [] body
unfolding encode body sized be32 uint32_of
encode-framed dst = rw (append_int32-be32, append_int32-be32, append_assoc)

pub decode-body : decode body ≡ ok tt
unfolding decode body be32 read_uint32
decode-body = refl
