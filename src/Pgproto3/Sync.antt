-- ===== src/Pgproto3/Sync.antt =====
-- pgproto3/sync.go: a message with no body.
use solo_coder.Common.{ℕ, ◌≡◌, refl, List, [], ◌∷◌, ◌++◌, ◌==◌, length}
use solo_coder.Pgio.{uint32_of}
use solo_coder.Pgio.Laws.{be32}
use solo_coder.Pgproto3.Message.{◌>>◌, guard, Result, invalid_message_len, ok}
use solo_coder.Pgproto3.Message.Frame.{sized, framed}

unfoldable pub decode : List ℕ → Result (Unit {0})
decode src = do guard (length src == 0) (invalid_message_len "Sync" 0 (length src)); ok tt

unfoldable pub encode : List ℕ → Result (List ℕ)
encode dst = ok (dst ++ (b'S' ∷ 0 ∷ 0 ∷ 0 ∷ 4 ∷ []))

pub encode-framed : (dst : List ℕ) → encode dst ≡ framed dst (b'S' ∷ []) []
unfolding encode sized be32 uint32_of
encode-framed dst = refl

pub decode-body : decode [] ≡ ok tt
unfolding decode
decode-body = refl
