-- ===== src/Pgproto3/ReadyForQuery.antt =====
-- pgproto3/ready_for_query.go.
use solo_coder.Common.{ℕ, ◌≡◌, refl, List, [], ◌∷◌, ◌++◌, length}
use solo_coder.Pgio.{uint32_of}
use solo_coder.Pgio.Laws.{be32}
use solo_coder.Pgproto3.Message.{Result, invalid_message_len, ok, err}
use solo_coder.Pgproto3.Message.Frame.{sized, framed}

-- 'I' idle, 'T' in a transaction, 'E' in a failed one.
pub record ReadyForQuery : Type 0 where
  pub tx_status : ℕ

unfoldable pub decode : List ℕ → Result ReadyForQuery
decode (tx_status ∷ []) = ok (record { tx_status = tx_status })
decode src = err (invalid_message_len "ReadyForQuery" 1 (length src))

unfoldable pub encode : List ℕ → ReadyForQuery → Result (List ℕ)
encode dst src = ok (dst ++ (b'Z' ∷ 0 ∷ 0 ∷ 0 ∷ 5 ∷ src.tx_status ∷ []))

unfoldable pub body : ReadyForQuery → List ℕ
body m = m.tx_status ∷ []

pub encode-framed :
    (dst : List ℕ) (m : ReadyForQuery) → encode dst m ≡ framed dst (b'Z' ∷ []) (body m)
unfolding encode body sized be32 uint32_of
encode-framed dst m = refl

pub decode-body : (m : ReadyForQuery) → decode (body m) ≡ ok m
unfolding decode body
decode-body m = refl
