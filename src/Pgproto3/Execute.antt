-- ===== src/Pgproto3/Execute.antt =====
-- pgproto3/execute.go.
use solo_coder.Common.{ℕ, ◌≡◌, List, [], ◌∷◌, ◌++◌, append-nil, append_assoc}
use solo_coder.Pgio.{append_uint32}
use solo_coder.Pgio.Laws.{be32, append_uint32-be32}
use solo_coder.Pgproto3.Message.{
  ◌>>=◌, begin_message, finish_message, Error, Result, eof, invalid_message_format, ok,
}
use solo_coder.Pgproto3.Message.Frame.{framed, finish-begin}
use solo_coder.Pgproto3.Read.{read_uint32, read_cstring}
use solo_coder.Pgproto3.Read.Laws.{NoNul, read_uint32-be32, read_cstring-append, IsUint32}

pub record Execute : Type 0 where
  pub portal : List ℕ
  pub max_rows : ℕ

abbrev bad : Error
bad = invalid_message_format "Execute" ""

unfoldable pub decode : List ℕ → Result Execute
decode src = do
  (portal, r) ← read_cstring eof src
  (max_rows, r) ← read_uint32 bad r
  ok (record { portal = portal; max_rows = max_rows })

unfoldable pub encode : List ℕ → Execute → Result (List ℕ)
encode dst src =
    let (dst, sp) = begin_message dst b'E' in
    let dst = dst ++ src.portal in
    let dst = dst ++ (0 ∷ []) in let dst = append_uint32 dst src.max_rows in finish_message dst sp

pub record IsValid (m : Execute) : Type 0 where
  pub portal : NoNul m.portal
  pub max_rows : IsUint32 m.max_rows

unfoldable pub body : Execute → List ℕ
body m = m.portal ++ (0 ∷ be32 m.max_rows)

pub encode-framed : (dst : List ℕ) (m : Execute) → encode dst m ≡ framed dst (b'E' ∷ []) (body m)
unfolding encode body
encode-framed dst m = simp (append_uint32-be32, append_assoc) (finish-begin dst b'E' (body m))

pub decode-body : (m : Execute) → IsValid m → decode (body m) ≡ ok m
unfolding decode body
decode-body m v = rw (
  read_cstring-append eof m.portal _ v.portal,
  (rw append-nil at (read_uint32-be32 bad m.max_rows [] v.max_rows)),
)
