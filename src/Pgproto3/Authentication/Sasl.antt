-- ===== src/Pgproto3/Authentication/Sasl.antt =====
-- pgproto3/authentication_sasl.go.
use mathlib.Core.List.{foldl}
use solo_coder.Common.{
  ℕ, zero, suc, ◌+◌, ◌≤◌, ◌≡◌, refl, true, List, [], ◌∷◌, ◌++◌, append_assoc, arith, ltb, ◌==◌,
  if◌then◌else◌, length, All, length-append,
}
use solo_coder.Pgio.{append_uint32}
use solo_coder.Pgio.Laws.{be32, append_uint32-be32}
use solo_coder.Pgproto3.Authentication.{auth_type_sasl}
use solo_coder.Pgproto3.Message.{
  ◌>>=◌, ◌>>◌, guard, begin_message, finish_message, Error, Result, invalid_message_format, message,
  ok,
}
use solo_coder.Pgproto3.Message.Frame.{framed, finish-begin}
use solo_coder.Pgproto3.Read.{read_uint32, read_cstring}
use solo_coder.Pgproto3.Read.Laws.{
  NoNul, cstring_bytes, length-cstring_bytes, read_cstring-bytes, flat, foldl-flat,
}

pub record Sasl : Type 0 where
  pub auth_mechanisms : List (List ℕ)

abbrev unterminated : Error
unterminated = invalid_message_format "AuthenticationSASL" "unterminated string"

-- The loop over the names, while more than one byte is left. Each round takes a byte at least, so
-- as much fuel as there are bytes is enough.
unfoldable pub read_mechanisms : ℕ → List ℕ → Result (List (List ℕ))
read_mechanisms zero src = ok []
read_mechanisms (suc fuel) src =
    let more = (do
      (name, r) ← read_cstring unterminated src
      names ← read_mechanisms fuel r
      ok (name ∷ names)) in
    if ltb 1 (length src) then more else ok []

unfoldable pub decode : List ℕ → Result Sasl
decode src = do
  (auth_type, r) ← read_uint32 (message "authentication message too short") src
  guard (auth_type == auth_type_sasl) (message "bad auth type")
  auth_mechanisms ← read_mechanisms (length r) r
  ok (record { auth_mechanisms = auth_mechanisms })

-- One round of the loop of `encode`.
unfoldable pub append_mechanism : List ℕ → List ℕ → List ℕ
append_mechanism dst s = let dst = dst ++ s in dst ++ (0 ∷ [])

unfoldable pub encode : List ℕ → Sasl → Result (List ℕ)
encode dst src =
    let (dst, sp) = begin_message dst b'R' in
    let dst = append_uint32 dst auth_type_sasl in
    let dst = foldl append_mechanism dst src.auth_mechanisms in
    let dst = dst ++ (0 ∷ []) in finish_message dst sp

abbrev pub IsValid : Sasl → Type 0
IsValid m = All NoNul m.auth_mechanisms

unfoldable pub body : Sasl → List ℕ
body m = be32 auth_type_sasl ++ (flat cstring_bytes m.auth_mechanisms ++ (0 ∷ []))

append_mechanism-bytes : (dst s : List ℕ) → append_mechanism dst s ≡ dst ++ cstring_bytes s
unfolding append_mechanism cstring_bytes
append_mechanism-bytes dst s = append_assoc dst s (0 ∷ [])

pub encode-framed : (dst : List ℕ) (m : Sasl) → encode dst m ≡ framed dst (b'R' ∷ []) (body m)
unfolding encode body
encode-framed dst m =
    simp (append_uint32-be32, foldl-flat _ cstring_bytes append_mechanism-bytes, append_assoc)
      (finish-begin dst b'R' (body m))

-- The loop reads all the names, with any fuel that is at least the number of bytes.
pub read_mechanisms-flat :
    (fuel : ℕ) (names : List (List ℕ))
    → All NoNul names
    → length (flat cstring_bytes names ++ (0 ∷ [])) ≤ fuel
    → read_mechanisms fuel (flat cstring_bytes names ++ (0 ∷ [])) ≡ ok names
unfolding read_mechanisms flat
read_mechanisms-flat zero [] v h = refl
read_mechanisms-flat zero (s ∷ names) v h =
    absurd (omega (arith, length-append (flat cstring_bytes (s ∷ names)) (0 ∷ [])))
read_mechanisms-flat (suc fuel) [] v h = refl
read_mechanisms-flat (suc fuel) (s ∷ names) v h =
    let rest = flat cstring_bytes names ++ (0 ∷ []) in
    let size : length ((cstring_bytes s ++ flat cstring_bytes names) ++ (0 ∷ []))
        ≡ length s + 1 + length rest =
      rw (append_assoc, length-append (cstring_bytes s), length-cstring_bytes s) in
    let more : ltb 1 (length ((cstring_bytes s ++ flat cstring_bytes names) ++ (0 ∷ []))) ≡ true =
      ground (arith, length-append (flat cstring_bytes names) (0 ∷ [])) in
    rw more (
      rw (
        append_assoc,
        read_cstring-bytes _ s rest v.0,
        read_mechanisms-flat fuel names v.1 (omega arith),
      ))

pub decode-body : (m : Sasl) → IsValid m → decode (body m) ≡ ok m
unfolding decode body be32 read_uint32
decode-body m v = rw (
    read_mechanisms-flat (length (flat cstring_bytes m.auth_mechanisms ++ (0 ∷ [])))
      m.auth_mechanisms v (omega arith))

-- An AuthenticationSASL with names free of zero bytes is encoded behind what the buffer holds as
-- a frame with its body, or refused where the frame would be too long; `decode` reads the same
-- message back from the body.
pub sasl_round_trip :
    (dst : List ℕ) (m : Sasl)
    → IsValid m
    → (encode dst m ≡ framed dst (b'R' ∷ []) (body m)) × (decode (body m) ≡ ok m)
sasl_round_trip dst m v = (encode-framed dst m, decode-body m v)
