-- ===== src/Pgproto3/Read.antt =====
-- The steps that the `Decode` methods of pgproto3 share. A slice `src[rp:]`, or what is left in a
-- bytes.Buffer, is the list of the bytes not yet read; each step carries the length check in front
-- of it, and returns the error `e` where that check fails.
pub mod Laws
use mathlib.Core.Option
use solo_coder.Common.{
  ℕ, zero, suc, ◌+◌, ◌*◌, List, [], ◌∷◌, ◌++◌, Option, none, some, length, take, drop, ltb, ◌==◌,
  if◌then◌else◌,
}
use solo_coder.Common.Int.{ℤ, pos, negsuc}
use solo_coder.Pgio.{int16_of, int32_of, append_int32}
use solo_coder.Pgio.Laws.{from_be16, from_be32}
use solo_coder.Pgproto3.Message.{Error, Result, ok, err, ◌>>=◌}

-- `math.MaxUint16`.
abbrev pub max_uint16 : ℕ
max_uint16 = 65535

-- `binary.BigEndian.Uint16` behind `len(src[rp:]) < 2`.
unfoldable pub read_uint16 : Error → List ℕ → Result (ℕ × List ℕ)
read_uint16 e [] = err e
read_uint16 e (a ∷ []) = err e
read_uint16 e (a ∷ b ∷ rest) = ok (from_be16 a b, rest)

-- `binary.BigEndian.Uint32` behind `len(src[rp:]) < 4`.
unfoldable pub read_uint32 : Error → List ℕ → Result (ℕ × List ℕ)
read_uint32 e (a ∷ b ∷ c ∷ d ∷ rest) = ok (from_be32 a b c d, rest)
read_uint32 e _ = err e

-- `bytes.IndexByte(src, 0)`; `none` is -1.
unfoldable pub index_nul : List ℕ → Option ℕ
index_nul [] = none
index_nul (b ∷ src) = if b == 0 then some 0 else Option.map suc (index_nul src)

-- The string before the next zero byte, and what follows that byte:
-- `idx := bytes.IndexByte(src[rp:], 0); s := src[rp : rp+idx]; rp += idx + 1`, and
-- `b, err := buf.ReadBytes(0); s := b[:len(b)-1]`.
unfoldable pub read_cstring : Error → List ℕ → Result (List ℕ × List ℕ)
read_cstring e src = elim (index_nul src) [
  | none ↦ err e
  | some idx ↦ ok (take idx src, drop (idx + 1) src)
]

-- `if idx := bytes.IndexByte(src, 0); idx != len(src)-1 { return e }; s := src[:idx]`, for a `src`
-- that is not empty: the string takes all of it.
unfoldable pub read_last_cstring : Error → List ℕ → Result (List ℕ)
read_last_cstring e src = elim (index_nul src) [
  | none ↦ err e
  | some idx ↦ if idx + 1 == length src then ok (take idx src) else err e
]

-- One byte behind a length check.
unfoldable pub read_byte : Error → List ℕ → Result (ℕ × List ℕ)
read_byte e [] = err e
read_byte e (b ∷ src) = ok (b, src)

-- `src[rp : rp+n]` behind `len(src[rp:]) < n`.
unfoldable pub read_bytes : Error → ℕ → List ℕ → Result (List ℕ × List ℕ)
read_bytes e n src = if ltb (length src) n then err e else ok (take n src, drop n src)

-- `for range n`: n rounds, or up to the first error.
unfoldable pub read_many {ℓ} :
    {A : Type ℓ} → (List ℕ → Result (A × List ℕ)) → ℕ → List ℕ → Result (List A × List ℕ)
read_many read zero src = ok ([], src)
read_many read (suc n) src = do
  (x, rest) ← read src
  (xs, rest') ← read_many read n rest
  ok (x ∷ xs, rest')

-- `len(src[rp:]) < n*2` in front of a loop that reads n codes of two bytes.
unfoldable pub read_uint16s : Error → ℕ → List ℕ → Result (List ℕ × List ℕ)
read_uint16s e n src = if ltb (length src) (n * 2) then err e else read_many (read_uint16 e) n src

unfoldable pub read_int16 : Error → List ℕ → Result (ℤ × List ℕ)
read_int16 e src = do (n, rest) ← read_uint16 e src; ok (int16_of n, rest)

unfoldable pub read_int32 : Error → List ℕ → Result (ℤ × List ℕ)
read_int32 e src = do (n, rest) ← read_uint32 e src; ok (int32_of n, rest)

unfoldable pub read_int16s : Error → ℕ → List ℕ → Result (List ℤ × List ℕ)
read_int16s e n src = if ltb (length src) (n * 2) then err e else read_many (read_int16 e) n src

-- A value behind its length: -1 stands for NULL, which is Go's nil slice.
unfoldable pub sized_value : Error → ℤ → List ℕ → Result (Option (List ℕ) × List ℕ)
sized_value e (pos n) src = do (v, rest) ← read_bytes e n src; ok (some v, rest)
sized_value e (negsuc zero) src = ok (none, src)
sized_value e (negsuc (suc n)) src = err e

unfoldable pub read_value : Error → List ℕ → Result (Option (List ℕ) × List ℕ)
read_value e src = do (size, rest) ← read_uint32 e src; sized_value e (int32_of size) rest

unfoldable pub append_value : List ℕ → Option (List ℕ) → List ℕ
append_value dst none = append_int32 dst (negsuc 0)
append_value dst (some v) = append_int32 dst (pos (length v)) ++ v
