-- ===== src/Pgio/Laws.antt =====
-- The encodings of internal/pgio/write.go as fixed byte strings, and the readers that undo them.
use solo_coder.Common.{ℕ, ◌+◌, ◌*◌, ◌^◌, ◌<◌, ◌≡◌, refl, List, [], ◌∷◌, ◌++◌, arith, length}
use solo_coder.Common.Int.{ℤ, pos, negsuc}
use solo_coder.Pgio.{
  byte_at, uint16_of, uint32_of, int16_of, int32_of, append_uint16, append_uint32, append_int16,
  append_int32,
}

-- The big-endian bytes of an unsigned integer.
unfoldable pub be16 : ℕ → List ℕ
be16 n = byte_at n 8 ∷ byte_at n 0 ∷ []

unfoldable pub be32 : ℕ → List ℕ
be32 n = byte_at n 24 ∷ byte_at n 16 ∷ byte_at n 8 ∷ byte_at n 0 ∷ []

-- `binary.BigEndian.Uint16` and `Uint32` on the bytes that they read.
abbrev pub from_be16 : ℕ → ℕ → ℕ
from_be16 a b = a * 256 + b

abbrev pub from_be32 : ℕ → ℕ → ℕ → ℕ → ℕ
from_be32 a b c d = ((a * 256 + b) * 256 + c) * 256 + d

pub from_be16-be16 : (n : ℕ) → n < 2 ^ 16 → from_be16 (byte_at n 8) (byte_at n 0) ≡ n
from_be16-be16 n h = omega arith

pub from_be32-be32 :
    (n : ℕ) → n < 2 ^ 32 → from_be32 (byte_at n 24) (byte_at n 16) (byte_at n 8) (byte_at n 0) ≡ n
from_be32-be32 n h = omega arith

pub append_uint16-be16 : (buf : List ℕ) (n : ℕ) → append_uint16 buf n ≡ buf ++ be16 n
unfolding append_uint16 be16
append_uint16-be16 buf n = refl

pub append_uint32-be32 : (buf : List ℕ) (n : ℕ) → append_uint32 buf n ≡ buf ++ be32 n
unfolding append_uint32 be32
append_uint32-be32 buf n = refl

pub append_int16-be16 : (buf : List ℕ) (n : ℤ) → append_int16 buf n ≡ buf ++ be16 (uint16_of n)
unfolding append_int16
append_int16-be16 buf n = append_uint16-be16 buf (uint16_of n)

pub append_int32-be32 : (buf : List ℕ) (n : ℤ) → append_int32 buf n ≡ buf ++ be32 (uint32_of n)
unfolding append_int32
append_int32-be32 buf n = append_uint32-be32 buf (uint32_of n)

pub length-be16 : (n : ℕ) → length (be16 n) ≡ 2
unfolding be16
length-be16 n = refl

pub length-be32 : (n : ℕ) → length (be32 n) ≡ 4
unfolding be32
length-be32 n = refl

-- The value of a 32-bit pattern, read back: the ranges are those of Go's types.
pub int32_of-uint32_of_pos : (n : ℕ) → n < 2 ^ 31 → int32_of (uint32_of (pos n)) ≡ pos n
unfolding int32_of uint32_of
int32_of-uint32_of_pos n h = ground arith

pub uint32_of-int32_of : (n : ℕ) → n < 2 ^ 32 → uint32_of (int32_of n) ≡ n
unfolding int32_of uint32_of
uint32_of-int32_of n h = ground arith

pub uint32_of_lt : (n : ℤ) → uint32_of n < 2 ^ 32
unfolding uint32_of
uint32_of_lt (pos n) = omega arith
uint32_of_lt (negsuc n) = omega arith

pub uint16_of_lt : (n : ℤ) → uint16_of n < 2 ^ 16
unfolding uint16_of
uint16_of_lt (pos n) = omega arith
uint16_of_lt (negsuc n) = omega arith

-- The integers that an int16 and an int32 hold.
abbrev pub IsInt16 : ℤ → Type 0
IsInt16 (pos n) = n < 2 ^ 15
IsInt16 (negsuc n) = n < 2 ^ 15

abbrev pub IsInt32 : ℤ → Type 0
IsInt32 (pos n) = n < 2 ^ 31
IsInt32 (negsuc n) = n < 2 ^ 31

pub int16_of-uint16_of : (n : ℤ) → IsInt16 n → int16_of (uint16_of n) ≡ n
unfolding int16_of uint16_of
int16_of-uint16_of (pos n) h = ground arith
int16_of-uint16_of (negsuc n) h = ground arith

pub int32_of-uint32_of : (n : ℤ) → IsInt32 n → int32_of (uint32_of n) ≡ n
unfolding int32_of uint32_of
int32_of-uint32_of (pos n) h = ground arith
int32_of-uint32_of (negsuc n) h = ground arith
