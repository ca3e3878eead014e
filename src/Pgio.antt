-- ===== src/Pgio.antt =====
-- internal/pgio/write.go: big-endian integers appended to a byte slice. A byte slice is a list of
-- numbers; an unsigned w-bit integer is a number, a signed one a ℤ.
pub mod Laws
use solo_coder.Common.{
  ℕ, ◌+◌, ◌-◌, ◌/◌, ◌%◌, ◌^◌, List, [], ◌∷◌, ◌++◌, take, drop, ltb, if◌then◌else◌,
}
use solo_coder.Common.Int.{ℤ, pos, negsuc}

-- `byte(n >> k)`.
abbrev pub byte_at : ℕ → ℕ → ℕ
byte_at n k = n / 2 ^ k % 256

-- `uint16(n)` and `uint32(n)` of a signed integer: its two's complement.
unfoldable pub uint16_of : ℤ → ℕ
uint16_of (pos n) = n % 2 ^ 16
uint16_of (negsuc n) = 2 ^ 16 - 1 - n % 2 ^ 16

unfoldable pub uint32_of : ℤ → ℕ
uint32_of (pos n) = n % 2 ^ 32
uint32_of (negsuc n) = 2 ^ 32 - 1 - n % 2 ^ 32

unfoldable pub uint64_of : ℤ → ℕ
uint64_of (pos n) = n % 2 ^ 64
uint64_of (negsuc n) = 2 ^ 64 - 1 - n % 2 ^ 64

-- `int16(n)` and `int32(n)` of an unsigned integer of that width.
unfoldable pub int16_of : ℕ → ℤ
int16_of n = if ltb n (2 ^ 15) then pos n else negsuc (2 ^ 16 - 1 - n)

unfoldable pub int32_of : ℕ → ℤ
int32_of n = if ltb n (2 ^ 31) then pos n else negsuc (2 ^ 32 - 1 - n)

unfoldable pub append_uint16 : List ℕ → ℕ → List ℕ
append_uint16 buf n = buf ++ (byte_at n 8 ∷ byte_at n 0 ∷ [])

unfoldable pub append_uint32 : List ℕ → ℕ → List ℕ
append_uint32 buf n = buf ++ (byte_at n 24 ∷ byte_at n 16 ∷ byte_at n 8 ∷ byte_at n 0 ∷ [])

unfoldable pub append_uint64 : List ℕ → ℕ → List ℕ
append_uint64 buf n =
    buf
    ++ (byte_at n 56
        ∷ byte_at n 48
        ∷ byte_at n 40
        ∷ byte_at n 32
        ∷ byte_at n 24
        ∷ byte_at n 16
        ∷ byte_at n 8
        ∷ byte_at n 0
        ∷ [])

unfoldable pub append_int16 : List ℕ → ℤ → List ℕ
append_int16 buf n = append_uint16 buf (uint16_of n)

unfoldable pub append_int32 : List ℕ → ℤ → List ℕ
append_int32 buf n = append_uint32 buf (uint32_of n)

unfoldable pub append_int64 : List ℕ → ℤ → List ℕ
append_int64 buf n = append_uint64 buf (uint64_of n)

-- `SetInt32(buf[at:], n)`: the four bytes at `at` are overwritten.
unfoldable pub set_int32 : List ℕ → ℕ → ℤ → List ℕ
set_int32 buf at n = append_uint32 (take at buf) (uint32_of n) ++ drop (at + 4) buf
