-- ===== src/Pgtype/Integers/Laws.antt =====
-- Integers of a size, converted, written and read.
use solo_coder.Pgio.{uint64_of, append_uint64, append_int64}
use solo_coder.Common.{refl, ◌*◌, [], ◌≤◌, List, ℕ, ◌-◌, ◌^◌, ◌<◌, ◌≡◌, arith}
use solo_coder.Common.Int.{ℤ, pos, negsuc}
use solo_coder.Pgio.Laws.{be16, be32}
use solo_coder.Pgtype.Integers.{Width, w8, w16, w32, w64, bits, to_unsigned, convert, big_endian}

-- The integers that intN holds, and those that uintN holds.
abbrev pub IsInt : Width → ℤ → Type 0
IsInt w (pos n) = n < 2 ^ (bits w - 1)
IsInt w (negsuc n) = n < 2 ^ (bits w - 1)

abbrev pub IsUint : Width → ℤ → Type 0
IsUint w (pos n) = n < 2 ^ bits w
IsUint w (negsuc n) = ⊥

pub convert-IsInt : (w : Width) (n : ℤ) → IsInt w n → convert w n ≡ n
convert-IsInt w8 (pos n) h = ground arith
convert-IsInt w16 (pos n) h = ground arith
convert-IsInt w32 (pos n) h = ground arith
convert-IsInt w64 (pos n) h = ground arith
convert-IsInt w8 (negsuc n) h = ground arith
convert-IsInt w16 (negsuc n) h = ground arith
convert-IsInt w32 (negsuc n) h = ground arith
convert-IsInt w64 (negsuc n) h = ground arith

pub to_unsigned-IsUint : (w : Width) (n : ℤ) → IsUint w n → pos (to_unsigned w n) ≡ n
to_unsigned-IsUint w8 (pos n) h = ground arith
to_unsigned-IsUint w16 (pos n) h = ground arith
to_unsigned-IsUint w32 (pos n) h = ground arith
to_unsigned-IsUint w64 (pos n) h = ground arith
to_unsigned-IsUint w (negsuc n) h = absurd h

pub big_endian-be16 : (n : ℕ) → n < 2 ^ 16 → big_endian 0 (be16 n) ≡ n
unfolding big_endian be16
big_endian-be16 n h = omega (arith, h)

pub big_endian-be32 : (n : ℕ) → n < 2 ^ 32 → big_endian 0 (be32 n) ≡ n
unfolding big_endian be32
big_endian-be32 n h = omega (arith, h)

unfoldable pub be64 : ℕ → List ℕ
be64 n = append_uint64 [] n

pub append_int64-be64 : (n : ℤ) → append_int64 [] n ≡ be64 (to_unsigned w64 n)
unfolding append_int64 be64 uint64_of
append_int64-be64 (pos n) = refl
append_int64-be64 (negsuc n) = refl

pub big_endian-be64 : (n : ℕ) → n < 2 ^ 64 → big_endian 0 (be64 n) ≡ n
unfolding big_endian be64 append_uint64
big_endian-be64 n h = omega (arith, h)

-- The number of values of a size.
pub values_of : (w : Width) → (256 ≤ 2 ^ bits w) × (2 ^ bits w ≡ 2 * 2 ^ (bits w - 1))
values_of w8 = (omega arith, refl)
values_of w16 = (omega arith, refl)
values_of w32 = (omega arith, refl)
values_of w64 = (omega arith, refl)

pub to_unsigned_lt : (w : Width) (n : ℤ) → to_unsigned w n < 2 ^ bits w
to_unsigned_lt w8 (pos n) = omega arith
to_unsigned_lt w8 (negsuc n) = omega arith
to_unsigned_lt w16 (pos n) = omega arith
to_unsigned_lt w16 (negsuc n) = omega arith
to_unsigned_lt w32 (pos n) = omega arith
to_unsigned_lt w32 (negsuc n) = omega arith
to_unsigned_lt w64 (pos n) = omega arith
to_unsigned_lt w64 (negsuc n) = omega arith
