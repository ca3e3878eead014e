-- ===== src/Pgtype/Integers.antt =====
-- Go's integer types and the parts of packages strconv and encoding/binary that pgtype/int.go uses.
pub mod Laws
pub mod Decimal
use solo_coder.Common.{
  ℕ, zero, suc, ◌+◌, ◌-◌, ◌*◌, ◌%◌, ◌^◌, Bool, true, false, ◌&&◌, List, [], ◌∷◌, ltb, leb, ◌==◌,
  if◌then◌else◌,
}
use solo_coder.Common.Int.{ℤ, pos, negsuc}
use solo_coder.Pgproto3.Decimal.{digits}

-- The sizes of Go's integer types; `int` and `uint` have 64 bits.
pub data Width : Type 0 where
  w8 w16 w32 w64 : Width

abbrev pub bits : Width → ℕ
bits w8 = 8
bits w16 = 16
bits w32 = 32
bits w64 = 64

-- `uintN(n)`.
abbrev pub to_unsigned : Width → ℤ → ℕ
to_unsigned w (pos n) = n % 2 ^ bits w
to_unsigned w (negsuc n) = 2 ^ bits w - 1 - n % 2 ^ bits w

-- `intN(n)` of an unsigned integer of that size.
abbrev pub to_signed : Width → ℕ → ℤ
to_signed w n = if ltb n (2 ^ (bits w - 1)) then pos n else negsuc (2 ^ bits w - 1 - n)

-- `intN(n)` of a signed integer of any size.
abbrev pub convert : Width → ℤ → ℤ
convert w n = to_signed w (to_unsigned w n)

-- `a < b`.
abbrev pub ltb_int : ℤ → ℤ → Bool
ltb_int (pos a) (pos b) = ltb a b
ltb_int (pos a) (negsuc b) = false
ltb_int (negsuc a) (pos b) = true
ltb_int (negsuc a) (negsuc b) = ltb b a

-- math.MinInt8 to MinInt64, MaxInt8 to MaxInt64, MaxUint8 to MaxUint64.
abbrev pub min_int : Width → ℤ
min_int w = negsuc (2 ^ (bits w - 1) - 1)

abbrev pub max_int : Width → ℤ
max_int w = pos (2 ^ (bits w - 1) - 1)

abbrev pub max_uint : Width → ℤ
max_uint w = pos (2 ^ bits w - 1)

-- `binary.BigEndian.Uint16`, `Uint32` and `Uint64`, of as many bytes as they read.
unfoldable pub big_endian : ℕ → List ℕ → ℕ
big_endian n [] = n
big_endian n (b ∷ s) = big_endian (n * 256 + b) s

-- `strconv.FormatInt(n, 10)` of an int64, which has nineteen digits at most.
unfoldable pub format_int : ℤ → List ℕ
format_int (pos n) = digits 19 n
format_int (negsuc n) = b'-' ∷ digits 19 (suc n)

-- What `strconv.ParseInt` and `ParseUint` return.
pub data Parsed {ℓ} (A : Type ℓ) : Type ℓ where
  syntax_error range_error : Parsed A
  parsed : A → Parsed A

-- The loop of `ParseUint(s, 10, N)`.
unfoldable pub parse_digits : Width → ℕ → List ℕ → Parsed ℕ
parse_digits w n [] = parsed n
parse_digits w n (c ∷ s) =
    let n' = n * 10 + (c - b'0') in
    let more = parse_digits w n' s in
    if leb b'0' c && leb c b'9'
    then (if leb (2 ^ bits w) n' then range_error else more)
    else syntax_error

unfoldable pub parse_uint : Width → List ℕ → Parsed ℕ
parse_uint w [] = syntax_error
parse_uint w (c ∷ s) = parse_digits w 0 (c ∷ s)

-- `ParseInt(s, 10, N)`, behind the sign.
unfoldable pub positive : Width → Parsed ℕ → Parsed ℤ
positive w (parsed n) = if leb (2 ^ (bits w - 1)) n then range_error else parsed (pos n)
positive w syntax_error = syntax_error
positive w range_error = range_error

unfoldable pub negative : Width → Parsed ℕ → Parsed ℤ
negative w (parsed zero) = parsed (pos zero)
negative w (parsed (suc n)) =
    if ltb (2 ^ (bits w - 1)) (suc n) then range_error else parsed (negsuc n)
negative w syntax_error = syntax_error
negative w range_error = range_error

unfoldable pub parse_int : Width → List ℕ → Parsed ℤ
parse_int w [] = syntax_error
parse_int w (c ∷ s) =
    if c == b'+'
    then positive w (parse_uint w s)
    else if c == b'-'
    then negative w (parse_uint w s)
    else positive w (parse_uint w (c ∷ s))
