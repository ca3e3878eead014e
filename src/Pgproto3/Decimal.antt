-- ===== src/Pgproto3/Decimal.antt =====
-- `strconv.Itoa` and `strconv.ParseInt(s, 10, 32)`, with the error dropped as ErrorResponse drops
-- it: a syntax error gives 0, a value out of range the nearest int32.
pub mod Laws
use solo_coder.Common.{
  ℕ, zero, suc, ◌+◌, ◌-◌, ◌*◌, ◌/◌, ◌%◌, ◌^◌, ◌&&◌, Option, none, some, List, [], ◌∷◌, ◌++◌, ltb,
  leb, ◌==◌, if◌then◌else◌,
}
use solo_coder.Common.Int.{ℤ, pos, negsuc}

-- The decimal digits of n, which is below 10 ^ fuel.
unfoldable pub digits : ℕ → ℕ → List ℕ
digits zero n = []
digits (suc fuel) n =
    let front = digits fuel (n / 10) in
    if ltb n 10 then (b'0' + n) ∷ [] else front ++ ((b'0' + n % 10) ∷ [])

-- `strconv.Itoa` of an int32, which has ten digits at most.
unfoldable pub itoa : ℤ → List ℕ
itoa (pos n) = digits 10 n
itoa (negsuc n) = b'-' ∷ digits 10 (suc n)

abbrev pub max_uint32 : ℕ
max_uint32 = 2 ^ 32 - 1

-- The loop of `strconv.ParseUint(s, 10, 32)`; `none` is a syntax error.
unfoldable pub parse_digits : ℕ → List ℕ → Option ℕ
parse_digits n [] = some n
parse_digits n (c ∷ s) =
    let n' = n * 10 + (c - b'0') in
    let more = parse_digits n' s in
    if leb b'0' c && leb c b'9' then (if ltb max_uint32 n' then some max_uint32 else more) else none

unfoldable pub parse_uint : List ℕ → Option ℕ
parse_uint [] = none
parse_uint (c ∷ s) = parse_digits 0 (c ∷ s)

-- The value of an unsigned part without a sign, and behind a minus sign, cut to the range of int32.
unfoldable pub positive : Option ℕ → ℤ
positive none = pos 0
positive (some n) = if leb (2 ^ 31) n then pos (2 ^ 31 - 1) else pos n

unfoldable pub negative : Option ℕ → ℤ
negative none = pos 0
negative (some zero) = pos 0
negative (some (suc n)) = if ltb (2 ^ 31) (suc n) then negsuc (2 ^ 31 - 1) else negsuc n

unfoldable pub parse_int32 : List ℕ → ℤ
parse_int32 [] = pos 0
parse_int32 (c ∷ s) =
    if c == b'+'
    then positive (parse_uint s)
    else if c == b'-'
    then negative (parse_uint s)
    else positive (parse_uint (c ∷ s))
