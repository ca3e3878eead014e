-- ===== src/Iobufpool/Classes.antt =====
-- internal/iobufpool/iobufpool.go: the size classes, `Get` and `Put`.
pub mod Bits
pub mod Laws
use solo_coder.Common.{
  ℕ, zero, suc, ◌+◌, ◌-◌, ◌*◌, ◌/◌, ◌%◌, ◌^◌, ◌||◌, Option, none, some, List, [], ◌∷◌, ltb, leb,
  ◌==◌, if◌then◌else◌, length,
}

-- `bits.Len` of an integer of w bits.
unfoldable pub bit_len : ℕ → ℕ → ℕ
bit_len zero n = 0
bit_len (suc w) n = let rest = bit_len w (n / 2) in if n == 0 then 0 else suc rest

-- `bits.TrailingZeros` of an integer of w bits.
unfoldable pub trailing_zeros : ℕ → ℕ → ℕ
trailing_zeros zero n = 0
trailing_zeros (suc w) n = let rest = trailing_zeros w (n / 2) in if n % 2 == 1 then 0 else suc rest

-- `a & b` of integers of w bits.
unfoldable pub bit_and : ℕ → ℕ → ℕ → ℕ
bit_and zero a b = 0
bit_and (suc w) a b = (a % 2) * (b % 2) + 2 * bit_and w (a / 2) (b / 2)

abbrev pub min_pool_exp_of_2 : ℕ
min_pool_exp_of_2 = 8

-- `len(pools)`.
abbrev pub pool_count : ℕ
pool_count = 18

-- `getPoolIdx`.
unfoldable pub get_pool_idx : ℕ → ℕ
get_pool_idx size =
    if ltb size 2
    then 0
    else if ltb (bit_len 64 (size - 1)) min_pool_exp_of_2
    then 0
    else bit_len 64 (size - 1) - min_pool_exp_of_2

-- `putPoolIdx`; `none` is -1.
unfoldable pub put_pool_idx : ℕ → Option ℕ
put_pool_idx size =
    if bit_and 64 size (size - 1) == 0
    then (if ltb (trailing_zeros 64 size) min_pool_exp_of_2
          || leb pool_count (trailing_zeros 64 size - min_pool_exp_of_2)
        then none
        else some (trailing_zeros 64 size - min_pool_exp_of_2))
    else none

-- A slice: all the cells of its array, of which the first `len` are in use.
pub record Buffer : Type 0 where
  pub cells : List ℕ
  pub len : ℕ

unfoldable pub zeros : ℕ → List ℕ
zeros zero = []
zeros (suc n) = 0 ∷ zeros n

-- The buffers that lie in each of the pools.
abbrev pub Pools : Type 0
Pools = ℕ → List Buffer

unfoldable pub set_class : ℕ → List Buffer → Pools → Pools
set_class i bs pools = λ j. if j == i then bs else pools j

-- `New` of the pool i.
unfoldable pub new_buffer : ℕ → Buffer
new_buffer i = record {
  cells = zeros (2 ^ (min_pool_exp_of_2 + i));
  len = 2 ^ (min_pool_exp_of_2 + i);
}

-- `buf[:size]`, which panics beyond the capacity: `none`.
unfoldable pub reslice : ℕ → Buffer → Option Buffer
reslice size b = if leb size (length b.cells) then some (record b { len = size }) else none

-- sync.Pool gives any buffer that it holds, or a new one: the k-th one, or a new one where there is
-- no such.
abbrev pub keep_head : Buffer → Option (Buffer × List Buffer) → Option (Buffer × List Buffer)
keep_head b none = none
keep_head b (some (c, cs)) = some (c, b ∷ cs)

unfoldable pub take_at : ℕ → List Buffer → Option (Buffer × List Buffer)
take_at k [] = none
take_at zero (b ∷ bs) = some (b, bs)
take_at (suc k) (b ∷ bs) = keep_head b (take_at k bs)

unfoldable pub get_from : ℕ → ℕ → Option (Buffer × List Buffer) → Pools → Option Buffer × Pools
get_from size i none pools = (reslice size (new_buffer i), pools)
get_from size i (some (b, bs)) pools = (reslice size b, set_class i bs pools)

-- `pools[i]`, which panics where i is out of the range of the array: `none`.
unfoldable pub pool_at : ℕ → Pools → Option (List Buffer)
pool_at i pools = if ltb i pool_count then some (pools i) else none

-- Behind `pools[i]`.
unfoldable pub get_at : ℕ → ℕ → ℕ → Option (List Buffer) → Pools → Option Buffer × Pools
get_at size i k none pools = (none, pools)
get_at size i k (some bs) pools = get_from size i (take_at k bs) pools

-- `Get`, where sync.Pool picks by k; `none` is a panic.
unfoldable pub get_buffer : ℕ → ℕ → Pools → Option Buffer × Pools
get_buffer size k pools =
    if leb pool_count (get_pool_idx size)
    then (some (record { cells = zeros size; len = size }), pools)
    else get_at size (get_pool_idx size) k (pool_at (get_pool_idx size) pools) pools

unfoldable pub put_at : Option ℕ → Buffer → Pools → Pools
put_at none b pools = pools
put_at (some i) b pools = set_class i (b ∷ pools i) pools

-- `Put`.
unfoldable pub put_buffer : Buffer → Pools → Pools
put_buffer b pools = put_at (put_pool_idx (length b.cells)) b pools
