-- ===== src/Iobufpool/Tests.antt =====
-- The size classes on concrete buffers.
use solo_coder.Iobufpool.Classes.{
  zeros, put_pool_idx, get_pool_idx, trailing_zeros, bit_and, bit_len,
}
use solo_coder.Common.{◌*◌, ◌^◌, ◌≤◌, ◌<◌, ◌≡◌, refl, ◌⊎◌, none, some, [], arith, length}
use solo_coder.Iobufpool.Classes.{Buffer, Pools, get_buffer, put_buffer}
use solo_coder.Iobufpool.Classes.Laws.{
  length-zeros, IsStocked, put_buffer-IsStocked, get_buffer-IsStocked,
}

-- The class of a size, and of a capacity.
idx_300 : get_pool_idx 300 ≡ 1
unfolding get_pool_idx bit_len
idx_300 = refl

idx_512 : put_pool_idx 512 ≡ some 1
unfolding put_pool_idx trailing_zeros bit_and
idx_512 = refl

idx_300_refused : put_pool_idx 300 ≡ none
unfolding put_pool_idx trailing_zeros bit_and
idx_300_refused = refl

abbrev empty_pools : Pools
empty_pools = λ i. []

abbrev a_buffer : Buffer
a_buffer = record { cells = zeros 512; len = 300 }

a_buffer-short : length a_buffer.cells < 2 ^ 64
a_buffer-short = rw (length-zeros 512) (omega arith)

put_buffer-IsStocked_example : IsStocked (put_buffer a_buffer empty_pools)
put_buffer-IsStocked_example = put_buffer-IsStocked a_buffer empty_pools a_buffer-short (λ i. tt)

get_buffer-IsStocked_example :
    (b : Buffer) × (p' : Pools) × (get_buffer 400 0 (put_buffer a_buffer empty_pools)
      ≡ (some b, p'))
    × (b.len ≡ 400)
    × (400 ≤ length b.cells)
    × ((400 < 128) ⊎ (length b.cells ≤ 2 * 400))
    × IsStocked p'
get_buffer-IsStocked_example =
    get_buffer-IsStocked 400 0 (put_buffer a_buffer empty_pools) (omega arith)
      (put_buffer-IsStocked a_buffer empty_pools a_buffer-short (λ i. tt))
