-- ===== src/Iobufpool/Classes/Laws.antt =====
-- internal/iobufpool/iobufpool.go: the capacities of the buffers in the pools.
use native.Mathlib.Nat.{pow-le-pow_right}
use mathlib.Core.Option.{some-injective}
use mathlib.Core.Path.{subst}
use solo_coder.Iobufpool.Classes.{zeros, trailing_zeros}
use solo_coder.Common.{
  true, none, ℕ, zero, suc, ◌+◌, ◌-◌, ◌*◌, ◌^◌, ◌≤◌, ◌<◌, ◌≡◌, refl, sym, ap, ◌∙◌, ◌⊎◌, inl, inr,
  ◌||◌, Option, none, some, List, [], ◌∷◌, arith, ltb, leb, ◌==◌, le→leb, Bool-cases, Option-cases,
  length, All,
}
use solo_coder.Iobufpool.Classes.{
  bit_len, trailing_zeros, bit_and, min_pool_exp_of_2, pool_count, get_pool_idx, put_pool_idx,
  Buffer, Pools, set_class, new_buffer, reslice, keep_head, take_at, get_from, pool_at, get_at,
  get_buffer, put_at, put_buffer,
}
use solo_coder.Iobufpool.Classes.Bits.{bit_len-bounds, bit_and-power}

get_pool_idx-bounds :
    (size : ℕ)
    → size ≤ 2 ^ 64
    → (size ≤ 2 ^ (min_pool_exp_of_2 + get_pool_idx size))
      × ((size < 128) ⊎ (2 ^ (min_pool_exp_of_2 + get_pool_idx size) ≤ 2 * size))
unfolding get_pool_idx
get_pool_idx-bounds size h = elim (Bool-cases (ltb size 2)) [
  | inl tiny ↦ rw tiny (ground arith, inl (ground arith))
  | inr more ↦
      let len = bit_len 64 (size - 1) in
      let (hi, lo) = bit_len-bounds 64 (size - 1) (omega arith) in
      elim (Bool-cases (ltb len min_pool_exp_of_2)) [
        | inl small ↦
            let up : 2 ^ len ≤ 2 ^ 8 = pow-le-pow_right (omega arith) {j = 8} (ground arith) in
            rw (more, small) (omega (arith, hi, up), smaller_or size)
        | inr large ↦
            let same : min_pool_exp_of_2 + (len - min_pool_exp_of_2) ≡ len = ground arith in
            rw (more, large, same) (omega (arith, hi), twice len lo)
      ]
]
  where
    smaller_or : (size : ℕ) → (size < 128) ⊎ (256 ≤ 2 * size)
    smaller_or size = elim (Bool-cases (ltb size 128)) [
      | inl y ↦ inl (ground arith)
      | inr n ↦ inr (ground arith)
    ]

    twice :
        (len : ℕ)
        → ((size - 1 ≡ 0) × (len ≡ 0)) ⊎ (2 ^ len ≤ 2 * (size - 1))
        → (size < 128) ⊎ (2 ^ len ≤ 2 * size)
    twice len (inl (one, _)) = inl (omega (arith, one))
    twice len (inr below) = inr (omega (arith, below))

pub length-zeros : (n : ℕ) → length (zeros n) ≡ n
unfolding zeros
length-zeros zero = refl
length-zeros (suc n) = omega (arith, length-zeros n)

put_pool_idx_zero : put_pool_idx 0 ≡ none
unfolding put_pool_idx bit_and trailing_zeros
put_pool_idx_zero = refl

put_pool_idx-power :
    (c i : ℕ)
    → c < 2 ^ 64
    → put_pool_idx c ≡ some i
    → (c ≡ 2 ^ (min_pool_exp_of_2 + i)) × (i < pool_count)
unfolding put_pool_idx
put_pool_idx-power c i h e = elim (Bool-cases (bit_and 64 c (c - 1) == 0)) [
  | inr mixed ↦ absurd (cc (rw mixed at e))
  | inl alone ↦ elim (Bool-cases (c == 0)) [
    | inl nothing ↦
        let empty : c ≡ 0 = ground arith in
        absurd (cc (sym put_pool_idx_zero ∙ ap put_pool_idx (sym empty) ∙ e))
    | inr something ↦
        let power = bit_and-power 64 c h (ground (arith, something)) (ground (arith, alone)) in
        let zs = trailing_zeros 64 c in
        elim (Bool-cases (ltb zs min_pool_exp_of_2 || leb pool_count (zs - min_pool_exp_of_2))) [
          | inl outside ↦ absurd (cc (rw (alone, outside) at e))
          | inr inside ↦
              let class_of : zs - min_pool_exp_of_2 ≡ i =
                some-injective _ _ (rw (alone, inside) at e) in
              let exact : min_pool_exp_of_2 + i ≡ zs = ground (arith, inside, class_of) in
              (power ∙ ap (λ (x : ℕ). 2 ^ x) (sym exact), ground (arith, inside, class_of))
        ]
  ]
]

-- Every buffer in a pool has the capacity of that pool.
abbrev pub IsStocked : Pools → Type 0
IsStocked p = (i : ℕ) → All (λ b. length b.cells ≡ 2 ^ (min_pool_exp_of_2 + i)) (p i)

set_class-IsStocked :
    (i : ℕ) (bs : List Buffer) (p : Pools)
    → All (λ b. length b.cells ≡ 2 ^ (min_pool_exp_of_2 + i)) bs
    → IsStocked p
    → IsStocked (set_class i bs p)
unfolding set_class
set_class-IsStocked i bs p h v j = elim (Bool-cases (j == i)) [
  | inl same ↦
      let e : i ≡ j = ground arith in
      rw same (
        subst (λ (x : ℕ). All (λ (b : Buffer). length b.cells ≡ 2 ^ (min_pool_exp_of_2 + x)) bs) e
          h)
  | inr other ↦ rw other (v j)
]

-- `Put` of a buffer of any capacity that fits 64 bits keeps every pool stocked with buffers of its
-- own capacity.
pub put_buffer-IsStocked :
    (b : Buffer) (p : Pools) → length b.cells < 2 ^ 64 → IsStocked p → IsStocked (put_buffer b p)
unfolding put_buffer
put_buffer-IsStocked b p h v = elim (Option-cases (put_pool_idx (length b.cells))) [
  | inl dropped ↦ rw dropped (unfold put_at in v)
  | inr (i, kept) ↦
      let (power, _) = put_pool_idx-power (length b.cells) i h kept in
      rw kept (unfold put_at in set_class-IsStocked i (b ∷ p i) p (power, v i) v)
]

abbrev Held : (Buffer → Type 0) → Option (Buffer × List Buffer) → Type 0
Held P none = Unit
Held P (some (b, bs)) = P b × All P bs

keep_head-Held :
    (P : Buffer → Type 0) (b : Buffer) (o : Option (Buffer × List Buffer))
    → P b
    → Held P o
    → Held P (keep_head b o)
keep_head-Held P b none p h = tt
keep_head-Held P b (some (c, cs)) p h = (h.0, (p, h.1))

take_at-Held : (P : Buffer → Type 0) (k : ℕ) (bs : List Buffer) → All P bs → Held P (take_at k bs)
unfolding take_at
take_at-Held P k [] h = tt
take_at-Held P zero (b ∷ bs) h = h
take_at-Held P (suc k) (b ∷ bs) h = keep_head-Held P b (take_at k bs) h.0 (take_at-Held P k bs h.1)

abbrev Served : ℕ → Option Buffer × Pools → Type 0
Served size r =
    (b : Buffer) × (p' : Pools) × (r ≡ (some b, p'))
    × (b.len ≡ size)
    × (size ≤ length b.cells)
    × ((size < 128) ⊎ (length b.cells ≤ 2 * size))
    × IsStocked p'

reslice-enough :
    (size : ℕ) (b : Buffer)
    → size ≤ length b.cells
    → reslice size b ≡ some (record b { len = size })
unfolding reslice
reslice-enough size b h = rw (le→leb size (length b.cells) h)

get_from-Served :
    (size i : ℕ) (o : Option (Buffer × List Buffer)) (p : Pools)
    → size ≤ 2 ^ (min_pool_exp_of_2 + i)
    → (size < 128) ⊎ (2 ^ (min_pool_exp_of_2 + i) ≤ 2 * size)
    → IsStocked p
    → Held (λ b. length b.cells ≡ 2 ^ (min_pool_exp_of_2 + i)) o
    → Served size (get_from size i o p)
unfolding get_from
get_from-Served size i none p fits twice v h =
    let full = length-zeros (2 ^ (min_pool_exp_of_2 + i)) in
    unfold new_buffer in
    (
      record (new_buffer i) { len = size },
      p,
      ap (λ (x : Option Buffer). (x, p)) (reslice-enough size (new_buffer i) (rw full fits)),
      refl,
      rw full fits,
      rw full twice,
      v,
    )
get_from-Served size i (some (b, bs)) p fits twice v h = (
  record b { len = size },
  set_class i bs p,
  ap (λ (x : Option Buffer). (x, set_class i bs p)) (reslice-enough size b (rw h.0 fits)),
  refl,
  rw h.0 fits,
  rw h.0 twice,
  set_class-IsStocked i bs p h.1 v,
)

-- `Get` of a size that fits 64 bits, from pools that are stocked with buffers of their own capacity
-- and whichever buffer sync.Pool picks, does not panic, neither by an index beyond the array of
-- pools nor by a slice beyond a capacity: it gives a buffer of the size asked for, whose capacity is
-- no less, and no more than twice that from 128 bytes on; the pools stay stocked.
pub get_buffer-IsStocked :
    (size k : ℕ) (p : Pools)
    → size ≤ 2 ^ 64
    → IsStocked p
    → (b : Buffer) × (p' : Pools) × (get_buffer size k p ≡ (some b, p'))
      × (b.len ≡ size)
      × (size ≤ length b.cells)
      × ((size < 128) ⊎ (length b.cells ≤ 2 * size))
      × IsStocked p'
unfolding get_buffer pool_at get_at
get_buffer-IsStocked size k p h v = elim (Bool-cases (leb pool_count (get_pool_idx size))) [
  | inl beyond ↦
      let full = length-zeros size in
      rw beyond (
        record { cells = zeros size; len = size },
        p,
        refl,
        refl,
        rw full (omega arith),
        inr (rw full (omega arith)),
        v,
      )
  | inr within ↦
      let (fits, twice) = get_pool_idx-bounds size h in
      let in_range : ltb (get_pool_idx size) pool_count ≡ true = ground (arith, within) in
      rw (within, in_range)
        (get_from-Served size (get_pool_idx size) _ p fits twice v
          (take_at-Held _ k (p (get_pool_idx size)) (v (get_pool_idx size))))
]
