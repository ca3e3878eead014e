-- ===== src/Pgtype/Sizes.antt =====
-- pgtype/range_codec.go and pgtype/array_codec.go: the length of an element, written behind it.
use solo_coder.Common.{
  ℕ, ◌+◌, ◌-◌, ◌^◌, ◌<◌, ◌≡◌, refl, ◌∙◌, List, ◌++◌, append_assoc, arith, length, drop,
  length-append, take_append, drop_append, drop_add_append,
}
use solo_coder.Common.Int.{ℤ, pos, negsuc}
use solo_coder.Pgio.{uint32_of, append_int32, set_int32}
use solo_coder.Pgio.Laws.{be32, append_uint32-be32, append_int32-be32, length-be32}

-- `pgio.SetInt32(buf[sp:], int32(len(buf[sp:])-4))`.
unfoldable pub set_length : ℕ → List ℕ → List ℕ
set_length sp buf = set_int32 buf sp (pos (length (drop sp buf) - 4))

pub set_int32-at :
    (front t : List ℕ) (junk : ℕ) (n : ℤ)
    → set_int32 (front ++ (be32 junk ++ t)) (length front) n ≡ front ++ (be32 (uint32_of n) ++ t)
unfolding set_int32
set_int32-at front t junk n =
    let drop_four : drop (length front + 4) (front ++ (be32 junk ++ t)) ≡ t =
      drop_add_append front (be32 junk ++ t) 4 ∙ unfold be32 in refl in
    rw
      (
        take_append front (be32 junk ++ t),
        append_uint32-be32 front (uint32_of n),
        drop_four,
        append_assoc front (be32 (uint32_of n)) t,
      )
      refl

-- The length of a value, and the value.
unfoldable pub sized : List ℕ → List ℕ
sized v = be32 (length v) ++ v

pub set_length-sized :
    (v buf : List ℕ)
    → length v < 2 ^ 31
    → set_length (length buf) (append_int32 buf (negsuc 0) ++ v) ≡ buf ++ sized v
unfolding set_length sized
set_length-sized v buf h =
    let junk : ℕ = uint32_of (negsuc 0) in
    let size : 4 + length v - 4 ≡ length v = omega arith in
    let small : uint32_of (pos (length v)) ≡ length v = uint32_of_small (length v) h in
    rw
      (
        append_int32-be32 buf (negsuc 0),
        append_assoc buf (be32 junk) v,
        drop_append buf (be32 junk ++ v),
        length-append (be32 junk) v,
        length-be32 junk,
        size,
        set_int32-at buf v junk (pos (length v)),
        small,
      )
      refl
  where
    uint32_of_small : (n : ℕ) → n < 2 ^ 31 → uint32_of (pos n) ≡ n
    uint32_of_small n h = unfold uint32_of in omega (arith, h)
