-- ===== src/Common/Slices.antt =====
-- Go's `s[lo:hi]` and `copy`, on lists.
use Prim.Native.Nat.{min}
use solo_coder.Common.Lists.{length, take, drop, length-append, take_append, length-drop}
use Prim.Native.Nat.{ℕ, zero, suc, ◌+◌, ◌-◌, ◌≤◌}
use mathlib.Core.Path.{◌≡◌, refl, ap, sym, ◌∙◌}
use mathlib.Core.List.{List, [], ◌∷◌, ◌++◌}
use native.Mathlib.Omega.{arith}

module _ {ℓ} {A : Type ℓ} where
  -- `s[lo:hi]`.
  unfoldable pub slice : ℕ → ℕ → List A → List A
  slice lo hi s = drop lo (take hi s)

  -- The slice `dst` after `copy(dst[at:], src)`, for a `src` that fits.
  unfoldable pub copy_at : ℕ → List A → List A → List A
  copy_at at dst src = take at dst ++ (src ++ drop (at + length src) dst)

module _ {ℓ} {A : Type ℓ} where
  pub length-take : (n : ℕ) (xs : List A) → length (take n xs) ≡ min n (length xs)
  length-take zero xs = omega arith
  length-take (suc n) [] = omega arith
  length-take (suc n) (x ∷ xs) = omega (arith, length-take n xs)

  pub take-take : (m n : ℕ) (xs : List A) → m ≤ n → take m (take n xs) ≡ take m xs
  take-take zero n xs h = refl
  take-take (suc m) zero xs h = elim h [ ]
  take-take (suc m) (suc n) [] h = refl
  take-take (suc m) (suc n) (x ∷ xs) h = ap (◌∷◌ x) (take-take m n xs (omega arith))

  take_nil : (n : ℕ) → take {A = A} n [] ≡ []
  take_nil zero = refl
  take_nil (suc n) = refl

  drop_nil : (n : ℕ) → drop {A = A} n [] ≡ []
  drop_nil zero = refl
  drop_nil (suc n) = refl

  pub drop-take : (lo n : ℕ) (xs : List A) → drop lo (take (lo + n) xs) ≡ take n (drop lo xs)
  drop-take zero n xs = let e : zero + n ≡ n = omega arith in rw e
  drop-take (suc lo) n [] = let e : suc lo + n ≡ suc (lo + n) = omega arith in rw (e, take_nil n)
  drop-take (suc lo) n (x ∷ xs) =
      let e : suc lo + n ≡ suc (lo + n) = omega arith in rw e (drop-take lo n xs)

  pub drop-drop : (m n : ℕ) (xs : List A) → drop (m + n) xs ≡ drop n (drop m xs)
  drop-drop zero n xs = let e : zero + n ≡ n = omega arith in rw e
  drop-drop (suc m) n [] = let e : suc m + n ≡ suc (m + n) = omega arith in rw (e, drop_nil n)
  drop-drop (suc m) n (x ∷ xs) =
      let e : suc m + n ≡ suc (m + n) = omega arith in rw e (drop-drop m n xs)

  pub drop_append_le :
      (n : ℕ) (xs ys : List A) → n ≤ length xs → drop n (xs ++ ys) ≡ drop n xs ++ ys
  drop_append_le zero xs ys h = refl
  drop_append_le (suc n) [] ys h = elim h [ ]
  drop_append_le (suc n) (x ∷ xs) ys h = drop_append_le n xs ys (omega arith)

  pub take_append_le : (n : ℕ) (xs ys : List A) → n ≤ length xs → take n (xs ++ ys) ≡ take n xs
  take_append_le zero xs ys h = refl
  take_append_le (suc n) [] ys h = elim h [ ]
  take_append_le (suc n) (x ∷ xs) ys h = ap (◌∷◌ x) (take_append_le n xs ys (omega arith))

  pub take_add_append : (xs ys : List A) (k : ℕ) → take (length xs + k) (xs ++ ys) ≡ xs ++ take k ys
  take_add_append [] ys k = let e : 0 + k ≡ k = omega arith in rw e
  take_add_append (x ∷ xs) ys k =
      let e : suc (length xs) + k ≡ suc (length xs + k) = omega arith in
      rw e (ap (◌∷◌ x) (take_add_append xs ys k))

module _ {ℓ} {A : Type ℓ} where
  -- The front of a slice, and the slice behind it.
  pub slice_front :
      (lo hi n : ℕ) (s : List A) → lo + n ≤ hi → slice lo (lo + n) s ≡ take n (slice lo hi s)
  unfolding slice
  slice_front lo hi n s h = rw (← take-take (lo + n) hi s h) (drop-take lo n (take hi s))

  pub slice_back : (lo hi n : ℕ) (s : List A) → slice (lo + n) hi s ≡ drop n (slice lo hi s)
  unfolding slice
  slice_back lo hi n s = drop-drop lo n (take hi s)

  pub slice_empty : (lo : ℕ) (s : List A) → slice lo lo s ≡ []
  unfolding slice
  slice_empty zero s = refl
  slice_empty (suc lo) [] = refl
  slice_empty (suc lo) (x ∷ s) = slice_empty lo s

  -- A slice grows by what is copied behind its end.
  pub slice-copy_at :
      (lo hi : ℕ) (s src : List A)
      → lo ≤ hi
      → hi ≤ length s
      → slice lo (hi + length src) (copy_at hi s src) ≡ slice lo hi s ++ src
  unfolding slice copy_at
  slice-copy_at lo hi s src h k =
      ap (λ (n : ℕ). drop lo (take (n + length src) (take hi s ++ (src ++ tail)))) (sym len)
      ∙ ap (drop lo) (
          take_add_append (take hi s) (src ++ tail) (length src)
          ∙ ap (λ (x : List A). take hi s ++ x) (take_append src tail))
      ∙ drop_append_le lo (take hi s) src (omega (arith, len))
    where
      tail : List A
      tail = drop (hi + length src) s

      len : length (take hi s) ≡ hi
      len = omega (arith, length-take hi s)

  pub length-slice : (lo hi : ℕ) (s : List A) → hi ≤ length s → length (slice lo hi s) ≡ hi - lo
  unfolding slice
  length-slice lo hi s h = omega (arith, length-drop lo (take hi s), length-take hi s)

  pub length-copy_at :
      (at : ℕ) (s src : List A) → at + length src ≤ length s → length (copy_at at s src) ≡ length s
  unfolding copy_at
  length-copy_at at s src h = omega (
    arith,
    length-append (take at s) (src ++ drop (at + length src) s),
    length-append src (drop (at + length src) s),
    length-take at s,
    length-drop (at + length src) s,
  )
