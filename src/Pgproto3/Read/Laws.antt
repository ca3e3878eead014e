-- ===== src/Pgproto3/Read/Laws.antt =====
-- The reading steps of the Decode methods against the writing steps of the Encode methods.
use mathlib.Core.List.{foldl}
use solo_coder.Common.{
  ℕ, ◌+◌, ◌*◌, ◌/◌, ◌%◌, ◌^◌, ◌<◌, ◌≡◌, refl, sym, ◌∙◌, List, [], ◌∷◌, ◌++◌, Option, none, some,
  arith, append_assoc, append-nil, length, length-append, take_append, drop_append, drop_add_append,
  ltb, All, false,
}
use solo_coder.Common.Int.{ℤ, pos, negsuc}
use solo_coder.Pgio.{uint16_of, uint32_of, append_uint16}
use solo_coder.Pgio.Laws.{
  be16, be32, IsInt16, IsInt32, uint16_of_lt, int16_of-uint16_of, from_be16-be16, from_be32-be32,
  append_int32-be32, int32_of-uint32_of, uint32_of_lt,
}
use solo_coder.Pgproto3.Message.{Error, Result, ok}
use solo_coder.Pgproto3.Read.{
  read_uint16, read_uint32, index_nul, read_cstring, read_last_cstring, read_bytes, read_many,
  read_uint16s, read_int16, read_int32, read_int16s, sized_value, read_value, append_value,
}

-- A string that can be sent with a zero byte behind it.
abbrev pub NoNul : List ℕ → Type 0
NoNul = All (λ b. 0 < b)

pub read_uint16-be16 :
    (e : Error) (n : ℕ) (rest : List ℕ) → n < 2 ^ 16 → read_uint16 e (be16 n ++ rest) ≡ ok (n, rest)
unfolding read_uint16 be16
read_uint16-be16 e n rest h = rw (from_be16-be16 n h)

pub read_uint32-be32 :
    (e : Error) (n : ℕ) (rest : List ℕ) → n < 2 ^ 32 → read_uint32 e (be32 n ++ rest) ≡ ok (n, rest)
unfolding read_uint32 be32
read_uint32-be32 e n rest h = rw (from_be32-be32 n h)

pub index_nul-append : (s rest : List ℕ) → NoNul s → index_nul (s ++ (0 ∷ rest)) ≡ some (length s)
unfolding index_nul
index_nul-append [] rest h = refl
index_nul-append (b ∷ s) rest h = ground (arith, index_nul-append s rest h.1)

-- The first zero byte ends a string; what follows may hold any bytes.
pub read_cstring-append :
    (e : Error) (s rest : List ℕ) → NoNul s → read_cstring e (s ++ (0 ∷ rest)) ≡ ok (s, rest)
unfolding read_cstring
read_cstring-append e s rest h = rw (
  index_nul-append s rest h,
  read_cstring,
  take_append s (0 ∷ rest),
  drop_add_append s (0 ∷ rest) 1,
)

pub read_last_cstring-append :
    (e : Error) (s : List ℕ) → NoNul s → read_last_cstring e (s ++ (0 ∷ [])) ≡ ok s
unfolding read_last_cstring
read_last_cstring-append e s h =
    rw (index_nul-append s [] h, read_last_cstring, take_append s (0 ∷ []))
      (ground (arith, length-append s (0 ∷ [])))

-- A string and the zero byte behind it.
unfoldable pub cstring_bytes : List ℕ → List ℕ
cstring_bytes s = s ++ (0 ∷ [])

pub length-cstring_bytes : (s : List ℕ) → length (cstring_bytes s) ≡ length s + 1
unfolding cstring_bytes
length-cstring_bytes s = length-append s (0 ∷ [])

pub read_cstring-bytes :
    (e : Error) (s rest : List ℕ)
    → NoNul s
    → read_cstring e (cstring_bytes s ++ rest) ≡ ok (s, rest)
unfolding cstring_bytes
read_cstring-bytes e s rest h = rw append_assoc (read_cstring-append e s rest h)

pub read_bytes-append :
    (e : Error) (v rest : List ℕ) → read_bytes e (length v) (v ++ rest) ≡ ok (v, rest)
unfolding read_bytes
read_bytes-append e v rest =
    rw (take_append v rest, drop_append v rest) (ground (arith, length-append v rest))

-- The concatenation of what is written for each element.
unfoldable pub flat {ℓ} : {A : Type ℓ} → (A → List ℕ) → List A → List ℕ
flat put [] = []
flat put (x ∷ xs) = put x ++ flat put xs

pub flat-append {ℓ} :
    {A : Type ℓ} (put : A → List ℕ) (xs ys : List A)
    → flat put (xs ++ ys) ≡ flat put xs ++ flat put ys
unfolding flat
flat-append put [] ys = refl
flat-append put (x ∷ xs) ys = rw (flat-append put xs ys, append_assoc)

pub foldl-flat {ℓ} :
    {A : Type ℓ} (f : List ℕ → A → List ℕ) (put : A → List ℕ)
    → ((dst : List ℕ) (x : A) → f dst x ≡ dst ++ put x)
    → (dst : List ℕ) (xs : List A) → foldl f dst xs ≡ dst ++ flat put xs
unfolding flat
foldl-flat f put h dst [] = sym (append-nil dst)
foldl-flat f put h dst (x ∷ xs) =
    foldl-flat f put h (f dst x) xs ∙ rw (h dst x) (append_assoc dst (put x) (flat put xs))

pub read_many-flat {ℓ κ} :
    {A : Type ℓ} (read : List ℕ → Result (A × List ℕ)) (put : A → List ℕ) (P : A → Type κ)
    → ((x : A) (rest : List ℕ) → P x → read (put x ++ rest) ≡ ok (x, rest))
    → (xs : List A) (rest : List ℕ) → All P xs
    → read_many read (length xs) (flat put xs ++ rest) ≡ ok (xs, rest)
unfolding read_many flat
read_many-flat read put P h [] rest all = refl
read_many-flat read put P h (x ∷ xs) rest all =
    rw (append_assoc, h x (flat put xs ++ rest) all.0, read_many-flat read put P h xs rest all.1)

pub read_many-flat_end {ℓ κ} :
    {A : Type ℓ} (read : List ℕ → Result (A × List ℕ)) (put : A → List ℕ) (P : A → Type κ)
    → ((x : A) (rest : List ℕ) → P x → read (put x ++ rest) ≡ ok (x, rest))
    → (xs : List A) → All P xs
    → read_many read (length xs) (flat put xs) ≡ ok (xs, [])
read_many-flat_end read put P h xs all = rw append-nil at (read_many-flat read put P h xs [] all)

pub length-flat {ℓ} :
    {A : Type ℓ} (put : A → List ℕ) (k : ℕ)
    → ((x : A) → length (put x) ≡ k)
    → (xs : List A) → length (flat put xs) ≡ length xs * k
unfolding flat
length-flat put k h [] = omega arith
length-flat put k h (x ∷ xs) =
    omega (arith, length-append (put x) (flat put xs), h x, length-flat put k h xs)

abbrev pub IsUint16 : ℕ → Type 0
IsUint16 n = n < 2 ^ 16

abbrev pub IsUint32 : ℕ → Type 0
IsUint32 n = n < 2 ^ 32

pub read_int16-be16 :
    (e : Error) (n : ℤ) (rest : List ℕ)
    → IsInt16 n
    → read_int16 e (be16 (uint16_of n) ++ rest) ≡ ok (n, rest)
unfolding read_int16
read_int16-be16 e n rest h =
    rw (read_uint16-be16 e (uint16_of n) rest (uint16_of_lt n), int16_of-uint16_of n h)

pub read_int32-be32 :
    (e : Error) (n : ℤ) (rest : List ℕ)
    → IsInt32 n
    → read_int32 e (be32 (uint32_of n) ++ rest) ≡ ok (n, rest)
unfolding read_int32
read_int32-be32 e n rest h =
    rw (read_uint32-be32 e (uint32_of n) rest (uint32_of_lt n), int32_of-uint32_of n h)

length-be16s {ℓ} :
    {A : Type ℓ} (f : A → ℕ) (xs : List A) (rest : List ℕ)
    → ltb (length (flat (λ x. be16 (f x)) xs ++ rest)) (length xs * 2) ≡ false
unfolding be16
length-be16s f xs rest = ground (
  arith,
  length-append (flat (λ x. be16 (f x)) xs) rest,
  length-flat (λ x. be16 (f x)) 2 (λ x. refl) xs,
)

pub read_uint16s-flat :
    (e : Error) (xs rest : List ℕ)
    → All IsUint16 xs
    → read_uint16s e (length xs) (flat be16 xs ++ rest) ≡ ok (xs, rest)
unfolding read_uint16s
read_uint16s-flat e xs rest h =
    rw (length-be16s (λ n. n) xs rest)
      (read_many-flat (read_uint16 e) be16 IsUint16 (read_uint16-be16 e) xs rest h)

-- The bytes of a list of signed codes.
abbrev pub int16_bytes : ℤ → List ℕ
int16_bytes n = be16 (uint16_of n)

pub read_int16s-flat :
    (e : Error) (xs : List ℤ) (rest : List ℕ)
    → All IsInt16 xs
    → read_int16s e (length xs) (flat int16_bytes xs ++ rest) ≡ ok (xs, rest)
unfolding read_int16s
read_int16s-flat e xs rest h =
    rw (length-be16s uint16_of xs rest)
      (read_many-flat (read_int16 e) int16_bytes IsInt16 (read_int16-be16 e) xs rest h)

pub read_int16s-flat_end :
    (e : Error) (xs : List ℤ)
    → All IsInt16 xs
    → read_int16s e (length xs) (flat int16_bytes xs) ≡ ok (xs, [])
read_int16s-flat_end e xs h = rw append-nil at (read_int16s-flat e xs [] h)

pub read_uint16s-flat_end :
    (e : Error) (xs : List ℕ)
    → All IsUint16 xs
    → read_uint16s e (length xs) (flat be16 xs) ≡ ok (xs, [])
read_uint16s-flat_end e xs h = rw append-nil at (read_uint16s-flat e xs [] h)

-- A count that passed the encoder's limit, as the encoder converts it.
pub append_uint16-count : (buf : List ℕ) (n : ℕ) → append_uint16 buf (n % 2 ^ 16) ≡ buf ++ be16 n
unfolding append_uint16 be16
append_uint16-count buf n =
    let e : n % 2 ^ 16 / 2 ^ 8 % 256 ≡ n / 2 ^ 8 % 256 = omega arith in
    let f : n % 2 ^ 16 / 2 ^ 0 % 256 ≡ n / 2 ^ 0 % 256 = omega arith in rw (e, f)

-- The bytes of a value.
unfoldable pub value_bytes : Option (List ℕ) → List ℕ
value_bytes none = be32 (uint32_of (negsuc 0))
value_bytes (some v) = be32 (uint32_of (pos (length v))) ++ v

pub append_value-bytes :
    (dst : List ℕ) (v : Option (List ℕ)) → append_value dst v ≡ dst ++ value_bytes v
unfolding append_value value_bytes
append_value-bytes dst none = append_int32-be32 dst (negsuc 0)
append_value-bytes dst (some v) = rw (append_int32-be32, append_assoc)

-- A value whose length an int32 can hold.
abbrev pub IsSendable : Option (List ℕ) → Type 0
IsSendable none = Unit
IsSendable (some v) = length v < 2 ^ 31

pub read_value-bytes :
    (e : Error) (v : Option (List ℕ)) (rest : List ℕ)
    → IsSendable v
    → read_value e (value_bytes v ++ rest) ≡ ok (v, rest)
unfolding read_value value_bytes sized_value
read_value-bytes e none rest h = rw (
  read_uint32-be32 e (uint32_of (negsuc 0)) rest (uint32_of_lt (negsuc 0)),
  int32_of-uint32_of (negsuc 0) (omega arith),
)
read_value-bytes e (some v) rest h = rw (
  append_assoc,
  read_uint32-be32 e (uint32_of (pos (length v))) (v ++ rest) (uint32_of_lt (pos (length v))),
  int32_of-uint32_of (pos (length v)) h,
  read_bytes-append e v rest,
)
