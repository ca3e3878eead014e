-- ===== src/Pgtype/Int/Stores.antt =====
-- pgtype/int.go: which integers the plans store.
use solo_coder.Common.{
  ℕ, zero, suc, ◌+◌, ◌-◌, ◌*◌, ◌^◌, ◌<◌, ◌≡◌, refl, inl, inr, true, false, some, List, [], ◌∷◌,
  arith, ltb, ◌==◌, if◌then◌else◌, Bool-cases, length, All,
}
use solo_coder.Common.Int.{ℤ, pos, negsuc}
use solo_coder.Pgproto3.ChunkReader.{store}
use solo_coder.Pgtype.Int.{
  byte_size, read_int, scan_checked, store_signed, store_unsigned, store_int, store_uint,
}
use solo_coder.Pgtype.Integers.{
  Width, w8, w16, w32, w64, bits, to_signed, ltb_int, min_int, max_int, max_uint, big_endian,
}
use solo_coder.Pgtype.Integers.Laws.{IsInt, convert-IsInt, to_unsigned-IsUint, values_of}
use solo_coder.Pgtype.Plan.{
  Target, signed, unsigned, int, uint, int64_scanner, text_scanner, other_target, same,
  less_than_minimum, greater_than_maximum, Answer, refused, given, Stored, stored,
}

-- The targets that are Go's integers.
abbrev pub IsGoInt : Target → Type 0
IsGoInt (signed w) = Unit
IsGoInt (unsigned w) = Unit
IsGoInt int = Unit
IsGoInt uint = Unit
IsGoInt int64_scanner = ⊥
IsGoInt text_scanner = ⊥
IsGoInt other_target = ⊥

abbrev pub lowest : Target → ℤ
lowest (signed w) = min_int w
lowest int = min_int w64
lowest t = pos 0

abbrev pub highest : Target → ℤ
highest (signed w) = max_int w
highest (unsigned w) = max_uint w
highest int = max_int w64
highest uint = max_uint w64
highest t = pos 0

-- An integer of the target's is stored as it is, any other refused.
abbrev pub bounded : Target → ℤ → Answer Stored
bounded t n =
    if ltb_int n (lowest t)
    then refused (less_than_minimum n)
    else if ltb_int (highest t) n
    then refused (greater_than_maximum n)
    else given (stored n)

wider : (d w : Width) → 2 ^ (bits d - 1) < 2 ^ (bits w - 1) → ltb (bits d) (bits w) ≡ true
wider w8 w8 h = absurd (omega (arith, h))
wider w8 w16 h = refl
wider w8 w32 h = refl
wider w8 w64 h = refl
wider w16 w8 h = absurd (omega (arith, h))
wider w16 w16 h = absurd (omega (arith, h))
wider w16 w32 h = refl
wider w16 w64 h = refl
wider w32 w8 h = absurd (omega (arith, h))
wider w32 w16 h = absurd (omega (arith, h))
wider w32 w32 h = absurd (omega (arith, h))
wider w32 w64 h = refl
wider w64 w8 h = absurd (omega (arith, h))
wider w64 w16 h = absurd (omega (arith, h))
wider w64 w32 h = absurd (omega (arith, h))
wider w64 w64 h = absurd (omega (arith, h))

pub store_signed-bounded :
    (w d : Width) (n : ℤ) → IsInt w n → store_signed w d n ≡ bounded (signed d) n
unfolding store_signed
store_signed-bounded w d (pos n) h = elim (Bool-cases (ltb (2 ^ (bits d - 1) - 1) n)) [
  | inl large ↦ rw (wider d w (ground (arith, h, large)), large) refl
  | inr small ↦
      rw (small, convert-IsInt d (pos n) (ground (arith, small, values_of d))) (ground arith)
]
store_signed-bounded w d (negsuc n) h = elim (Bool-cases (ltb (2 ^ (bits d - 1) - 1) n)) [
  | inl large ↦ rw (wider d w (ground (arith, h, large)), large) refl
  | inr small ↦
      rw (small, convert-IsInt d (negsuc n) (ground (arith, small, values_of d))) (ground arith)
]

pub store_unsigned-bounded :
    (w d : Width) (n : ℤ) → IsInt w n → store_unsigned w d n ≡ bounded (unsigned d) n
unfolding store_unsigned
store_unsigned-bounded w d (pos n) h =
    let natural : ltb n 0 ≡ false = ground arith in
    elim (Bool-cases (ltb (2 ^ bits d - 1) n)) [
      | inl large ↦
          rw (natural, wider d w (ground (arith, h, large, values_of d, values_of w)), large) refl
      | inr small ↦
          rw (natural, small, to_unsigned-IsUint d (pos n) (ground (arith, small, values_of d)))
            (ground arith)
    ]
store_unsigned-bounded w d (negsuc n) h = refl

pub store_int-bounded : (w : Width) (n : ℤ) → IsInt w n → store_int w n ≡ bounded int n
unfolding store_int
store_int-bounded w8 (pos n) h = ground (arith, h)
store_int-bounded w8 (negsuc n) h = ground (arith, h)
store_int-bounded w16 (pos n) h = ground (arith, h)
store_int-bounded w16 (negsuc n) h = ground (arith, h)
store_int-bounded w32 (pos n) h = ground (arith, h)
store_int-bounded w32 (negsuc n) h = ground (arith, h)
store_int-bounded w64 (pos n) h = ground (arith, h)
store_int-bounded w64 (negsuc n) h = ground (arith, h)

pub store_uint-bounded : (w : Width) (n : ℤ) → IsInt w n → store_uint w n ≡ bounded uint n
unfolding store_uint
store_uint-bounded w8 (pos n) h = ground (arith, h)
store_uint-bounded w8 (negsuc n) h = ground (arith, h)
store_uint-bounded w16 (pos n) h = ground (arith, h)
store_uint-bounded w16 (negsuc n) h = ground (arith, h)
store_uint-bounded w32 (pos n) h = ground (arith, h)
store_uint-bounded w32 (negsuc n) h = ground (arith, h)
store_uint-bounded w64 (pos n) h = ground (arith, h)
store_uint-bounded w64 (negsuc n) h = ground (arith, h)

-- A number of the size, read as a signed one.
to_signed-IsInt : (w : Width) (n : ℕ) → n < 2 ^ bits w → IsInt w (to_signed w n)
to_signed-IsInt w n h = elim (Bool-cases (ltb n (2 ^ (bits w - 1)))) [
  | inl low ↦ rw low (ground (arith, low))
  | inr high ↦ rw high (ground (arith, h, high, values_of w))
]

-- What as many bytes multiply by.
abbrev spread : ℕ → ℕ → ℕ
spread m zero = m
spread m (suc k) = spread (m * 256) k

big_endian_lt :
    (m n : ℕ) (s : List ℕ) → n < m → All (λ b. b < 256) s → big_endian n s < spread m (length s)
unfolding big_endian
big_endian_lt m n [] h hs = h
big_endian_lt m n (b ∷ s) h (hb, hs) =
    big_endian_lt (m * 256) (n * 256 + b) s (omega (arith, h, hb)) hs

spread_bytes : (w : Width) → spread 1 (byte_size w) ≡ 2 ^ bits w
spread_bytes w8 = refl
spread_bytes w16 = refl
spread_bytes w32 = refl
spread_bytes w64 = refl

pub read_int-IsInt :
    (w : Width) (s : List ℕ)
    → length s ≡ byte_size w
    → All (λ b. b < 256) s
    → IsInt w (read_int w s)
read_int-IsInt w s e h =
    to_signed-IsInt w (big_endian 0 s)
      (rw (e, spread_bytes w) at (big_endian_lt 1 0 s (omega arith) h))

pub same_refl : (t : Target) → same t t ≡ true
same_refl t = ground arith

pub scan_checked-read :
    (w : Width) (t : Target) (store : ℤ → Answer Stored) (s : List ℕ)
    → length s ≡ byte_size w
    → scan_checked w t store (some s) t ≡ store (read_int w s)
unfolding scan_checked
scan_checked-read w t store s e =
    let exact : (length s == byte_size w) ≡ true = ground (arith, e) in rw (exact, same_refl t) refl
