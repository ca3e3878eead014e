-- ===== src/Sanitize/Runes.antt =====
-- `utf8.DecodeRuneInString`, which the lexer of internal/sanitize/sanitize.go reads its text with.
use solo_coder.Common.{
  ℕ, ◌+◌, ◌*◌, ◌%◌, ◌<◌, ◌≡◌, Bool, ◌&&◌, List, [], ◌∷◌, arith, ltb, leb, ◌==◌, if◌then◌else◌,
  lt→ltb,
}

-- `utf8.RuneError`.
abbrev pub rune_error : ℕ
rune_error = 0xFFFD

is_continuation : ℕ → ℕ → ℕ → Bool
is_continuation lo hi b = leb lo b && leb b hi

-- The least and the greatest second byte behind this first byte of three or of four.
second_range : ℕ → ℕ × ℕ
second_range b =
    if b == 0xE0
    then (0xA0, 0xBF)
    else if b == 0xED
    then (0x80, 0x9F)
    else if b == 0xF0
    then (0x90, 0xBF)
    else if b == 0xF4
    then (0x80, 0x8F)
    else (0x80, 0xBF)

decode_two : ℕ → List ℕ → ℕ × ℕ
unfolding is_continuation
decode_two b (c ∷ _) =
    if is_continuation 0x80 0xBF c then (b % 32 * 64 + c % 64, 2) else (rune_error, 1)
decode_two b _ = (rune_error, 1)

decode_three : ℕ → List ℕ → ℕ × ℕ
unfolding is_continuation second_range
decode_three b (c ∷ d ∷ _) =
    let (lo, hi) = second_range b in
    if is_continuation lo hi c && is_continuation 0x80 0xBF d
    then (b % 16 * 4096 + c % 64 * 64 + d % 64, 3)
    else (rune_error, 1)
decode_three b _ = (rune_error, 1)

decode_four : ℕ → List ℕ → ℕ × ℕ
unfolding is_continuation second_range
decode_four b (c ∷ d ∷ e ∷ _) =
    let (lo, hi) = second_range b in
    if is_continuation lo hi c && is_continuation 0x80 0xBF d && is_continuation 0x80 0xBF e
    then (b % 8 * 262144 + c % 64 * 4096 + d % 64 * 64 + e % 64, 4)
    else (rune_error, 1)
decode_four b _ = (rune_error, 1)

-- The first rune and its width: `RuneError` of width 0 at the end, of width 1 where the bytes are
-- no UTF-8.
unfoldable pub decode_rune : List ℕ → ℕ × ℕ
unfolding decode_two decode_three decode_four
decode_rune [] = (rune_error, 0)
decode_rune (b ∷ rest) =
    if ltb b 0x80
    then (b, 1)
    else if leb 0xC2 b && leb b 0xDF
    then decode_two b rest
    else if leb 0xE0 b && leb b 0xEF
    then decode_three b rest
    else if leb 0xF0 b && leb b 0xF4
    then decode_four b rest
    else (rune_error, 1)

pub decode_rune-ascii : (c : ℕ) (rest : List ℕ) → c < 0x80 → decode_rune (c ∷ rest) ≡ (c, 1)
unfolding decode_rune
decode_rune-ascii c rest h = rw (lt→ltb c 0x80 h)

decode_two_wide : (b : ℕ) (r : List ℕ) → 0 < (decode_two b r).1
unfolding decode_two
decode_two_wide b [] = omega arith
decode_two_wide b (c ∷ r) = ground arith

decode_three_wide : (b : ℕ) (r : List ℕ) → 0 < (decode_three b r).1
unfolding decode_three
decode_three_wide b [] = omega arith
decode_three_wide b (c ∷ []) = omega arith
decode_three_wide b (c ∷ d ∷ r) = ground arith

decode_four_wide : (b : ℕ) (r : List ℕ) → 0 < (decode_four b r).1
unfolding decode_four
decode_four_wide b [] = omega arith
decode_four_wide b (c ∷ []) = omega arith
decode_four_wide b (c ∷ d ∷ []) = omega arith
decode_four_wide b (c ∷ d ∷ e ∷ r) = ground arith

-- Where there is text its first rune has a width.
pub decode_rune_wide : (b : ℕ) (r : List ℕ) → 0 < (decode_rune (b ∷ r)).1
unfolding decode_rune
decode_rune_wide b r =
    ground (arith, decode_two_wide b r, decode_three_wide b r, decode_four_wide b r)
