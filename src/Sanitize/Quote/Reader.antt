-- ===== src/Sanitize/Quote/Reader.antt =====
-- internal/sanitize/sanitize.go: what its literals rely on of the server that reads them. The
-- server's scanner is a parameter.
use solo_coder.Common.{
  ℕ, ◌+◌, ◌-◌, ◌*◌, ◌<◌, ◌≡◌, Bool, true, false, not, ◌&&◌, ◌||◌, Option, some, List, [], ◌∷◌, leb,
  ◌==◌, if◌then◌else◌,
}

-- Whitespace of SQL: a space, \t, \n, \v, \f and \r.
unfoldable pub is_space : ℕ → Bool
is_space c = c == b' ' || (leb 9 c && leb c 13)

unfoldable pub skip_spaces : List ℕ → List ℕ
skip_spaces [] = []
skip_spaces (c ∷ s) = let rest = skip_spaces s in if is_space c then rest else c ∷ s

-- The text begins with no quote and no comment.
unfoldable pub is_apart : List ℕ → Bool
is_apart [] = true
is_apart (c ∷ []) = not (c == b'\'')
is_apart (c ∷ d ∷ s) = not (c == b'\'') && not (c == b'-' && d == b'-')

-- A text that ends the literal in front of it: behind its whitespace stands neither a quote, with
-- which a literal goes on behind a newline, nor a comment, behind which it may.
abbrev pub Ends : List ℕ → Type 0
Ends s = is_apart (skip_spaces s) ≡ true

-- The scanner of a server with standard_conforming_strings on, and an encoding in which no byte of
-- a character is a quote. Of the text behind the opening quote of a plain literal it gives the
-- literal's value and what follows the literal. Two quotes stand for one; every other byte but zero stands for itself; a
-- quote in front of a text that ends the literal ends it.
pub record LiteralReader : Type 0 where
  pub read_tail : List ℕ → Option (List ℕ × List ℕ)
  pub two_quotes :
      (s v rest : List ℕ)
      → read_tail s ≡ some (v, rest)
      → read_tail (b'\'' ∷ b'\'' ∷ s) ≡ some (b'\'' ∷ v, rest)
  pub no_quote :
      (c : ℕ) (s v rest : List ℕ)
      → 0 < c
      → (c == b'\'') ≡ false
      → read_tail s ≡ some (v, rest)
      → read_tail (c ∷ s) ≡ some (c ∷ v, rest)
  pub closing_quote : (rest : List ℕ) → Ends rest → read_tail (b'\'' ∷ rest) ≡ some ([], rest)

-- The value of a hexadecimal digit, and the bytes of a text of them, two for each byte.
unfoldable pub hex_value : ℕ → ℕ
hex_value c = if leb c b'9' then c - b'0' else c - b'a' + 10

unfoldable pub hex_decode : List ℕ → List ℕ
hex_decode (a ∷ b ∷ s) = (hex_value a * 16 + hex_value b) ∷ hex_decode s
hex_decode _ = []
