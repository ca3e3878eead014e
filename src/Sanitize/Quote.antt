-- ===== src/Sanitize/Quote.antt =====
-- internal/sanitize/sanitize.go: `QuoteString` and `QuoteBytes`.
pub mod Reader
pub mod Laws
use mathlib.Core.List.{foldl}
use mathlib.Core.Option
use solo_coder.Common.{ℕ, ◌+◌, ◌-◌, ◌/◌, ◌%◌, Option, List, [], ◌∷◌, ◌++◌, ltb, ◌==◌, if◌then◌else◌}

-- One round of the loop of `QuoteString`.
unfoldable pub append_quoted : List ℕ → ℕ → List ℕ
append_quoted dst c = if c == b'\'' then dst ++ (b'\'' ∷ b'\'' ∷ []) else dst ++ (c ∷ [])

unfoldable pub quote_string : List ℕ → List ℕ → List ℕ
quote_string dst str =
    let dst = dst ++ (b'\'' ∷ []) in let dst = foldl append_quoted dst str in dst ++ (b'\'' ∷ [])

-- A digit of `hex.Encode`.
unfoldable pub hex_digit : ℕ → ℕ
hex_digit n = if ltb n 10 then b'0' + n else b'a' + (n - 10)

-- `hex.Encode`.
unfoldable pub hex_encode : List ℕ → List ℕ
hex_encode [] = []
hex_encode (b ∷ bs) = hex_digit (b / 16) ∷ hex_digit (b % 16) ∷ hex_encode bs

unfoldable pub quote_bytes : List ℕ → List ℕ → List ℕ
quote_bytes dst [] = dst ++ (b'\'' ∷ b'\\' ∷ b'x' ∷ b'\'' ∷ [])
quote_bytes dst (b ∷ bs) = dst ++ (b'\'' ∷ b'\\' ∷ b'x' ∷ (hex_encode (b ∷ bs) ++ (b'\'' ∷ [])))
