-- ===== src/Sanitize/Lexer/Segments.antt =====
-- internal/sanitize/sanitize.go: what the lexer makes of a text that is written piece by piece.
pub mod Steps
pub mod Print
use solo_coder.Common.{
  ℕ, ◌+◌, ◌-◌, ◌*◌, ◌≤◌, ◌<◌, ◌≡◌, Bool, false, ◌&&◌, ◌||◌, List, [], ◌∷◌, ◌++◌, ◌==◌, length, All,
}
use solo_coder.Pgproto3.ChunkReader.{next}
use solo_coder.Sanitize.Lexer.{Part, sql, argument, is_digit}
use solo_coder.Sanitize.Quote.{quote_string}
use solo_coder.Sanitize.Runes.{decode_rune}

-- The pieces of a query: a byte that opens nothing, the literal of a string, the digits of a
-- placeholder.
pub data Segment : Type 0 where
  plain : ℕ → Segment
  literal : List ℕ → Segment
  numbered : List ℕ → Segment

unfoldable pub print : List Segment → List ℕ
print [] = []
print (plain c ∷ ss) = c ∷ print ss
print (literal s ∷ ss) = quote_string [] s ++ print ss
print (numbered ds ∷ ss) = b'$' ∷ (ds ++ print ss)

-- The number that decimal digits stand for, behind n.
unfoldable pub value : ℕ → List ℕ → ℕ
value n [] = n
value n (d ∷ ds) = value (n * 10 + (d - b'0')) ds

-- A byte is plain where, with the rune behind it, it opens neither a literal nor a comment.
unfoldable pub opens : ℕ → ℕ → Bool
opens c next =
    c == b'\''
    || c == b'"'
    || c == b'$'
    || ((c == b'e' || c == b'E') && next == b'\'')
    || (c == b'-' && next == b'-')
    || (c == b'/' && next == b'*')

abbrev pub Ascii : ℕ → Type 0
Ascii c = c < 0x80

abbrev pub Digit : ℕ → Type 0
Digit d = (b'0' ≤ d) × (d ≤ b'9')

-- The pieces in ASCII, none of which reads on into the next one.
unfoldable pub Printable : List Segment → Type 0
Printable [] = Unit
Printable (plain c ∷ ss) = Ascii c × (opens c (decode_rune (print ss)).0 ≡ false) × Printable ss
Printable (literal s ∷ ss) =
    All Ascii s × (((decode_rune (print ss)).0 == b'\'') ≡ false) × Printable ss
Printable (numbered ds ∷ ss) =
    (0 < length ds)
    × All Digit ds
    × (value 0 ds < 2147483640)
    × (is_digit (decode_rune (print ss)).0 ≡ false)
    × Printable ss

abbrev pub flush : List ℕ → List Part
flush [] = []
flush (c ∷ p) = sql (c ∷ p) ∷ []

-- The parts: a placeholder's number, and between two of them the text as it stands; p is the text
-- since the last placeholder.
unfoldable pub assemble : List ℕ → List Segment → List Part
assemble p [] = flush p
assemble p (plain c ∷ ss) = assemble (p ++ (c ∷ [])) ss
assemble p (literal s ∷ ss) = assemble (p ++ quote_string [] s) ss
assemble p (numbered ds ∷ ss) = sql p ∷ argument (value 0 ds) ∷ assemble [] ss
