-- ===== src/Sanitize/Quote/Laws.antt =====
-- internal/sanitize/sanitize.go: a quoted value is read as the value it was written from.
use mathlib.Core.List.{foldl}
use solo_coder.Common.{
  ap, ℕ, ◌<◌, ◌≡◌, sym, ◌∙◌, inl, inr, some, List, [], ◌∷◌, ◌++◌, append-nil, append_assoc, arith,
  ◌==◌, if◌then◌else◌, Bool-cases, All,
}
use solo_coder.Sanitize.Quote.{append_quoted, quote_string}
use solo_coder.Sanitize.Quote.Reader.{Ends, LiteralReader}

-- The text between the quotes.
unfoldable pub escape : List ℕ → List ℕ
escape [] = []
escape (c ∷ s) = if c == b'\'' then b'\'' ∷ b'\'' ∷ escape s else c ∷ escape s

foldl-escape : (dst s : List ℕ) → foldl append_quoted dst s ≡ dst ++ escape s
unfolding escape append_quoted
foldl-escape dst [] = sym (append-nil dst)
foldl-escape dst (c ∷ s) = elim (Bool-cases (c == b'\'')) [
  | inl quote ↦ rw quote (
      foldl-escape (dst ++ (b'\'' ∷ b'\'' ∷ [])) s
      ∙ append_assoc dst (b'\'' ∷ b'\'' ∷ []) (escape s))
  | inr other ↦ rw other (foldl-escape (dst ++ (c ∷ [])) s ∙ append_assoc dst (c ∷ []) (escape s))
]

pub quote_string-escape :
    (dst s : List ℕ) → quote_string dst s ≡ dst ++ (b'\'' ∷ (escape s ++ (b'\'' ∷ [])))
unfolding quote_string
quote_string-escape dst s = rw (foldl-escape (dst ++ (b'\'' ∷ [])) s) (
    append_assoc (dst ++ (b'\'' ∷ [])) (escape s) (b'\'' ∷ [])
    ∙ append_assoc dst (b'\'' ∷ []) (escape s ++ (b'\'' ∷ [])))

read_tail-escape :
    (r : LiteralReader) (s rest : List ℕ)
    → All (λ c. 0 < c) s
    → Ends rest
    → r.read_tail (escape s ++ (b'\'' ∷ rest)) ≡ some (s, rest)
unfolding escape
read_tail-escape r [] rest bytes ends = r.closing_quote rest ends
read_tail-escape r (c ∷ s) rest (some_byte, bytes) ends =
    let tail = read_tail-escape r s rest bytes ends in
    elim (Bool-cases (c == b'\'')) [
      | inl quote ↦
          let is_quote : c ≡ b'\'' = ground (arith, quote) in
          rw quote (r.two_quotes _ s rest tail ∙ ap (λ q. some (q ∷ s, rest)) (sym is_quote))
      | inr plain ↦ rw plain (r.no_quote c _ s rest some_byte plain tail)
    ]

-- No string ends its literal early. For every scanner with the laws of LiteralReader, every string
-- without a zero byte, and every text behind it that ends a literal: what QuoteString appends to the
-- buffer is a quote and a text of which, with the text behind it, the scanner makes the string, and
-- leaves the text behind it.
pub quote_string-read_tail :
    (r : LiteralReader) (dst s rest : List ℕ)
    → All (λ c. 0 < c) s
    → Ends rest
    → (u : List ℕ) × (quote_string dst s ≡ dst ++ (b'\'' ∷ u))
      × (r.read_tail (u ++ rest) ≡ some (s, rest))
quote_string-read_tail r dst s rest bytes ends = (
  escape s ++ (b'\'' ∷ []),
  quote_string-escape dst s,
  rw (append_assoc (escape s) (b'\'' ∷ []) rest) (read_tail-escape r s rest bytes ends),
)
