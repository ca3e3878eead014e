-- ===== src/Sanitize/QuoteTests.antt =====
-- internal/sanitize/sanitize.go: its literals, read by a scanner that refuses a literal which may go
-- on behind whitespace.
use mathlib.Core.Option
use solo_coder.Common.{
  ℕ, ◌<◌, ◌≡◌, refl, ap, ◌∙◌, sym, inl, inr, false, Option, none, some, List, [], ◌∷◌, ◌++◌, arith,
  ◌==◌, if◌then◌else◌, Bool-cases,
}
use solo_coder.Sanitize.Quote.{quote_string}
use solo_coder.Sanitize.Quote.Reader.{is_space, skip_spaces, is_apart, Ends, LiteralReader}
use solo_coder.Sanitize.Quote.Laws.{quote_string-read_tail}

abbrev prepend : ℕ → Option (List ℕ × List ℕ) → Option (List ℕ × List ℕ)
prepend c = Option.map (λ (r : List ℕ × List ℕ). (c ∷ r.0, r.1))

unfoldable scan : List ℕ → Option (List ℕ × List ℕ)
scan [] = none
scan (c ∷ []) = if c == b'\'' then some ([], []) else none
scan (c ∷ d ∷ s) =
    let escaped = prepend b'\'' (scan s) in
    let next = prepend c (scan (d ∷ s)) in
    if c == b'\''
    then (if d == b'\''
        then escaped
        else if is_apart (skip_spaces (d ∷ s))
        then some ([], d ∷ s)
        else none)
    else next

scan_two_quotes :
    (s v rest : List ℕ)
    → scan s ≡ some (v, rest)
    → scan (b'\'' ∷ b'\'' ∷ s) ≡ some (b'\'' ∷ v, rest)
unfolding scan
scan_two_quotes s v rest h = rw h refl

scan_no_quote :
    (c : ℕ) (s v rest : List ℕ)
    → 0 < c
    → (c == b'\'') ≡ false
    → scan s ≡ some (v, rest)
    → scan (c ∷ s) ≡ some (c ∷ v, rest)
unfolding scan
scan_no_quote c [] v rest p n h = absurd (cc h)
scan_no_quote c (d ∷ s) v rest p n h = rw (n, h) refl

quote-apart : (s : List ℕ) → is_apart (skip_spaces (b'\'' ∷ s)) ≡ false
unfolding is_apart skip_spaces is_space
quote-apart [] = refl
quote-apart (c ∷ s) = refl

scan_closing_quote : (rest : List ℕ) → Ends rest → scan (b'\'' ∷ rest) ≡ some ([], rest)
unfolding scan
scan_closing_quote [] h = refl
scan_closing_quote (d ∷ s) h = elim (Bool-cases (d == b'\'')) [
  | inl quote ↦
      let is_quote : d ≡ b'\'' = ground (arith, quote) in
      let ended = ap (λ (x : ℕ). is_apart (skip_spaces (x ∷ s))) is_quote ∙ quote-apart s in
      absurd (cc (sym ended ∙ h))
  | inr plain ↦ rw (plain, h) refl
]

abbrev scanner : LiteralReader
scanner = record {
  read_tail = scan;
  two_quotes = scan_two_quotes;
  no_quote = scan_no_quote;
  closing_quote = scan_closing_quote;
}

abbrev name : List ℕ
name = b'o' ∷ b'\'' ∷ []

quote_string-read_tail_example :
    (u : List ℕ) × (quote_string (b'=' ∷ []) name ≡ (b'=' ∷ []) ++ (b'\'' ∷ u))
    × (scanner.read_tail (u ++ (b' ' ∷ b';' ∷ [])) ≡ some (name, b' ' ∷ b';' ∷ []))
unfolding is_apart skip_spaces is_space
quote_string-read_tail_example =
    quote_string-read_tail scanner (b'=' ∷ []) name (b' ' ∷ b';' ∷ [])
      (omega arith, (omega arith, tt)) refl
