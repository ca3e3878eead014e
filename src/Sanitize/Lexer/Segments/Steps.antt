-- ===== src/Sanitize/Lexer/Segments/Steps.antt =====
-- internal/sanitize/sanitize.go: the rounds that the lexer takes on each piece of a text.
use solo_coder.Sanitize.Lexer.Segments.{opens, Digit, Ascii}
use solo_coder.Sanitize.Quote.Laws.{quote_string-escape, escape}
use solo_coder.Sanitize.Lexer.Reaches.{settle_trans, settle_step, settle_here, Reaches}
use solo_coder.Common.{
  take_append, inr, inl, Bool-cases, append-nil, sym, true, length-append, append_assoc, ap, ℕ, ◌+◌,
  ◌-◌, ◌*◌, ◌<◌, ◌≡◌, refl, false, List, [], ◌∷◌, ◌++◌, arith, ◌==◌, length, All,
}
use solo_coder.Sanitize.Lexer.{
  placeholder, add_digit, raw_dollar, placeholder_step, open_pair, Part, sql, argument, Mode, raw,
  single_quote, SqlLexer, advance, otherwise, is_digit, raw_rune, close_quote, quoted_rune, step_in,
}
use solo_coder.Sanitize.Quote.{quote_string}
use solo_coder.Sanitize.Runes.{decode_rune, decode_rune-ascii}

abbrev pub state : Mode → List ℕ → List ℕ → List Part → SqlLexer
state m p s ps = record { pending = p; rest = s; nested = 0; dollar_tag = []; mode = m; parts = ps }

pub raw-plain :
    (c : ℕ) (p s : List ℕ) (ps : List Part)
    → Ascii c
    → opens c (decode_rune s).0 ≡ false
    → step_in raw (state raw p (c ∷ s) ps) ≡ state raw (p ++ (c ∷ [])) s ps
unfolding step_in raw_rune advance open_pair otherwise opens
raw-plain c p s ps ascii h = rw (decode_rune-ascii c s ascii) (ground (arith, ascii, h))

raw-quote :
    (p s : List ℕ) (ps : List Part)
    → step_in raw (state raw p (b'\'' ∷ s) ps) ≡ state single_quote (p ++ (b'\'' ∷ [])) s ps
unfolding step_in raw_rune advance
raw-quote p s ps = rw (decode_rune-ascii b'\'' s (omega arith)) refl

quoted-byte :
    (c : ℕ) (p s : List ℕ) (ps : List Part)
    → Ascii c
    → (c == b'\'') ≡ false
    → step_in single_quote (state single_quote p (c ∷ s) ps)
      ≡ state single_quote (p ++ (c ∷ [])) s ps
unfolding step_in quoted_rune advance otherwise
quoted-byte c p s ps ascii h = rw (decode_rune-ascii c s ascii) (ground (arith, ascii, h))

quoted-pair :
    (p s : List ℕ) (ps : List Part)
    → step_in single_quote (state single_quote p (b'\'' ∷ b'\'' ∷ s) ps)
      ≡ state single_quote (p ++ (b'\'' ∷ b'\'' ∷ [])) s ps
unfolding step_in quoted_rune advance close_quote
quoted-pair p s ps =
    rw (decode_rune-ascii b'\'' (b'\'' ∷ s) (omega arith), decode_rune-ascii b'\'' s (omega arith))
      (ap (λ q. state single_quote q s ps) (append_assoc p (b'\'' ∷ []) (b'\'' ∷ [])))

quoted-end :
    (p s : List ℕ) (ps : List Part)
    → ((decode_rune s).0 == b'\'') ≡ false
    → step_in single_quote (state single_quote p (b'\'' ∷ s) ps)
      ≡ state raw (p ++ (b'\'' ∷ [])) s ps
unfolding step_in quoted_rune advance close_quote
quoted-end p s ps h = rw (decode_rune-ascii b'\'' s (omega arith), h) refl

-- A round, in_turn the others.
pub in_turn : (l l' k : SqlLexer) → step_in l.mode l ≡ l' → Reaches l' k → Reaches l k
in_turn l l' k e r = settle_trans l l' k (settle_step l l' e) r

quoted_body :
    (s p rest : List ℕ) (ps : List Part)
    → All Ascii s
    → Reaches
        (state single_quote p (escape s ++ rest) ps)
        (state single_quote (p ++ escape s) rest ps)
unfolding escape
quoted_body [] p rest ps h =
    settle_here _ _ (ap (λ q. state single_quote q rest ps) (sym (append-nil p)))
quoted_body (c ∷ s) p rest ps (h, hs) = elim (Bool-cases (c == b'\'')) [
  | inl quote ↦
      let pair : List ℕ = b'\'' ∷ b'\'' ∷ [] in
      rw (quote, sym (append_assoc p pair (escape s)))
        (in_turn _ _ _ (quoted-pair p (escape s ++ rest) ps) (quoted_body s (p ++ pair) rest ps hs))
  | inr other ↦
      rw (other, sym (append_assoc p (c ∷ []) (escape s)))
        (in_turn _ _ _ (quoted-byte c p (escape s ++ rest) ps h other)
          (quoted_body s (p ++ (c ∷ [])) rest ps hs))
]

-- From the opening quote of a literal to behind its closing one.
pub raw_literal :
    (s p rest : List ℕ) (ps : List Part)
    → All Ascii s
    → ((decode_rune rest).0 == b'\'') ≡ false
    → Reaches
        (state raw p (quote_string [] s ++ rest) ps)
        (state raw (p ++ quote_string [] s) rest ps)
raw_literal s p rest ps h apart =
    let quote : List ℕ = b'\'' ∷ [] in
    rw
      (
        quote_string-escape [] s,
        append_assoc (escape s) quote rest,
        sym (append_assoc p quote (escape s ++ quote)),
        sym (append_assoc (p ++ quote) (escape s) quote),
      )
      (in_turn _ _ _ (raw-quote p (escape s ++ (quote ++ rest)) ps) (
        settle_trans _ _ _ (quoted_body s (p ++ quote) (quote ++ rest) ps h)
          (settle_step _ _ (quoted-end ((p ++ quote) ++ escape s) rest ps apart))))

abbrev pub Number : ℕ → Type 0
Number n = n < 2147483640

is_digit-Digit : (d : ℕ) → Digit d → is_digit d ≡ true
is_digit-Digit d (l, h) = ground (arith, l, h)

pub raw_placeholder :
    (d : ℕ) (p s : List ℕ) (ps : List Part)
    → Digit d
    → step_in raw (state raw p (b'$' ∷ d ∷ s) ps)
      ≡ state (placeholder 0) [] (d ∷ s) (ps ++ (sql p ∷ []))
unfolding step_in raw_rune raw_dollar advance
raw_placeholder d p s ps h =
    let some_text : (length p + 1 == 0) ≡ false = ground arith in
    let width : length p + 1 - 1 ≡ length p = omega arith in
    rw
      (
        decode_rune-ascii b'$' (d ∷ s) (omega arith),
        decode_rune-ascii d s (omega (arith, h)),
        is_digit-Digit d h,
        length-append p (b'$' ∷ []),
        some_text,
        width,
        take_append p (b'$' ∷ []),
      )
      refl

pub placeholder_taken :
    (n d : ℕ) (p s : List ℕ) (ps : List Part)
    → Digit d
    → Number (n * 10 + (d - b'0'))
    → step_in (placeholder n) (state (placeholder n) p (d ∷ s) ps)
      ≡ state (placeholder (n * 10 + (d - b'0'))) (p ++ (d ∷ [])) s ps
unfolding step_in placeholder_step add_digit advance
placeholder_taken n d p s ps h fits =
    rw (decode_rune-ascii d s (omega (arith, h)), is_digit-Digit d h)
      (ground (arith, fits, h.0, h.1))

pub placeholder_end :
    (n : ℕ) (p s : List ℕ) (ps : List Part)
    → is_digit (decode_rune s).0 ≡ false
    → step_in (placeholder n) (state (placeholder n) p s ps)
      ≡ state raw [] s (ps ++ (argument n ∷ []))
unfolding step_in placeholder_step
placeholder_end n p s ps h = rw h refl
