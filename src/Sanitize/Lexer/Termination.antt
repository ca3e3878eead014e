-- ===== src/Sanitize/Lexer/Termination.antt =====
-- The rounds that the lexer of internal/sanitize/sanitize.go takes.
use solo_coder.Sanitize.Lexer.Lengths.{
  multiline_comment_rune-NoLonger, one_line_comment_rune-NoLonger, escape_string_rune-NoLonger,
  quoted_rune-NoLonger, raw_rune-NoLonger, NoLonger,
}
use solo_coder.Common.{
  ap, Bool-cases, inl, inr, ◌⊎◌, suc, zero, ◌++◌, ◌∙◌, ℕ, ◌+◌, ◌*◌, ◌≤◌, ◌<◌, ◌≡◌, refl, true,
  Option, none, some, List, [], ◌∷◌, arith, length, length-drop, drop,
}
use solo_coder.Sanitize.Lexer.{
  Mode, raw, single_quote, double_quote, placeholder, dollar_quote, escape_string, one_line_comment,
  multiline_comment, stopped, SqlLexer, advance, next_rune, finish, otherwise, raw_rune,
  quoted_rune, escape_string_rune, one_line_comment_rune, multiline_comment_rune, rune_step,
  step_in, dollar_quote_step, placeholder_step, close_dollar_quote, index, is_prefix, run, start,
  is_digit,
}
use solo_coder.Sanitize.Runes.{rune_error, decode_rune, decode_rune_wide}

-- Twice what is left to read; the end of a number takes no byte, and so counts as a round more.
abbrev weight : Mode → ℕ → ℕ
weight stopped n = 0
weight (placeholder num) n = 2 * n + 2
weight raw n = 2 * n + 1
weight single_quote n = 2 * n + 1
weight double_quote n = 2 * n + 1
weight dollar_quote n = 2 * n + 1
weight escape_string n = 2 * n + 1
weight one_line_comment n = 2 * n + 1
weight multiline_comment n = 2 * n + 1

abbrev measure : SqlLexer → ℕ
measure l = weight l.mode (length l.rest)

weight_le : (m : Mode) (n : ℕ) → weight m n ≤ 2 * n + 2
weight_le stopped n = omega arith
weight_le (placeholder num) n = omega arith
weight_le raw n = omega arith
weight_le single_quote n = omega arith
weight_le double_quote n = omega arith
weight_le dollar_quote n = omega arith
weight_le escape_string n = omega arith
weight_le one_line_comment n = omega arith
weight_le multiline_comment n = omega arith

-- At the end of the text a rune stops the lexer, and before it makes the rest shorter.
finish-stopped : (l : SqlLexer) → (finish l).mode ≡ stopped
unfolding finish
finish-stopped l = ground arith

measure-stopped : (l : SqlLexer) → l.mode ≡ stopped → measure l ≡ 0
measure-stopped l e = ap (λ m. weight m (length l.rest)) e

rune_shorter : (s : List ℕ) → 0 < length s → length (drop (decode_rune s).1 s) < length s
rune_shorter [] h = absurd (omega (arith, h))
rune_shorter (b ∷ s) h =
    omega (arith, length-drop (decode_rune (b ∷ s)).1 (b ∷ s), decode_rune_wide b s)

below_one : (n : ℕ) → n ≡ 0 → n < 1
below_one n e = omega (arith, e)

on_rune-lt :
    (on_rune : ℕ → ℕ → SqlLexer → SqlLexer) (s : List ℕ) (l : SqlLexer)
    → l.rest ≡ drop (decode_rune s).1 s
    → ((r w : ℕ) (l : SqlLexer) → NoLonger l (on_rune r w l))
    → ((l : SqlLexer) → (on_rune rune_error 0 l).mode ≡ stopped)
    → measure (on_rune (decode_rune s).0 (decode_rune s).1 l) < 2 * length s + 1
unfolding decode_rune
on_rune-lt on_rune [] l at shorter ends =
    below_one _ (measure-stopped (on_rune rune_error 0 l) (ends l))
on_rune-lt on_rune (b ∷ s) l at shorter ends =
    let (r, w) = decode_rune (b ∷ s) in
    omega (
      arith,
      weight_le (on_rune r w l).mode (length (on_rune r w l).rest),
      shorter r w l,
      ap length at,
      rune_shorter (b ∷ s) (omega arith),
    )

rune_step-lt :
    (on_rune : ℕ → ℕ → SqlLexer → SqlLexer) (l : SqlLexer)
    → ((r w : ℕ) (l : SqlLexer) → NoLonger l (on_rune r w l))
    → ((l : SqlLexer) → (on_rune rune_error 0 l).mode ≡ stopped)
    → measure (rune_step on_rune l) < 2 * length l.rest + 1
unfolding advance
rune_step-lt on_rune l shorter ends =
    on_rune-lt on_rune l.rest (advance (next_rune l).1 l) refl shorter ends

close_dollar_quote-lt :
    (size : ℕ) (o : Option ℕ) (l : SqlLexer)
    → 0 < size
    → (0 < length l.rest) ⊎ (o ≡ none)
    → measure (close_dollar_quote size o l) < 2 * length l.rest + 1
unfolding close_dollar_quote advance
close_dollar_quote-lt size none l wide found = ground arith
close_dollar_quote-lt size (some i) l wide (inl h) =
    omega (arith, wide, h, length-drop (i + size) l.rest)
close_dollar_quote-lt size (some i) l wide (inr absent) = absurd (cc absent)

index_inside : (c : ℕ) (p s : List ℕ) → (0 < length s) ⊎ (index (c ∷ p) s ≡ none)
unfolding index is_prefix
index_inside c p [] = inr refl
index_inside c p (b ∷ s) = inl (omega arith)

dollar_quote_step-lt : (l : SqlLexer) → measure (dollar_quote_step l) < 2 * length l.rest + 1
unfolding dollar_quote_step
dollar_quote_step-lt l =
    let tail = l.dollar_tag ++ (b'$' ∷ []) in
    close_dollar_quote-lt _ _ l (omega arith) (index_inside b'$' tail l.rest)

-- A digit is a byte.
digit_wide : (s : List ℕ) → is_digit (decode_rune s).0 ≡ true → 0 < length s
unfolding decode_rune
digit_wide [] h = absurd (cc h)
digit_wide (b ∷ s) h = omega arith

placeholder_step-lt :
    (num : ℕ) (l : SqlLexer) → measure (placeholder_step num l) < 2 * length l.rest + 2
unfolding placeholder_step advance
placeholder_step-lt num l = elim (Bool-cases (is_digit (next_rune l).0)) [
  | inl digit ↦ rw digit (omega (arith, rune_shorter l.rest (digit_wide l.rest digit)))
  | inr done ↦ rw done (omega arith)
]

step-lt :
    (m : Mode) (l : SqlLexer) → ¬ (m ≡ stopped) → measure (step_in m l) < weight m (length l.rest)
unfolding step_in raw_rune otherwise quoted_rune escape_string_rune one_line_comment_rune
    multiline_comment_rune
step-lt raw l going = rune_step-lt raw_rune l raw_rune-NoLonger finish-stopped
step-lt single_quote l going =
    rune_step-lt (quoted_rune b'\'') l (quoted_rune-NoLonger b'\'') finish-stopped
step-lt double_quote l going =
    rune_step-lt (quoted_rune b'"') l (quoted_rune-NoLonger b'"') finish-stopped
step-lt (placeholder num) l going = placeholder_step-lt num l
step-lt dollar_quote l going = dollar_quote_step-lt l
step-lt escape_string l going =
    rune_step-lt escape_string_rune l escape_string_rune-NoLonger finish-stopped
step-lt one_line_comment l going =
    rune_step-lt one_line_comment_rune l one_line_comment_rune-NoLonger finish-stopped
step-lt multiline_comment l going =
    rune_step-lt multiline_comment_rune l multiline_comment_rune-NoLonger finish-stopped
step-lt stopped l going = absurd (going refl)

is_stopped : (m : Mode) → (m ≡ stopped) ⊎ (¬ (m ≡ stopped))
is_stopped stopped = inl refl
is_stopped raw = inr (λ e. absurd (cc e))
is_stopped single_quote = inr (λ e. absurd (cc e))
is_stopped double_quote = inr (λ e. absurd (cc e))
is_stopped (placeholder num) = inr (λ e. absurd (cc e))
is_stopped dollar_quote = inr (λ e. absurd (cc e))
is_stopped escape_string = inr (λ e. absurd (cc e))
is_stopped one_line_comment = inr (λ e. absurd (cc e))
is_stopped multiline_comment = inr (λ e. absurd (cc e))

-- Nothing happens to a lexer that has stopped.
pub run_stopped : (fuel : ℕ) (l : SqlLexer) → l.mode ≡ stopped → run fuel l ≡ l
unfolding run step_in
run_stopped zero l e = refl
run_stopped (suc fuel) l e = ap (λ m. run fuel (step_in m l)) e ∙ run_stopped fuel l e

zero_measure : (l : SqlLexer) → measure l ≤ 0 → l.mode ≡ stopped
zero_measure l h = go l.mode (omega (arith, h))
  where
    go : (m : Mode) → weight m (length l.rest) ≡ 0 → m ≡ stopped
    go stopped e = refl
    go (placeholder num) e = absurd (omega (arith, e))
    go raw e = absurd (omega (arith, e))
    go single_quote e = absurd (omega (arith, e))
    go double_quote e = absurd (omega (arith, e))
    go dollar_quote e = absurd (omega (arith, e))
    go escape_string e = absurd (omega (arith, e))
    go one_line_comment e = absurd (omega (arith, e))
    go multiline_comment e = absurd (omega (arith, e))

run_stops : (fuel : ℕ) (l : SqlLexer) → measure l ≤ fuel → (run fuel l).mode ≡ stopped
unfolding run
run_stops zero l h = zero_measure l h
run_stops (suc fuel) l h = elim (is_stopped l.mode) [
  | inl e ↦ ap (λ (l : SqlLexer). l.mode) (run_stopped (suc fuel) l e) ∙ e
  | inr going ↦ run_stops fuel (step_in l.mode l) (omega (arith, h, step-lt l.mode l going))
]

-- The rounds that `new_query` allows are enough: for every text the lexer has stopped at their end,
-- and so its parts are the ones that the loop of NewQuery leaves; it does not hang on any input.
pub new_query-stopped : (src : List ℕ) → (run (2 * length src + 1) (start src)).mode ≡ stopped
new_query-stopped src = run_stops (2 * length src + 1) (start src) (omega arith)
