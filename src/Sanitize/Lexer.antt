-- ===== src/Sanitize/Lexer.antt =====
-- internal/sanitize/sanitize.go: the lexer. A state function's loop is a mode that is kept, one
-- round of it a step.
pub mod Lengths
pub mod Termination
pub mod Reaches
pub mod Segments
use mathlib.Core.Option
use solo_coder.Common.{
  ◌/◌, ltb, ℕ, zero, suc, ◌+◌, ◌-◌, ◌*◌, Bool, true, false, not, ◌&&◌, ◌||◌, Option, none, some,
  List, [], ◌∷◌, ◌++◌, leb, ◌==◌, if◌then◌else◌, length, take, drop,
}
use solo_coder.Sanitize.Runes.{rune_error, decode_rune}

-- The parts of a query.
pub data Part : Type 0 where
  sql : List ℕ → Part
  argument : ℕ → Part

-- The state functions; `placeholder` carries the number read so far, and `stopped` is nil.
pub data Mode : Type 0 where
  raw single_quote double_quote : Mode
  placeholder : ℕ → Mode
  dollar_quote escape_string one_line_comment multiline_comment stopped : Mode

-- `sqlLexer`: `pending` is `src[start:pos]`, and `rest` is `src[pos:]`.
pub record SqlLexer : Type 0 where
  pub pending : List ℕ
  pub rest : List ℕ
  pub nested : ℕ
  pub dollar_tag : List ℕ
  pub mode : Mode
  pub parts : List Part

abbrev pub max_int32 : ℕ
max_int32 = 2147483647

-- `l.pos += width`.
unfoldable pub advance : ℕ → SqlLexer → SqlLexer
advance width l = record l { pending = l.pending ++ take width l.rest; rest = drop width l.rest }

abbrev pub enter : Mode → SqlLexer → SqlLexer
enter m l = record l { mode = m }

-- The rune that comes next, and its width.
abbrev pub next_rune : SqlLexer → ℕ × ℕ
next_rune l = decode_rune l.rest

-- `case utf8.RuneError`: what is pending becomes a part, and the lexer stops.
unfoldable pub finish : SqlLexer → SqlLexer
finish l =
    if length l.pending == 0
    then enter stopped l
    else record l { parts = l.parts ++ (sql l.pending ∷ []); pending = []; mode = stopped }

-- The end of each `switch`: a rune that is no character stops the lexer, any other is passed over.
unfoldable pub otherwise : ℕ → ℕ → SqlLexer → SqlLexer
otherwise r width l = if r == rune_error && not (width == 3) then finish l else l

-- `isDollarTagRune`.
unfoldable pub is_dollar_tag_rune : ℕ → Bool → Bool
is_dollar_tag_rune r first =
    r == b'_'
    || (leb b'a' r && leb r b'z')
    || (leb b'A' r && leb r b'Z')
    || (not first && leb b'0' r && leb r b'9')
    || (leb 0x80 r && not (r == rune_error))

-- `scanDollarQuoteTag`: the tag's length. Each round takes a byte at least, so as much fuel as there
-- are bytes is enough.
unfoldable pub scan_dollar_quote_tag : ℕ → Bool → ℕ → List ℕ → Option ℕ
scan_dollar_quote_tag fuel first i [] = none
scan_dollar_quote_tag zero first i (b ∷ s) = none
scan_dollar_quote_tag (suc fuel) first i (b ∷ s) =
    let (r, w) = decode_rune (b ∷ s) in
    let more = scan_dollar_quote_tag fuel false (i + w) (drop w (b ∷ s)) in
    if r == b'$' then some i else if not (is_dollar_tag_rune r first) then none else more

abbrev pub is_digit : ℕ → Bool
is_digit r = leb b'0' r && leb r b'9'

-- Behind a '$' that is no placeholder: a dollar-quoted string, or nothing special.
unfoldable pub open_dollar_quote : Option ℕ → SqlLexer → SqlLexer
open_dollar_quote none l = l
open_dollar_quote (some n) l = record (advance (n + 1) l) {
  dollar_tag = take n l.rest;
  mode = dollar_quote;
}

-- `case '$'`, behind it; `width` is its own.
unfoldable pub raw_dollar : ℕ → SqlLexer → SqlLexer
raw_dollar width l =
    if is_digit (next_rune l).0
    then (if length l.pending == 0 then record l { mode = placeholder 0 } else record l {
      parts = l.parts ++ (sql (take (length l.pending - width) l.pending) ∷ []);
      pending = [];
      mode = placeholder 0;
    })
    else open_dollar_quote (scan_dollar_quote_tag (length l.rest) true 0 l.rest) l

-- Two runes open this mode, of which the second is this one; else nothing special.
unfoldable pub open_pair : ℕ → Mode → SqlLexer → SqlLexer
open_pair r m l = if (next_rune l).0 == r then enter m (advance (next_rune l).1 l) else l

-- `rawState`, behind the rune.
unfoldable pub raw_rune : ℕ → ℕ → SqlLexer → SqlLexer
raw_rune r width l =
    if r == b'e' || r == b'E'
    then open_pair b'\'' escape_string l
    else if r == b'\''
    then enter single_quote l
    else if r == b'"'
    then enter double_quote l
    else if r == b'$'
    then raw_dollar width l
    else if r == b'-'
    then open_pair b'-' one_line_comment l
    else if r == b'/'
    then open_pair b'*' multiline_comment l
    else otherwise r width l

-- A quote, behind it: two of them are one inside the string, a single one ends it.
unfoldable pub close_quote : ℕ → SqlLexer → SqlLexer
close_quote q l = if (next_rune l).0 == q then advance (next_rune l).1 l else enter raw l

-- `singleQuoteState` and `doubleQuoteState`, behind the rune; q is the quote.
unfoldable pub quoted_rune : ℕ → ℕ → ℕ → SqlLexer → SqlLexer
quoted_rune q r width l = if r == q then close_quote q l else otherwise r width l

-- `placeholderState`: the clamp keeps the number an int32.
unfoldable pub add_digit : ℕ → ℕ → ℕ
add_digit num r = if ltb ((max_int32 - 9) / 10) num then max_int32 else num * 10 + (r - b'0')

-- The rune that ends the number is not taken.
unfoldable pub placeholder_step : ℕ → SqlLexer → SqlLexer
placeholder_step num l =
    if is_digit (next_rune l).0
    then enter (placeholder (add_digit num (next_rune l).0)) (advance (next_rune l).1 l)
    else record l { parts = l.parts ++ (argument num ∷ []); pending = []; mode = raw }

unfoldable pub is_prefix : List ℕ → List ℕ → Bool
is_prefix [] s = true
is_prefix (p ∷ ps) [] = false
is_prefix (p ∷ ps) (c ∷ s) = p == c && is_prefix ps s

-- `strings.Index`.
unfoldable pub index : List ℕ → List ℕ → Option ℕ
index p [] = if is_prefix p [] then some 0 else none
index p (c ∷ s) = if is_prefix p (c ∷ s) then some 0 else Option.map suc (index p s)

-- What the search for the closing tag found.
unfoldable pub close_dollar_quote : ℕ → Option ℕ → SqlLexer → SqlLexer
close_dollar_quote size (some i) l = record (advance (i + size) l) { dollar_tag = []; mode = raw }
close_dollar_quote size none l =
    if length l.pending + length l.rest == 0
    then record l { rest = []; mode = stopped }
    else record l {
      parts = l.parts ++ (sql (l.pending ++ l.rest) ∷ []);
      pending = [];
      rest = [];
      mode = stopped;
    }

-- `dollarQuoteState`.
unfoldable pub dollar_quote_step : SqlLexer → SqlLexer
dollar_quote_step l =
    let closer = b'$' ∷ (l.dollar_tag ++ (b'$' ∷ [])) in
    close_dollar_quote (length closer) (index closer l.rest) l

-- `escapeStringState`, behind the rune: a backslash takes the next rune with it.
unfoldable pub escape_string_rune : ℕ → ℕ → SqlLexer → SqlLexer
escape_string_rune r width l =
    if r == b'\\'
    then advance (next_rune l).1 l
    else if r == b'\''
    then close_quote b'\'' l
    else otherwise r width l

-- `oneLineCommentState`, behind the rune.
unfoldable pub one_line_comment_rune : ℕ → ℕ → SqlLexer → SqlLexer
one_line_comment_rune r width l =
    if r == b'\\'
    then advance (next_rune l).1 l
    else if r == b'\n' || r == b'\r'
    then enter raw l
    else otherwise r width l

-- `*/`, behind its first byte.
unfoldable pub close_comment : SqlLexer → SqlLexer
close_comment l =
    let l' = advance (next_rune l).1 l in
    if not ((next_rune l).0 == b'/')
    then l
    else if l.nested == 0
    then enter raw l'
    else record l' { nested = l.nested - 1 }

-- `multilineCommentState`, behind the rune: comments nest.
unfoldable pub multiline_comment_rune : ℕ → ℕ → SqlLexer → SqlLexer
multiline_comment_rune r width l =
    if r == b'/'
    then (if (next_rune l).0 == b'*'
        then record (advance (next_rune l).1 l) { nested = l.nested + 1 }
        else l)
    else if r == b'*'
    then close_comment l
    else otherwise r width l

-- One round, after the rune was read and `l.pos += width`.
abbrev pub rune_step : (ℕ → ℕ → SqlLexer → SqlLexer) → SqlLexer → SqlLexer
rune_step on_rune l = on_rune (next_rune l).0 (next_rune l).1 (advance (next_rune l).1 l)

unfoldable pub step_in : Mode → SqlLexer → SqlLexer
step_in raw l = rune_step raw_rune l
step_in single_quote l = rune_step (quoted_rune b'\'') l
step_in double_quote l = rune_step (quoted_rune b'"') l
step_in (placeholder num) l = placeholder_step num l
step_in dollar_quote l = dollar_quote_step l
step_in escape_string l = rune_step escape_string_rune l
step_in one_line_comment l = rune_step one_line_comment_rune l
step_in multiline_comment l = rune_step multiline_comment_rune l
step_in stopped l = l

unfoldable pub run : ℕ → SqlLexer → SqlLexer
run zero l = l
run (suc fuel) l = run fuel (step_in l.mode l)

abbrev pub start : List ℕ → SqlLexer
start src = record { pending = []; rest = src; nested = 0; dollar_tag = []; mode = raw; parts = [] }

-- `NewQuery`. Twice as many rounds as there are bytes, and one, are enough.
unfoldable pub new_query : List ℕ → List Part
new_query src = (run (2 * length src + 1) (start src)).parts
