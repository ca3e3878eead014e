-- ===== src/Sanitize/Lexer/Lengths.antt =====
-- internal/sanitize/sanitize.go: no state function gives bytes back.
use solo_coder.Common.{ℕ, ◌+◌, ◌≤◌, true, Option, none, some, arith, length, length-drop}
use solo_coder.Sanitize.Lexer.{
  Mode, escape_string, one_line_comment, multiline_comment, SqlLexer, advance, open_pair,
  open_dollar_quote, next_rune, finish, otherwise, scan_dollar_quote_tag, raw_dollar, raw_rune,
  close_quote, quoted_rune, escape_string_rune, one_line_comment_rune, close_comment,
  multiline_comment_rune,
}

abbrev pub NoLonger : SqlLexer → SqlLexer → Type 0
NoLonger l l' = length l'.rest ≤ length l.rest

advance-NoLonger : (w : ℕ) (l : SqlLexer) → NoLonger l (advance w l)
unfolding advance
advance-NoLonger w l = omega (arith, length-drop w l.rest)

otherwise-NoLonger : (r w : ℕ) (l : SqlLexer) → NoLonger l (otherwise r w l)
unfolding otherwise finish
otherwise-NoLonger r w l = ground arith

open_pair-NoLonger : (r : ℕ) (m : Mode) (l : SqlLexer) → NoLonger l (open_pair r m l)
unfolding open_pair
open_pair-NoLonger r m l = ground (arith, advance-NoLonger (next_rune l).1 l)

close_quote-NoLonger : (q : ℕ) (l : SqlLexer) → NoLonger l (close_quote q l)
unfolding close_quote
close_quote-NoLonger q l = ground (arith, advance-NoLonger (next_rune l).1 l)

open_dollar_quote-NoLonger : (o : Option ℕ) (l : SqlLexer) → NoLonger l (open_dollar_quote o l)
unfolding open_dollar_quote
open_dollar_quote-NoLonger none l = omega arith
open_dollar_quote-NoLonger (some n) l = omega (arith, advance-NoLonger (n + 1) l)

raw_dollar-NoLonger : (w : ℕ) (l : SqlLexer) → NoLonger l (raw_dollar w l)
unfolding raw_dollar
raw_dollar-NoLonger w l =
    ground
      (arith, open_dollar_quote-NoLonger (scan_dollar_quote_tag (length l.rest) true 0 l.rest) l)

pub raw_rune-NoLonger : (r w : ℕ) (l : SqlLexer) → NoLonger l (raw_rune r w l)
unfolding raw_rune
raw_rune-NoLonger r w l = ground (
  arith,
  open_pair-NoLonger b'\'' escape_string l,
  open_pair-NoLonger b'-' one_line_comment l,
  open_pair-NoLonger b'*' multiline_comment l,
  raw_dollar-NoLonger w l,
  otherwise-NoLonger r w l,
)

pub quoted_rune-NoLonger : (q r w : ℕ) (l : SqlLexer) → NoLonger l (quoted_rune q r w l)
unfolding quoted_rune
quoted_rune-NoLonger q r w l = ground (arith, close_quote-NoLonger q l, otherwise-NoLonger r w l)

pub escape_string_rune-NoLonger : (r w : ℕ) (l : SqlLexer) → NoLonger l (escape_string_rune r w l)
unfolding escape_string_rune
escape_string_rune-NoLonger r w l = ground (
  arith,
  advance-NoLonger (next_rune l).1 l,
  close_quote-NoLonger b'\'' l,
  otherwise-NoLonger r w l,
)

pub one_line_comment_rune-NoLonger :
    (r w : ℕ) (l : SqlLexer) → NoLonger l (one_line_comment_rune r w l)
unfolding one_line_comment_rune
one_line_comment_rune-NoLonger r w l =
    ground (arith, advance-NoLonger (next_rune l).1 l, otherwise-NoLonger r w l)

close_comment-NoLonger : (l : SqlLexer) → NoLonger l (close_comment l)
unfolding close_comment
close_comment-NoLonger l = ground (arith, advance-NoLonger (next_rune l).1 l)

pub multiline_comment_rune-NoLonger :
    (r w : ℕ) (l : SqlLexer) → NoLonger l (multiline_comment_rune r w l)
unfolding multiline_comment_rune
multiline_comment_rune-NoLonger r w l =
    ground (
      arith,
      advance-NoLonger (next_rune l).1 l,
      close_comment-NoLonger l,
      otherwise-NoLonger r w l,
    )
