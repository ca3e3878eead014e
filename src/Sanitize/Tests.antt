-- ===== src/Sanitize/Tests.antt =====
-- internal/sanitize/sanitize.go on concrete queries.
use solo_coder.Sanitize.Query.Expected.{expected}
use mathlib.Core.Option
use solo_coder.Common.{ℕ, ◌+◌, ◌*◌, ◌≡◌, refl, List, [], ◌∷◌, length}
use solo_coder.Common.Int.{negsuc}
use solo_coder.Pgproto3.Decimal.{digits}
use solo_coder.Sanitize.Lexer.{
  sql, argument, stopped, advance, finish, otherwise, raw_dollar, open_pair, raw_rune, add_digit,
  placeholder_step, step_in, run, start, new_query,
}
use solo_coder.Sanitize.Lexer.Segments.{Segment, plain, literal, numbered}
use solo_coder.Sanitize.Lexer.Termination.{new_query-stopped}
use solo_coder.Sanitize.Query.{
  Arg, append_value, Formats, null, int64, text, done, append_int, nth, mark, check_use,
  write_value, write_argument, write_part, write_parts, sanitize, sanitize_sql,
}
use solo_coder.Sanitize.Query.Laws.{sanitize-expected}
use solo_coder.Sanitize.Runes.{decode_rune}

-- A run's floats and times: texts.
abbrev plain_formats : Formats
plain_formats = record {
  Float = List ℕ;
  Time = List ℕ;
  append_float = λ s. s;
  append_time = λ s. s;
}

-- `x='$1'/$12;`
abbrev pieces : List Segment
pieces =
    plain b'x'
    ∷ plain b'='
    ∷ literal (b'$' ∷ b'1' ∷ [])
    ∷ plain b'/'
    ∷ numbered (b'1' ∷ [])
    ∷ plain b';'
    ∷ []

abbrev name : List ℕ
name = b'o' ∷ b'\'' ∷ []

new_query-stopped_example : (run (2 * length name + 1) (start name)).mode ≡ stopped
new_query-stopped_example = new_query-stopped name

sanitize-expected_example :
    sanitize plain_formats (sql name ∷ argument 2 ∷ []) (null ∷ text name ∷ [])
    ≡ expected plain_formats (sql name ∷ argument 2 ∷ []) (null ∷ text name ∷ [])
sanitize-expected_example =
    sanitize-expected plain_formats (sql name ∷ argument 2 ∷ []) (null ∷ text name ∷ [])

abbrev name_argument : List (Arg plain_formats)
name_argument = text name ∷ []

-- The lexer on the injection of a negative number behind a minus sign, and on a literal.
sanitize_sql_runs :
    sanitize_sql plain_formats (b'-' ∷ b'$' ∷ b'1' ∷ []) (int64 (negsuc 0) ∷ [])
    ≡ done (b'-' ∷ b' ' ∷ b'-' ∷ b'1' ∷ b' ' ∷ [])
unfolding sanitize_sql new_query run step_in raw_rune raw_dollar open_pair placeholder_step
    add_digit finish otherwise sanitize write_parts write_part write_argument write_value
    append_value append_int digits nth mark check_use decode_rune advance
sanitize_sql_runs = refl
