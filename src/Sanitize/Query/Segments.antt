-- ===== src/Sanitize/Query/Segments.antt =====
-- internal/sanitize/sanitize.go: `SanitizeSQL`, the lexer and the substitution together.
use solo_coder.Sanitize.Query.Expected.{rendered}
use mathlib.Core.Option
use solo_coder.Common.{ℕ, List, [], ◌∷◌}
use solo_coder.Sanitize.Lexer.{argument}
use solo_coder.Sanitize.Lexer.Segments.{Segment, plain, literal, numbered, value}
use solo_coder.Sanitize.Query.{Formats, Arg}
use solo_coder.Sanitize.Quote.{quote_string}

module _ (F : Formats) (args : List (Arg F)) where
  -- A piece of the query with the arguments in it: only a placeholder changes.
  unfoldable pub substituted : Segment → List ℕ
  substituted (plain c) = c ∷ []
  substituted (literal s) = quote_string [] s
  substituted (numbered ds) = rendered F args (argument (value 0 ds))
