-- ===== src/Sanitize/Lexer/Segments/Print.antt =====
-- internal/sanitize/sanitize.go: what the lexer makes of a text that is written piece by piece.
use solo_coder.Sanitize.Lexer.Reaches.{Reaches}
