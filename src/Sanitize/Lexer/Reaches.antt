-- ===== src/Sanitize/Lexer/Reaches.antt =====
-- internal/sanitize/sanitize.go: what the lexer comes to, whatever the number of its rounds.
use solo_coder.Common.{ℕ, zero, suc, ◌+◌, ◌≡◌, refl, sym, ap, ◌∙◌, arith}
use solo_coder.Sanitize.Lexer.{stopped, SqlLexer, step_in, run}
use solo_coder.Sanitize.Lexer.Termination.{run_stopped}

abbrev pub Reaches : SqlLexer → SqlLexer → Type 0
Reaches l l' = (n : ℕ) × (run n l ≡ l')

run_add : (m n : ℕ) (l : SqlLexer) → run (m + n) l ≡ run n (run m l)
unfolding run
run_add zero n l = let e : 0 + n ≡ n = omega arith in rw e refl
run_add (suc m) n l =
    let e : suc m + n ≡ suc (m + n) = omega arith in rw e (run_add m n (step_in l.mode l))

pub settle_here : (l l' : SqlLexer) → l ≡ l' → Reaches l l'
unfolding run
settle_here l l' e = (0, e)

pub settle_step : (l l' : SqlLexer) → step_in l.mode l ≡ l' → Reaches l l'
unfolding run
settle_step l l' e = (1, e)

pub settle_trans : (k l m : SqlLexer) → Reaches k l → Reaches l m → Reaches k m
settle_trans k l m (a, e) (b, f) = (a + b, run_add a b k ∙ ap (run b) e ∙ f)

-- Where the lexer has stopped after any number of rounds, it is where it comes to.
pub run_settles :
    (n : ℕ) (l l' : SqlLexer)
    → (run n l).mode ≡ stopped
    → Reaches l l'
    → l'.mode ≡ stopped
    → run n l ≡ l'
run_settles n l l' ends (m, e) ends' =
    let flip : n + m ≡ m + n = omega arith in
    sym (run_stopped m (run n l) ends)
    ∙ sym (run_add n m l)
    ∙ ap (λ k. run k l) flip
    ∙ run_add m n l
    ∙ ap (run n) e
    ∙ run_stopped n l' ends'
