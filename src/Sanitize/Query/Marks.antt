-- ===== src/Sanitize/Query/Marks.antt =====
-- internal/sanitize/sanitize.go: the marks that `Query.Sanitize` leaves on the arguments.
use solo_coder.Sanitize.Query.Expected.{names, named}
use solo_coder.Common.{
  ℕ, zero, suc, ◌+◌, ◌<◌, ◌≡◌, refl, sym, ap, ◌∙◌, Bool, true, false, ◌||◌, List, [], ◌∷◌, arith,
  ◌==◌,
}
use solo_coder.Sanitize.Lexer.{Part, sql, argument}
use solo_coder.Sanitize.Query.{mark}

-- The marks that one part, and a list of them, leave.
unfoldable pub mark_part : Part → List Bool → List Bool
mark_part (sql s) us = us
mark_part (argument zero) us = us
mark_part (argument (suc i)) us = mark i us

unfoldable pub mark_parts : List Part → List Bool → List Bool
unfolding mark_part
mark_parts [] us = us
mark_parts (p ∷ ps) us = mark_parts ps (mark_part p us)

-- The marks, where i is the index of the head.
unfoldable pub marked : (ℕ → Bool) → ℕ → List Bool → List Bool
marked f i [] = []
marked f i (u ∷ us) = (u || f i) ∷ marked f (suc i) us

or_assoc : (a b c : Bool) → ((a || b) || c) ≡ (a || (b || c))
or_assoc true b c = refl
or_assoc false b c = refl

or_true : (a : Bool) → (a || true) ≡ true
or_true true = refl
or_true false = refl

or_false : (a : Bool) → (a || false) ≡ a
or_false true = refl
or_false false = refl

marked_or :
    (f g : ℕ → Bool) (i : ℕ) (us : List Bool)
    → marked g i (marked f i us) ≡ marked (λ j. f j || g j) i us
unfolding marked
marked_or f g i [] = refl
marked_or f g i (u ∷ us) =
    rw (or_assoc u (f i) (g i)) (ap (◌∷◌ (u || (f i || g i))) (marked_or f g (suc i) us))

marked_none : (i : ℕ) (us : List Bool) → marked (λ _. false) i us ≡ us
unfolding marked
marked_none i [] = refl
marked_none i (true ∷ us) = ap (◌∷◌ true) (marked_none (suc i) us)
marked_none i (false ∷ us) = ap (◌∷◌ false) (marked_none (suc i) us)

marked_past : (n i : ℕ) (us : List Bool) → n < i → marked (λ j. n == j) i us ≡ us
unfolding marked
marked_past n i [] h = refl
marked_past n i (true ∷ us) h = ap (◌∷◌ true) (marked_past n (suc i) us (omega (arith, h)))
marked_past n i (false ∷ us) h =
    let other : (n == i) ≡ false = ground (arith, h) in
    rw other (ap (◌∷◌ false) (marked_past n (suc i) us (omega (arith, h))))

marked-mark : (k i : ℕ) (us : List Bool) → marked (λ j. (i + k) == j) i us ≡ mark k us
unfolding marked mark
marked-mark k i [] = refl
marked-mark zero i (u ∷ us) =
    let here : (i + zero == i) ≡ true = ground arith in
    rw (here, or_true u) (ap (◌∷◌ true) (marked_past (i + zero) (suc i) us (omega arith)))
marked-mark (suc k) i (u ∷ us) =
    let other : (i + suc k == i) ≡ false = ground arith in
    let shift : i + suc k ≡ suc i + k = omega arith in
    rw (other, or_false u)
      (ap (◌∷◌ u) (ap (λ n. marked (λ j. n == j) (suc i) us) shift ∙ marked-mark k (suc i) us))

mark_part-marked : (p : Part) (us : List Bool) → mark_part p us ≡ marked (λ j. names j p) 0 us
unfolding mark_part
mark_part-marked (sql s) us = sym (marked_none 0 us)
mark_part-marked (argument zero) us = sym (marked_none 0 us)
mark_part-marked (argument (suc i)) us =
    let index : 0 + i ≡ i = omega arith in
    sym (ap (λ n. marked (λ j. n == j) 0 us) (sym index) ∙ marked-mark i 0 us)

pub mark_parts-marked :
    (ps : List Part) (us : List Bool) → mark_parts ps us ≡ marked (λ j. named j ps) 0 us
unfolding mark_parts
mark_parts-marked [] us = sym (marked_none 0 us)
mark_parts-marked (p ∷ ps) us =
    ap (mark_parts ps) (mark_part-marked p us)
    ∙ mark_parts-marked ps (marked (λ j. names j p) 0 us)
    ∙ marked_or (λ j. names j p) (λ j. named j ps) 0 us
