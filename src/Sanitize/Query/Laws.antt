-- ===== src/Sanitize/Query/Laws.antt =====
-- internal/sanitize/sanitize.go: `Query.Sanitize`, against a description without its state.
use solo_coder.Sanitize.Query.Marks.{mark_parts-marked, marked, mark_parts, mark_part}
use solo_coder.Sanitize.Query.Expected.{
  unless_twice, unless-bind, written, success, rendered, named, value_failure, part_failure,
  first_unused, first_failure, failure, unless, expected,
}
use solo_coder.Common.{
  inr, inl, append_assoc, append-nil, Bool-cases, ℕ, zero, suc, ◌≡◌, refl, ap, ◌∙◌, Bool, false,
  Option, none, some, List, [], ◌∷◌, ◌++◌, map,
}
use solo_coder.Pgproto3.Read.Laws.{flat}
use solo_coder.Sanitize.Lexer.{Part, sql, argument}
use solo_coder.Sanitize.Query.{
  ◌>>=◌, sanitize, write_value, write_parts, write_part, write_argument, check_use, append_value,
  Formats, Arg, unused_argument, Outcome, failed, done, nth, mark,
}
use mathlib.Core.Option

-- The last loop finds the first argument that no part names.
check_use-first_unused :
    {A : Type 0} (i : ℕ) (args : List A) (ps : List Part)
    → check_use i (marked (λ j. named j ps) i (map (λ _. false) args))
      ≡ unless (Option.map unused_argument (first_unused i args ps)) (done tt)
unfolding check_use marked first_unused
check_use-first_unused i [] ps = refl
check_use-first_unused i (a ∷ args) ps = elim (Bool-cases (named i ps)) [
  | inl used ↦ rw used (check_use-first_unused (suc i) args ps)
  | inr unused ↦ rw unused refl
]

module _ (F : Formats) where
  write_value-expected :
      (i : ℕ) (buf : List ℕ) (us : List Bool) (v : Outcome (List ℕ))
      → write_value F i buf us v
        ≡ unless (failure v) (done (buf ++ (b' ' ∷ (success [] v ++ (b' ' ∷ []))), mark i us))
  unfolding write_value
  write_value-expected i buf us (failed e) = refl
  write_value-expected i buf us (done p) =
      rw
        (
          append_assoc (buf ++ (b' ' ∷ [])) p (b' ' ∷ []),
          append_assoc buf (b' ' ∷ []) (p ++ (b' ' ∷ [])),
        )
        refl

  write_argument-expected :
      (i : ℕ) (buf : List ℕ) (us : List Bool) (arg : Option (Arg F))
      → write_argument F i buf us arg
        ≡ unless (value_failure F arg) (done (buf ++ written F arg, mark i us))
  unfolding write_argument
  write_argument-expected i buf us none = refl
  write_argument-expected i buf us (some arg) = write_value-expected i buf us (append_value F arg)

  write_part-expected :
      (args : List (Arg F)) (buf : List ℕ) (us : List Bool) (p : Part)
      → write_part F args buf us p
        ≡ unless (part_failure F args p) (done (buf ++ rendered F args p, mark_part p us))
  unfolding write_part mark_part
  write_part-expected args buf us (sql s) = refl
  write_part-expected args buf us (argument zero) = refl
  write_part-expected args buf us (argument (suc i)) = write_argument-expected i buf us (nth i args)

  write_parts-expected :
      (args : List (Arg F)) (buf : List ℕ) (us : List Bool) (ps : List Part)
      → write_parts F args buf us ps
        ≡ unless
            (first_failure F args ps)
            (done (buf ++ flat (rendered F args) ps, mark_parts ps us))
  unfolding write_parts mark_parts flat
  write_parts-expected args buf us [] = rw (append-nil buf) refl
  write_parts-expected args buf us (p ∷ ps) =
      let rest : List ℕ × List Bool → Outcome (List ℕ × List Bool) =
        λ r. write_parts F args r.0 r.1 ps in
      ap (λ r. r >>= rest) (write_part-expected args buf us p)
      ∙ unless-bind (part_failure F args p) _ rest
      ∙ ap (unless (part_failure F args p))
          (write_parts-expected args (buf ++ rendered F args p) (mark_part p us) ps)
      ∙ unless_twice (part_failure F args p) (first_failure F args ps) _
      ∙ ap
          (λ text.
            unless (first_failure F args (p ∷ ps)) (done (text, mark_parts ps (mark_part p us))))
          (append_assoc buf (rendered F args p) (flat (rendered F args) ps))

  -- For every list of parts and of arguments, Sanitize does what its description says: the error of
  -- the first part that fails (argument 0, an index past the arguments, a value of another type),
  -- else an error that names the first argument no part uses, else the text of the parts in order,
  -- each argument's value between two spaces.
  pub sanitize-expected :
      (ps : List Part) (args : List (Arg F)) → sanitize F ps args ≡ expected F ps args
  unfolding sanitize expected
  sanitize-expected ps args =
      let rest : List ℕ × List Bool → Outcome (List ℕ) = λ r. check_use 0 r.1 >>= (λ _. done r.0) in
      let unused = Option.map unused_argument (first_unused 0 args ps) in
      let buf = flat (rendered F args) ps in
      let us = map (λ _. false) args in
      ap (λ r. r >>= rest) (write_parts-expected args [] us ps)
      ∙ unless-bind (first_failure F args ps) _ rest
      ∙ ap (λ us. unless (first_failure F args ps) (rest (buf, us))) (mark_parts-marked ps us)
      ∙ ap (λ r. unless (first_failure F args ps) (r >>= (λ _. done buf)))
          (check_use-first_unused 0 args ps)
      ∙ ap (unless (first_failure F args ps)) (unless-bind unused (done tt) (λ _. done buf))
