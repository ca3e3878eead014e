-- ===== src/Sanitize/Query/Expected.antt =====
-- internal/sanitize/sanitize.go: what `Query.Sanitize` promises, without its state.
use solo_coder.Common.{
  ℕ, zero, suc, ◌≡◌, refl, Bool, false, ◌||◌, Option, none, some, List, [], ◌∷◌, ◌++◌, ◌==◌,
  if◌then◌else◌,
}
use solo_coder.Pgproto3.Read.Laws.{flat}
use solo_coder.Sanitize.Lexer.{Part, sql, argument, otherwise}
use solo_coder.Sanitize.Query.{
  ◌>>=◌, append_value, Formats, Arg, SanitizeError, first_argument, insufficient_arguments,
  unused_argument, Outcome, failed, done, nth,
}
use mathlib.Core.Option

-- A part names the argument with this index.
abbrev pub names : ℕ → Part → Bool
names i (sql s) = false
names i (argument zero) = false
names i (argument (suc n)) = n == i

abbrev pub named : ℕ → List Part → Bool
named i [] = false
named i (p ∷ ps) = names i p || named i ps

-- The first of the arguments from the index i on that no part names.
unfoldable pub first_unused {ℓ} : {A : Type ℓ} → ℕ → List A → List Part → Option ℕ
first_unused i [] ps = none
first_unused i (a ∷ args) ps =
    let rest = first_unused (suc i) args ps in if named i ps then rest else some i

abbrev pub failure {ℓ} : {A : Type ℓ} → Outcome A → Option SanitizeError
failure (failed e) = some e
failure (done a) = none

abbrev pub success {ℓ} : {A : Type ℓ} → List A → Outcome (List A) → List A
success otherwise (failed e) = otherwise
success otherwise (done a) = a

abbrev pub or_else : Option SanitizeError → Option SanitizeError → Option SanitizeError
or_else none g = g
or_else (some e) g = some e

-- A failure, or else what follows.
abbrev pub unless {ℓ} : {A : Type ℓ} → Option SanitizeError → Outcome A → Outcome A
unless none rest = rest
unless (some e) rest = failed e

pub unless_twice :
    {A : Type 0} (f g : Option SanitizeError) (r : Outcome A)
    → unless f (unless g r) ≡ unless (or_else f g) r
unless_twice none g r = refl
unless_twice (some e) g r = refl

pub unless-bind :
    {A B : Type 0} (f : Option SanitizeError) (r : Outcome A) (rest : A → Outcome B)
    → (unless f r >>= rest) ≡ unless f (r >>= rest)
unless-bind none r rest = refl
unless-bind (some e) r rest = refl

module _ (F : Formats) where
  abbrev pub value_failure : Option (Arg F) → Option SanitizeError
  value_failure none = some insufficient_arguments
  value_failure (some arg) = failure (append_value F arg)

  abbrev pub part_failure : List (Arg F) → Part → Option SanitizeError
  part_failure args (sql s) = none
  part_failure args (argument zero) = some first_argument
  part_failure args (argument (suc i)) = value_failure (nth i args)

  abbrev pub first_failure : List (Arg F) → List Part → Option SanitizeError
  first_failure args [] = none
  first_failure args (p ∷ ps) = or_else (part_failure args p) (first_failure args ps)

  abbrev pub written : Option (Arg F) → List ℕ
  written none = []
  written (some arg) = b' ' ∷ (success [] (append_value F arg) ++ (b' ' ∷ []))

  abbrev pub rendered : List (Arg F) → Part → List ℕ
  rendered args (sql s) = s
  rendered args (argument zero) = []
  rendered args (argument (suc i)) = written (nth i args)

  -- What `Sanitize` promises.
  unfoldable pub expected : List Part → List (Arg F) → Outcome (List ℕ)
  expected ps args = unless (first_failure args ps) (
      unless (Option.map unused_argument (first_unused 0 args ps)) (done (flat (rendered args) ps)))
