-- ===== src/Sanitize/Query.antt =====
-- internal/sanitize/sanitize.go: `Query.Sanitize` and `SanitizeSQL`.
pub mod Expected
pub mod Marks
pub mod Laws
pub mod Segments
use Prim.Native.String.{String}
use solo_coder.Common.{
  ℕ, zero, suc, Bool, true, false, Option, none, some, List, [], ◌∷◌, ◌++◌, map, if◌then◌else◌,
}
use solo_coder.Common.Int.{ℤ, pos, negsuc}
use solo_coder.Pgproto3.Decimal.{digits}
use solo_coder.Sanitize.Lexer.{Part, sql, argument, new_query}
use solo_coder.Sanitize.Quote.{quote_string, quote_bytes}

-- The formats of values that package strconv and package time write: `AppendFloat` with format 'f',
-- and `AppendFormat` of the time truncated to microseconds.
pub record Formats : Type 1 where
  pub Float : Type 0
  pub Time : Type 0
  pub append_float : Float → List ℕ
  pub append_time : Time → List ℕ

-- The types of argument that `Sanitize` tells apart; `other` is every other one, by its name.
pub data Arg (F : Formats) : Type 0 where
  null : Arg F
  int64 : ℤ → Arg F
  float64 : F.Float → Arg F
  boolean : Bool → Arg F
  bytes : List ℕ → Arg F
  text : List ℕ → Arg F
  time : F.Time → Arg F
  other : String → Arg F

pub data SanitizeError : Type 0 where
  first_argument : SanitizeError
  insufficient_arguments : SanitizeError
  invalid_arg_type : String → SanitizeError
  unused_argument : ℕ → SanitizeError

pub data Outcome {ℓ} (A : Type ℓ) : Type ℓ where
  failed : SanitizeError → Outcome A
  done : A → Outcome A

-- `return "", err` on the way.
infixl 5 ◌>>=◌
abbrev pub ◌>>=◌ {ℓ κ} : {A : Type ℓ} {B : Type κ} → Outcome A → (A → Outcome B) → Outcome B
failed e >>= rest = failed e
done a >>= rest = rest a

-- `strconv.AppendInt(_, n, 10)` of an int64, which has nineteen digits at most.
unfoldable pub append_int : ℤ → List ℕ
append_int (pos n) = digits 19 n
append_int (negsuc n) = b'-' ∷ digits 19 (suc n)

-- `args[i]`, and the mark `argUse[i] = true`.
unfoldable pub nth {ℓ} : {A : Type ℓ} → ℕ → List A → Option A
nth n [] = none
nth zero (x ∷ xs) = some x
nth (suc n) (x ∷ xs) = nth n xs

unfoldable pub mark : ℕ → List Bool → List Bool
mark n [] = []
mark zero (u ∷ us) = true ∷ us
mark (suc n) (u ∷ us) = u ∷ mark n us

-- The last loop: the first argument that no part uses; i is the index of the head.
unfoldable pub check_use : ℕ → List Bool → Outcome (Unit {0})
check_use i [] = done tt
check_use i (used ∷ us) =
    let rest = check_use (suc i) us in if used then rest else failed (unused_argument i)

module _ (F : Formats) where
  -- The switch on the argument's type.
  unfoldable pub append_value : Arg F → Outcome (List ℕ)
  append_value null = done (b'n' ∷ b'u' ∷ b'l' ∷ b'l' ∷ [])
  append_value (int64 n) = done (append_int n)
  append_value (float64 x) = done (F.append_float x)
  append_value (boolean true) = done (b't' ∷ b'r' ∷ b'u' ∷ b'e' ∷ [])
  append_value (boolean false) = done (b'f' ∷ b'a' ∷ b'l' ∷ b's' ∷ b'e' ∷ [])
  append_value (bytes bs) = done (quote_bytes [] bs)
  append_value (text s) = done (quote_string [] s)
  append_value (time t) = done (F.append_time t)
  append_value (other name) = failed (invalid_arg_type name)

  unfoldable pub write_value :
      ℕ → List ℕ → List Bool → Outcome (List ℕ) → Outcome (List ℕ × List Bool)
  write_value i buf uses (failed e) = failed e
  write_value i buf uses (done p) = done (((buf ++ (b' ' ∷ [])) ++ p) ++ (b' ' ∷ []), mark i uses)

  unfoldable pub write_argument :
      ℕ → List ℕ → List Bool → Option (Arg F) → Outcome (List ℕ × List Bool)
  write_argument i buf uses none = failed insufficient_arguments
  write_argument i buf uses (some arg) = write_value i buf uses (append_value arg)

  unfoldable pub write_part :
      List (Arg F) → List ℕ → List Bool → Part → Outcome (List ℕ × List Bool)
  write_part args buf uses (sql s) = done (buf ++ s, uses)
  write_part args buf uses (argument zero) = failed first_argument
  write_part args buf uses (argument (suc i)) = write_argument i buf uses (nth i args)

  -- The loop over the parts.
  unfoldable pub write_parts :
      List (Arg F) → List ℕ → List Bool → List Part → Outcome (List ℕ × List Bool)
  write_parts args buf uses [] = done (buf, uses)
  write_parts args buf uses (p ∷ ps) = do
    (buf', uses') ← write_part args buf uses p
    write_parts args buf' uses' ps

  -- `Query.Sanitize`.
  unfoldable pub sanitize : List Part → List (Arg F) → Outcome (List ℕ)
  sanitize parts args = do
    (buf, uses) ← write_parts args [] (map (λ _. false) args) parts
    _ ← check_use 0 uses
    done buf

  -- `SanitizeSQL`.
  unfoldable pub sanitize_sql : List ℕ → List (Arg F) → Outcome (List ℕ)
  sanitize_sql src args = sanitize (new_query src) args
