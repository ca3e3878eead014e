-- ===== src/Pgtype/Plan.antt =====
-- pgtype/pgtype.go: what a codec's plans take and give.
use Prim.Native.String.{String}
use solo_coder.Common.{ℕ, ◌+◌, Bool, true, false, Option, none, some, List, ◌==◌}
use solo_coder.Common.Int.{ℤ, pos}
use solo_coder.Pgtype.Integers.{Width, bits}

-- A format code: TextFormatCode, BinaryFormatCode, any other.
pub data Format : Type 0 where
  text_format binary_format other_format : Format

-- The type of the value that a scan is to set: pointers to Go's integers, `*int` and `*uint`, the
-- interfaces, and any other type.
pub data Target : Type 0 where
  signed unsigned : Width → Target
  int uint int64_scanner text_scanner other_target : Target

abbrev target_code : Target → ℕ
target_code (signed w) = bits w
target_code (unsigned w) = 100 + bits w
target_code int = 1
target_code uint = 2
target_code int64_scanner = 3
target_code text_scanner = 4
target_code other_target = 5

-- `_, ok := dst.(T)`.
abbrev pub same : Target → Target → Bool
same s t = target_code s == target_code t

-- pgtype.Int2, Int4 and Int8: an integer, or NULL.
pub record Nullable : Type 0 where
  pub number : ℤ
  pub valid : Bool

abbrev pub null_number : Nullable
null_number = record { number = pos 0; valid = false }

abbrev pub valid_number : ℤ → Nullable
valid_number n = record { number = n; valid = true }

-- The errors of a plan; `panicked` is a failed type assertion.
pub data CodecError : Type 0 where
  cannot_scan_null target_type_changed plan_not_found panicked syntax out_of_range : CodecError
  invalid_length : ℕ → CodecError
  less_than_minimum greater_than_maximum : ℤ → CodecError
  cannot_scan valuer_error message : String → CodecError

-- Go's (value, error) pair, of which one is set.
pub data Answer {ℓ} (A : Type ℓ) : Type ℓ where
  refused : CodecError → Answer A
  given : A → Answer A

infixl 5 ◌>>=◌
abbrev pub ◌>>=◌ {ℓ κ} : {A : Type ℓ} {B : Type κ} → Answer A → (A → Answer B) → Answer B
refused e >>= rest = refused e
given a >>= rest = rest a

-- What a scan does: it sets an integer, or calls ScanInt64 or ScanText.
pub data Stored : Type 0 where
  stored : ℤ → Stored
  passed_number : Nullable → Stored
  passed_text : List ℕ → Bool → Stored

-- `ScanPlan`: the bytes, where `none` is nil, and the value to set.
abbrev pub ScanPlan : Type 0
ScanPlan = Option (List ℕ) → Target → Answer Stored

-- What is encoded: one of Go's signed integers, an Int64Valuer by what its Int64Value returns, any
-- other value.
pub data Value : Type 0 where
  go_int : Width → ℤ → Value
  valuer : Answer Nullable → Value
  other_value : Value

-- `EncodePlan`: the value, and the buffer that it is appended to; `none` is nil, for NULL.
abbrev pub EncodePlan : Type 0
EncodePlan = Value → List ℕ → Answer (Option (List ℕ))

-- `codecScan` of the plan that PlanScan found.
unfoldable pub codec_scan : Option ScanPlan → Option (List ℕ) → Target → Answer Stored
codec_scan none src dst = refused plan_not_found
codec_scan (some plan) src dst = plan src dst
