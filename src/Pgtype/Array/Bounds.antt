-- ===== src/Pgtype/Array/Bounds.antt =====
-- pgtype/array_codec.go: what a server that claims a large array can cause.
use solo_coder.Common.{ℕ, ◌≡◌, Option, List, length}
use solo_coder.Pgtype.Array.{ArrayDimension, cardinality}
use solo_coder.Pgtype.Plan.{Answer, refused, given, message}

value_of : {A : Type 0} → A → Answer A → A
value_of a (refused e) = a
value_of a (given x) = x

-- The refusal of a count of elements that the bytes cannot hold.
abbrev too_many : {A : Type 0} → Answer A
too_many = refused (message "array claims more elements than bytes remain")

-- What is decoded is an error, or the dimensions and as many elements as they have.
abbrev pub IsWhole :
    List ArrayDimension → Answer (List ArrayDimension × List (Option (List ℕ))) → Type 0
IsWhole ds (refused e) = Unit
IsWhole ds (given (ds', es)) = (ds' ≡ ds) × (length es ≡ cardinality ds)
