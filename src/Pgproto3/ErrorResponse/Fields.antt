-- ===== src/Pgproto3/ErrorResponse/Fields.antt =====
-- An ErrorResponse as the list of the fields that are sent, and how they make it up again.
use solo_coder.Common.{
  ℕ, zero, suc, ◌<◌, ◌≡◌, refl, ◌∙◌, Bool, false, ◌||◌, List, [], ◌∷◌, ◌++◌, arith, ◌==◌, All,
}
use solo_coder.Common.Dict.{insert, Distinct, insert_all, insert_all-Distinct}
use solo_coder.Common.Int.{ℤ, pos, negsuc}
use solo_coder.Pgio.Laws.{IsInt32}
use solo_coder.Pgproto3.Decimal.{itoa, parse_int32}
use solo_coder.Pgproto3.Decimal.Laws.{parse_int32-itoa}
use solo_coder.Pgproto3.ErrorResponse.{no_fields, byte_eq, set_field, ErrorResponse}
use solo_coder.Pgproto3.Read.Laws.{NoNul}

-- A field that is empty is not sent.
unfoldable pub text_field : ℕ → List ℕ → List (ℕ × List ℕ)
text_field k [] = []
text_field k (c ∷ v) = (k, c ∷ v) ∷ []

unfoldable pub number_field : ℕ → ℤ → List (ℕ × List ℕ)
number_field k (pos zero) = []
number_field k n = (k, itoa n) ∷ []

-- The lists in turn, and the last one behind them.
abbrev joined : List (List (ℕ × List ℕ)) → List (ℕ × List ℕ) → List (ℕ × List ℕ)
joined [] last = last
joined (ps ∷ more) last = ps ++ joined more last

unfoldable pub sent_fields : ErrorResponse → List (ℕ × List ℕ)
sent_fields m =
    joined
      (text_field b'S' m.severity
        ∷ text_field b'V' m.severity_unlocalized
        ∷ text_field b'C' m.code
        ∷ text_field b'M' m.message_text
        ∷ text_field b'D' m.detail
        ∷ text_field b'H' m.hint
        ∷ number_field b'P' m.position
        ∷ number_field b'p' m.internal_position
        ∷ text_field b'q' m.internal_query
        ∷ text_field b'W' m.where_text
        ∷ text_field b's' m.schema_name
        ∷ text_field b't' m.table_name
        ∷ text_field b'c' m.column_name
        ∷ text_field b'd' m.data_type_name
        ∷ text_field b'n' m.constraint_name
        ∷ text_field b'F' m.file
        ∷ number_field b'L' m.line
        ∷ text_field b'R' m.routine
        ∷ [])
      m.unknown_fields

-- The keys of the fields that have a name.
unfoldable pub known : ℕ → Bool
known k =
    k == b'S'
    || k == b'V'
    || k == b'C'
    || k == b'M'
    || k == b'D'
    || k == b'H'
    || k == b'P'
    || k == b'p'
    || k == b'q'
    || k == b'W'
    || k == b's'
    || k == b't'
    || k == b'c'
    || k == b'd'
    || k == b'n'
    || k == b'F'
    || k == b'L'
    || k == b'R'

-- A field of the map: another key than the named ones, not zero, and a string.
abbrev pub IsUnknown : ℕ × List ℕ → Type 0
IsUnknown p = (known p.0 ≡ false) × (0 < p.0) × NoNul p.1

pub record IsValid (m : ErrorResponse) : Type 0 where
  pub severity : NoNul m.severity
  pub severity_unlocalized : NoNul m.severity_unlocalized
  pub code : NoNul m.code
  pub message_text : NoNul m.message_text
  pub detail : NoNul m.detail
  pub hint : NoNul m.hint
  pub position : IsInt32 m.position
  pub internal_position : IsInt32 m.internal_position
  pub internal_query : NoNul m.internal_query
  pub where_text : NoNul m.where_text
  pub schema_name : NoNul m.schema_name
  pub table_name : NoNul m.table_name
  pub column_name : NoNul m.column_name
  pub data_type_name : NoNul m.data_type_name
  pub constraint_name : NoNul m.constraint_name
  pub file : NoNul m.file
  pub line : IsInt32 m.line
  pub routine : NoNul m.routine
  pub unknown : All IsUnknown m.unknown_fields
  pub distinct : Distinct byte_eq m.unknown_fields

unfoldable pub set_all : ErrorResponse → List (ℕ × List ℕ) → ErrorResponse
set_all r [] = r
set_all r (p ∷ ps) = set_all (set_field r p.0 p.1) ps

text_step :
    (k : ℕ) (write : ErrorResponse → List ℕ → ErrorResponse) (r : ErrorResponse) (v : List ℕ)
    (ps : List (ℕ × List ℕ))
    → ((c : ℕ) (s : List ℕ) → set_field r k (c ∷ s) ≡ write r (c ∷ s))
    → write r [] ≡ r
    → set_all r (text_field k v ++ ps) ≡ set_all (write r v) ps
unfolding set_all text_field
text_step k write r [] ps f g = rw g
text_step k write r (c ∷ s) ps f g = rw (f c s)

number_step :
    (k : ℕ) (write : ErrorResponse → ℤ → ErrorResponse) (r : ErrorResponse) (n : ℤ)
    (ps : List (ℕ × List ℕ))
    → IsInt32 n
    → ((s : List ℕ) → set_field r k s ≡ write r (parse_int32 s))
    → write r (pos 0) ≡ r
    → set_all r (number_field k n ++ ps) ≡ set_all (write r n) ps
unfolding set_all number_field
number_step k write r (pos zero) ps h f g = rw g
number_step k write r (pos (suc n)) ps h f g =
    rw (f (itoa (pos (suc n))), parse_int32-itoa (pos (suc n)) h)
number_step k write r (negsuc n) ps h f g = rw (f (itoa (negsuc n)), parse_int32-itoa (negsuc n) h)

set_field-unknown :
    (r : ErrorResponse) (k : ℕ) (v : List ℕ)
    → known k ≡ false
    → set_field r k v ≡ record r { unknown_fields = insert byte_eq k v r.unknown_fields }
unfolding set_field known
set_field-unknown r k v h = ground arith

set_all-unknown :
    (r : ErrorResponse) (ps : List (ℕ × List ℕ))
    → All IsUnknown ps
    → set_all r ps ≡ record r { unknown_fields = insert_all byte_eq r.unknown_fields ps }
unfolding set_all insert_all
set_all-unknown r [] h = refl
set_all-unknown r (p ∷ ps) h =
    rw (set_field-unknown r p.0 p.1 h.0.0) (
      set_all-unknown (record r { unknown_fields = insert byte_eq p.0 p.1 r.unknown_fields }) ps
        h.1)

-- Setting the fields that are sent, in any message, from no fields on, gives the message.
pub set_all-sent : (m : ErrorResponse) → IsValid m → set_all no_fields (sent_fields m) ≡ m
unfolding sent_fields set_field
set_all-sent m v =
    text_step b'S' (λ r v. record r { severity = v }) _ m.severity _ (λ c s. refl) refl
    ∙ text_step b'V' (λ r v. record r { severity_unlocalized = v }) _ m.severity_unlocalized _
        (λ c s. refl) refl
    ∙ text_step b'C' (λ r v. record r { code = v }) _ m.code _ (λ c s. refl) refl
    ∙ text_step b'M' (λ r v. record r { message_text = v }) _ m.message_text _ (λ c s. refl) refl
    ∙ text_step b'D' (λ r v. record r { detail = v }) _ m.detail _ (λ c s. refl) refl
    ∙ text_step b'H' (λ r v. record r { hint = v }) _ m.hint _ (λ c s. refl) refl
    ∙ number_step b'P' (λ r n. record r { position = n }) _ m.position _ v.position (λ w. refl) refl
    ∙ number_step b'p' (λ r n. record r { internal_position = n }) _ m.internal_position _
        v.internal_position (λ w. refl) refl
    ∙ text_step b'q' (λ r v. record r { internal_query = v }) _ m.internal_query _ (λ c s. refl)
        refl
    ∙ text_step b'W' (λ r v. record r { where_text = v }) _ m.where_text _ (λ c s. refl) refl
    ∙ text_step b's' (λ r v. record r { schema_name = v }) _ m.schema_name _ (λ c s. refl) refl
    ∙ text_step b't' (λ r v. record r { table_name = v }) _ m.table_name _ (λ c s. refl) refl
    ∙ text_step b'c' (λ r v. record r { column_name = v }) _ m.column_name _ (λ c s. refl) refl
    ∙ text_step b'd' (λ r v. record r { data_type_name = v }) _ m.data_type_name _ (λ c s. refl)
        refl
    ∙ text_step b'n' (λ r v. record r { constraint_name = v }) _ m.constraint_name _ (λ c s. refl)
        refl
    ∙ text_step b'F' (λ r v. record r { file = v }) _ m.file _ (λ c s. refl) refl
    ∙ number_step b'L' (λ r n. record r { line = n }) _ m.line _ v.line (λ w. refl) refl
    ∙ text_step b'R' (λ r v. record r { routine = v }) _ m.routine _ (λ c s. refl) refl
    ∙ set_all-unknown _ m.unknown_fields v.unknown
    ∙ rw (insert_all-Distinct byte_eq [] m.unknown_fields v.distinct)
