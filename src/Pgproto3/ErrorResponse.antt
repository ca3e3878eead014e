-- ===== src/Pgproto3/ErrorResponse.antt =====
-- pgproto3/error_response.go and notice_response.go, whose messages differ in the type byte alone.
pub mod Fields
pub mod Wire
use mathlib.Core.List.{foldl}
use solo_coder.Common.{ℕ, zero, suc, Bool, List, [], ◌∷◌, ◌++◌, ◌==◌, if◌then◌else◌, length}
use solo_coder.Common.Dict.{insert}
use solo_coder.Common.Int.{ℤ, pos}
use solo_coder.Pgproto3.Decimal.{itoa, parse_int32}
use solo_coder.Pgproto3.Message.{◌>>=◌, ◌>>◌, begin_message, finish_message, Result, eof, ok, err}
use solo_coder.Pgproto3.Read.{read_cstring, read_byte}

pub record ErrorResponse : Type 0 where
  pub severity : List ℕ
  pub severity_unlocalized : List ℕ
  pub code : List ℕ
  pub message_text : List ℕ
  pub detail : List ℕ
  pub hint : List ℕ
  pub position : ℤ
  pub internal_position : ℤ
  pub internal_query : List ℕ
  pub where_text : List ℕ
  pub schema_name : List ℕ
  pub table_name : List ℕ
  pub column_name : List ℕ
  pub data_type_name : List ℕ
  pub constraint_name : List ℕ
  pub file : List ℕ
  pub line : ℤ
  pub routine : List ℕ
  pub unknown_fields : List (ℕ × List ℕ)

-- `ErrorResponse{}`.
abbrev pub no_fields : ErrorResponse
no_fields = record {
  severity = [];
  severity_unlocalized = [];
  code = [];
  message_text = [];
  detail = [];
  hint = [];
  position = pos 0;
  internal_position = pos 0;
  internal_query = [];
  where_text = [];
  schema_name = [];
  table_name = [];
  column_name = [];
  data_type_name = [];
  constraint_name = [];
  file = [];
  line = pos 0;
  routine = [];
  unknown_fields = [];
}

-- The map's keys are bytes.
abbrev pub byte_eq : ℕ → ℕ → Bool
byte_eq a b = a == b

-- The `switch` of `Decode`.
unfoldable pub set_field : ErrorResponse → ℕ → List ℕ → ErrorResponse
set_field r k v =
    if k == b'S'
    then record r { severity = v }
    else if k == b'V'
    then record r { severity_unlocalized = v }
    else if k == b'C'
    then record r { code = v }
    else if k == b'M'
    then record r { message_text = v }
    else if k == b'D'
    then record r { detail = v }
    else if k == b'H'
    then record r { hint = v }
    else if k == b'P'
    then record r { position = parse_int32 v }
    else if k == b'p'
    then record r { internal_position = parse_int32 v }
    else if k == b'q'
    then record r { internal_query = v }
    else if k == b'W'
    then record r { where_text = v }
    else if k == b's'
    then record r { schema_name = v }
    else if k == b't'
    then record r { table_name = v }
    else if k == b'c'
    then record r { column_name = v }
    else if k == b'd'
    then record r { data_type_name = v }
    else if k == b'n'
    then record r { constraint_name = v }
    else if k == b'F'
    then record r { file = v }
    else if k == b'L'
    then record r { line = parse_int32 v }
    else if k == b'R'
    then record r { routine = v }
    else record r { unknown_fields = insert byte_eq k v r.unknown_fields }

-- The loop of `Decode`. Each round takes two bytes at least or ends, so as much fuel as there are
-- bytes is enough.
unfoldable pub read_fields : ℕ → ErrorResponse → List ℕ → Result ErrorResponse
read_fields zero dst src = err eof
read_fields (suc fuel) dst src = do
  (k, r) ← read_byte eof src
  let more = (do (v, r') ← read_cstring eof r; read_fields fuel (set_field dst k v) r')
  if k == 0 then ok dst else more

unfoldable pub decode : List ℕ → Result ErrorResponse
decode src = read_fields (length src) no_fields src

-- `if src.Severity != "" { … }`, and so for each string.
unfoldable pub append_text : List ℕ → ℕ → List ℕ → List ℕ
append_text dst k [] = dst
append_text dst k (c ∷ v) = let dst = dst ++ (k ∷ []) in let dst = dst ++ (c ∷ v) in dst ++ (0 ∷ [])

-- `if src.Position != 0 { … }`, and so for each number.
unfoldable pub append_number : List ℕ → ℕ → ℤ → List ℕ
append_number dst k (pos zero) = dst
append_number dst k n = let dst = dst ++ (k ∷ []) in let dst = dst ++ itoa n in dst ++ (0 ∷ [])

-- One round of the loop over the unknown fields.
unfoldable pub append_unknown : List ℕ → ℕ × List ℕ → List ℕ
append_unknown dst (k, v) = let dst = dst ++ (k ∷ []) in let dst = dst ++ v in dst ++ (0 ∷ [])

unfoldable pub append_fields : List ℕ → ErrorResponse → List ℕ
append_fields dst src =
    let dst = append_text dst b'S' src.severity in
    let dst = append_text dst b'V' src.severity_unlocalized in
    let dst = append_text dst b'C' src.code in
    let dst = append_text dst b'M' src.message_text in
    let dst = append_text dst b'D' src.detail in
    let dst = append_text dst b'H' src.hint in
    let dst = append_number dst b'P' src.position in
    let dst = append_number dst b'p' src.internal_position in
    let dst = append_text dst b'q' src.internal_query in
    let dst = append_text dst b'W' src.where_text in
    let dst = append_text dst b's' src.schema_name in
    let dst = append_text dst b't' src.table_name in
    let dst = append_text dst b'c' src.column_name in
    let dst = append_text dst b'd' src.data_type_name in
    let dst = append_text dst b'n' src.constraint_name in
    let dst = append_text dst b'F' src.file in
    let dst = append_number dst b'L' src.line in
    let dst = append_text dst b'R' src.routine in
    let dst = foldl append_unknown dst src.unknown_fields in dst ++ (0 ∷ [])

unfoldable pub encode : List ℕ → ErrorResponse → Result (List ℕ)
encode dst src =
    let (dst, sp) = begin_message dst b'E' in
    let dst = append_fields dst src in finish_message dst sp

-- `NoticeResponse.Encode`. (`NoticeResponse.Decode` is `decode`.)
unfoldable pub encode_notice : List ℕ → ErrorResponse → Result (List ℕ)
encode_notice dst src =
    let (dst, sp) = begin_message dst b'N' in
    let dst = append_fields dst src in finish_message dst sp
