-- ===== src/Pgproto3/FunctionCall.antt =====
-- pgproto3/function_call.go.
use mathlib.Core.List.{foldl}
use solo_coder.Common.{
  ℕ, ◌+◌, ◌*◌, ◌%◌, ◌^◌, ◌≤◌, ◌≡◌, refl, true, ◌||◌, Option, List, [], ◌∷◌, ◌++◌, append-nil,
  append_assoc, arith, leb, ◌==◌, le→leb, length, All, length-append,
}
use solo_coder.Pgio.{append_uint16, append_uint32}
use solo_coder.Pgio.Laws.{be16, be32, append_uint16-be16, append_uint32-be32}
use solo_coder.Pgproto3.Message.{
  ◌>>=◌, ◌>>◌, guard, begin_message, finish_message, Error, Result, invalid_message_format, message,
  ok,
}
use solo_coder.Pgproto3.Message.Frame.{framed, finish-begin}
use solo_coder.Pgproto3.Read.{
  max_uint16, read_uint16, read_uint32, read_many, read_value, append_value,
}
use solo_coder.Pgproto3.Read.Laws.{
  read_uint16-be16, read_uint32-be32, flat, foldl-flat, read_many-flat, length-flat, IsUint32,
  append_uint16-count, value_bytes, append_value-bytes, IsSendable, read_value-bytes,
}

pub record FunctionCall : Type 0 where
  pub function : ℕ
  pub arg_format_codes : List ℕ
  pub arguments : List (Option (List ℕ))
  pub result_format_code : ℕ

abbrev bad : Error
bad = invalid_message_format "FunctionCall" ""

-- A format code, which must be 0 or 1.
unfoldable pub read_format_code : List ℕ → Result (ℕ × List ℕ)
read_format_code src = do
  (code, r) ← read_uint16 bad src
  guard (code == 0 || code == 1) bad
  ok (code, r)

unfoldable pub decode : List ℕ → Result FunctionCall
decode src = do
  guard (leb 8 (length src)) bad
  (function, r) ← read_uint32 bad src
  (n_argument_codes, r) ← read_uint16 bad r
  guard (leb (n_argument_codes * 2 + 2) (length r)) bad
  (arg_format_codes, r) ← read_many read_format_code n_argument_codes r
  (n_arguments, r) ← read_uint16 bad r
  (arguments, r) ← read_many (read_value bad) n_arguments r
  (result_format_code, r) ← read_format_code r
  ok (record {
    function = function;
    arg_format_codes = arg_format_codes;
    arguments = arguments;
    result_format_code = result_format_code;
  })

unfoldable pub encode : List ℕ → FunctionCall → Result (List ℕ)
encode dst src =
    let (dst, sp) = begin_message dst b'F' in
    let dst = append_uint32 dst src.function in
    do
      guard (leb (length src.arg_format_codes) max_uint16) (message "too many arg format codes")
      let dst = append_uint16 dst (length src.arg_format_codes % 2 ^ 16)
      let dst = foldl append_uint16 dst src.arg_format_codes
      guard (leb (length src.arguments) max_uint16) (message "too many arguments")
      let dst = append_uint16 dst (length src.arguments % 2 ^ 16)
      let dst = foldl append_value dst src.arguments
      let dst = append_uint16 dst src.result_format_code
      finish_message dst sp

abbrev pub IsFormatCode : ℕ → Type 0
IsFormatCode c = c ≤ 1

pub record IsValid (m : FunctionCall) : Type 0 where
  pub function : IsUint32 m.function
  pub few_codes : length m.arg_format_codes ≤ max_uint16
  pub codes : All IsFormatCode m.arg_format_codes
  pub few_arguments : length m.arguments ≤ max_uint16
  pub arguments : All IsSendable m.arguments
  pub code : IsFormatCode m.result_format_code

-- The part of the body that follows the argument codes.
unfoldable pub tail_bytes : FunctionCall → List ℕ
tail_bytes m =
    be16 (length m.arguments) ++ (flat value_bytes m.arguments ++ be16 m.result_format_code)

unfoldable pub body : FunctionCall → List ℕ
body m =
    be32 m.function
    ++ (be16 (length m.arg_format_codes) ++ (flat be16 m.arg_format_codes ++ tail_bytes m))

pub encode-framed :
    (dst : List ℕ) (m : FunctionCall) → IsValid m → encode dst m ≡ framed dst (b'F' ∷ []) (body m)
unfolding encode body tail_bytes
encode-framed dst m v =
    simp
      (
        le→leb (length m.arg_format_codes) max_uint16 v.few_codes,
        le→leb (length m.arguments) max_uint16 v.few_arguments,
        append_uint16-count,
        append_uint16-be16,
        append_uint32-be32,
        foldl-flat _ be16 append_uint16-be16,
        foldl-flat _ value_bytes append_value-bytes,
        append_assoc,
      )
      (finish-begin dst b'F' (body m))

read_format_code-be16 :
    (c : ℕ) (rest : List ℕ) → IsFormatCode c → read_format_code (be16 c ++ rest) ≡ ok (c, rest)
unfolding read_format_code
read_format_code-be16 c rest h = rw (read_uint16-be16 bad c rest (omega arith)) (ground arith)

long_tail : (m : FunctionCall) → 4 ≤ length (tail_bytes m)
unfolding tail_bytes be16
long_tail m =
    omega (arith, length-append (flat value_bytes m.arguments) (be16 m.result_format_code))

long_codes :
    (m : FunctionCall)
    → leb
        (length m.arg_format_codes * 2 + 2)
        (length (flat be16 m.arg_format_codes ++ tail_bytes m))
      ≡ true
unfolding be16
long_codes m = ground (
  arith,
  long_tail m,
  length-append (flat be16 m.arg_format_codes) (tail_bytes m),
  length-flat be16 2 (λ x. refl) m.arg_format_codes,
)

long_body : (m : FunctionCall) → leb 8 (length (body m)) ≡ true
unfolding body be16 be32
long_body m =
    ground (arith, long_tail m, length-append (flat be16 m.arg_format_codes) (tail_bytes m))

decode_tail :
    (m : FunctionCall)
    → IsValid m
    → (do
      (n_arguments, r) ← read_uint16 bad (tail_bytes m)
      (arguments, r) ← read_many (read_value bad) n_arguments r
      (result_format_code, r) ← read_format_code r
      ok (record {
        function = m.function;
        arg_format_codes = m.arg_format_codes;
        arguments = arguments;
        result_format_code = result_format_code;
      }))
      ≡ ok m
unfolding tail_bytes
decode_tail m v = rw (
  read_uint16-be16 bad (length m.arguments) _ (omega arith),
  read_many-flat (read_value bad) value_bytes IsSendable (read_value-bytes bad) m.arguments _
      v.arguments,
  (rw append-nil at (read_format_code-be16 m.result_format_code [] v.code)),
)

pub decode-body : (m : FunctionCall) → IsValid m → decode (body m) ≡ ok m
unfolding decode
decode-body m v = rw (long_body m) (
    unfold body in
    rw
      (
        read_uint32-be32 bad m.function _ v.function,
        read_uint16-be16 bad (length m.arg_format_codes) _ (omega arith),
        long_codes m,
        read_many-flat read_format_code be16 IsFormatCode read_format_code-be16 m.arg_format_codes _
            v.codes,
      )
      (decode_tail m v))

-- A FunctionCall with a uint32 function, counts of 16 bits, format codes of 0 or 1 and arguments whose
-- length is an int32 (or NULL) is encoded behind what the buffer holds as
-- a frame with its body, or refused where the frame would be too long; `decode` reads the same
-- message back from the body.
pub function_call_round_trip :
    (dst : List ℕ) (m : FunctionCall)
    → IsValid m
    → (encode dst m ≡ framed dst (b'F' ∷ []) (body m)) × (decode (body m) ≡ ok m)
function_call_round_trip dst m v = (encode-framed dst m v, decode-body m v)
