-- ===== src/Pgproto3/Bind/Wire.antt =====
-- The wire form of a Bind message: what `encode` writes and `decode` reads.
use solo_coder.Common.{ℕ, ◌≤◌, ◌≡◌, List, [], ◌∷◌, ◌++◌, arith, append_assoc, length, All, le→leb}
use solo_coder.Pgio.Laws.{be16, IsInt16, append_int16-be16}
use solo_coder.Pgproto3.Message.{ok}
use solo_coder.Pgproto3.Message.Frame.{framed, finish-begin}
use solo_coder.Pgproto3.Read.{max_uint16, read_value}
use solo_coder.Pgproto3.Read.Laws.{
  NoNul, IsSendable, flat, foldl-flat, int16_bytes, value_bytes, read_cstring-append,
  read_uint16-be16, read_int16s-flat, read_int16s-flat_end, read_many-flat, read_value-bytes,
  append_uint16-count, append_value-bytes,
}
use solo_coder.Pgproto3.Bind.{Bind, decode, encode, bad}

-- A message that the wire form can carry: no zero byte inside a string, counts of 16 bits, codes
-- and lengths in the range of their types.
pub record IsValid (m : Bind) : Type 0 where
  pub portal : NoNul m.destination_portal
  pub statement : NoNul m.prepared_statement
  pub few_codes : length m.parameter_format_codes ≤ max_uint16
  pub codes : All IsInt16 m.parameter_format_codes
  pub few_parameters : length m.parameters ≤ max_uint16
  pub parameters : All IsSendable m.parameters
  pub few_results : length m.result_format_codes ≤ max_uint16
  pub results : All IsInt16 m.result_format_codes

unfoldable pub body : Bind → List ℕ
body m =
    m.destination_portal
    ++ (0
        ∷ (m.prepared_statement
            ++ (0
                ∷ (be16 (length m.parameter_format_codes)
                    ++ (flat int16_bytes m.parameter_format_codes
                        ++ (be16 (length m.parameters)
                            ++ (flat value_bytes m.parameters
                                ++ (be16 (length m.result_format_codes)
                                    ++ flat int16_bytes m.result_format_codes))))))))

pub encode-framed :
    (dst : List ℕ) (m : Bind) → IsValid m → encode dst m ≡ framed dst (b'B' ∷ []) (body m)
unfolding encode body
encode-framed dst m v =
    simp
      (
        le→leb (length m.parameter_format_codes) max_uint16 v.few_codes,
        le→leb (length m.parameters) max_uint16 v.few_parameters,
        le→leb (length m.result_format_codes) max_uint16 v.few_results,
        append_uint16-count,
        foldl-flat _ int16_bytes append_int16-be16,
        foldl-flat _ value_bytes append_value-bytes,
        append_assoc,
      )
      (finish-begin dst b'B' (body m))

pub decode-body : (m : Bind) → IsValid m → decode (body m) ≡ ok m
unfolding decode body
decode-body m v = rw (
  read_cstring-append bad m.destination_portal _ v.portal,
  read_cstring-append bad m.prepared_statement _ v.statement,
  read_uint16-be16 bad (length m.parameter_format_codes) _ (omega arith),
  read_int16s-flat bad m.parameter_format_codes _ v.codes,
  read_uint16-be16 bad (length m.parameters) _ (omega arith),
  read_many-flat (read_value bad) value_bytes IsSendable (read_value-bytes bad) m.parameters _
      v.parameters,
  read_uint16-be16 bad (length m.result_format_codes) _ (omega arith),
  read_int16s-flat_end bad m.result_format_codes v.results,
)

-- A Bind with strings free of zero bytes, counts of 16 bits, codes of the int16 range and values whose
-- length is an int32 (or NULL) is encoded behind what the buffer holds as
-- a frame with its body, or refused where the frame would be too long; `decode` reads the same
-- message back from the body.
pub bind_round_trip :
    (dst : List ℕ) (m : Bind)
    → IsValid m
    → (encode dst m ≡ framed dst (b'B' ∷ []) (body m)) × (decode (body m) ≡ ok m)
bind_round_trip dst m v = (encode-framed dst m v, decode-body m v)
