-- ===== src/Pgproto3/Startup/StartupMessage/Wire.antt =====
-- The wire form of a StartupMessage.
use solo_coder.Pgproto3.Startup.StartupMessage.{decode, encode, bad}
use solo_coder.Common.{
  ℕ, zero, suc, ◌*◌, ◌≤◌, ◌<◌, ◌≡◌, refl, ap, ◌∙◌, ◌⊎◌, true, false, ◌||◌, List, [], ◌∷◌, ◌++◌,
  append-nil, append_assoc, arith, ◌==◌, if◌then◌else◌, length, All, length-append,
}
use solo_coder.Common.Dict.{insert, Distinct, insert_all, insert_all-Distinct}
use solo_coder.Pgio.Laws.{be32, append_uint32-be32}
use solo_coder.Pgproto3.Message.{ok}
use solo_coder.Pgproto3.Message.Frame.{framed, finish-begin_untyped}
use solo_coder.Pgproto3.Read.Laws.{
  NoNul, read_uint32-be32, cstring_bytes, length-cstring_bytes, read_cstring-bytes, flat,
  foldl-flat,
}
use solo_coder.Pgproto3.Startup.{protocol_version_30, protocol_version_32}
use solo_coder.Pgproto3.Startup.StartupMessage.{
  bytes_eq, end_byte, read_parameters, append_parameter, StartupMessage,
}

abbrev pub IsParameter : List ℕ × List ℕ → Type 0
IsParameter p = NoNul p.0 × NoNul p.1

-- A version that the decoder knows, and one parameter at least.
pub record IsValid (m : StartupMessage) : Type 0 where
  pub version :
      (m.protocol_version ≡ protocol_version_30) ⊎ (m.protocol_version ≡ protocol_version_32)
  pub some_parameter : 0 < length m.parameters
  pub parameters : All IsParameter m.parameters
  pub distinct : Distinct bytes_eq m.parameters

unfoldable pub parameter_bytes : List ℕ × List ℕ → List ℕ
parameter_bytes p = cstring_bytes p.0 ++ cstring_bytes p.1

unfoldable pub body : StartupMessage → List ℕ
body m = be32 m.protocol_version ++ (flat parameter_bytes m.parameters ++ (0 ∷ []))

append_parameter-bytes :
    (dst : List ℕ) (p : List ℕ × List ℕ) → append_parameter dst p ≡ dst ++ parameter_bytes p
unfolding append_parameter parameter_bytes cstring_bytes
append_parameter-bytes dst (k, v) = simp append_assoc

pub encode-framed : (dst : List ℕ) (m : StartupMessage) → encode dst m ≡ framed dst [] (body m)
unfolding encode body
encode-framed dst m =
    simp (append_uint32-be32, foldl-flat _ parameter_bytes append_parameter-bytes, append_assoc)
      (finish-begin_untyped dst (body m))

length-parameters : (ps : List (List ℕ × List ℕ)) → 2 * length ps ≤ length (flat parameter_bytes ps)
unfolding flat parameter_bytes
length-parameters [] = omega arith
length-parameters (p ∷ ps) = omega (
  arith,
  length-append (cstring_bytes p.0 ++ cstring_bytes p.1) (flat parameter_bytes ps),
  length-append (cstring_bytes p.0) (cstring_bytes p.1),
  length-cstring_bytes p.0,
  length-cstring_bytes p.1,
  length-parameters ps,
)

-- One round: the first parameter is read and stored, and the loop goes on behind it.
read_parameters_step :
    (fuel : ℕ) (stored : List (List ℕ × List ℕ)) (p : List ℕ × List ℕ) (rest : List ℕ)
    → IsParameter p
    → read_parameters (suc fuel) stored (parameter_bytes p ++ rest) ≡ (
        if length rest == 1
        then end_byte rest (insert bytes_eq p.0 p.1 stored)
        else read_parameters fuel (insert bytes_eq p.0 p.1 stored) rest)
unfolding read_parameters parameter_bytes
read_parameters_step fuel stored p rest v =
    rw (append_assoc, read_cstring-bytes bad p.0 _ v.0, read_cstring-bytes bad p.1 rest v.1)

-- The loop stores all the parameters, with fuel for one round each.
read_parameters-flat :
    (fuel : ℕ) (stored : List (List ℕ × List ℕ)) (p : List ℕ × List ℕ) (ps : List (List ℕ × List ℕ))
    → All IsParameter (p ∷ ps)
    → length (p ∷ ps) ≤ fuel
    → read_parameters fuel stored (flat parameter_bytes (p ∷ ps) ++ (0 ∷ []))
      ≡ ok (insert_all bytes_eq stored (p ∷ ps))
unfolding flat insert_all
read_parameters-flat zero stored p ps v h = absurd (omega arith)
read_parameters-flat (suc fuel) stored p [] v h =
    rw (append-nil, read_parameters_step fuel stored p (0 ∷ []) v.0) (unfold end_byte in refl)
read_parameters-flat (suc fuel) stored p (q ∷ ps) v h =
    let rest = flat parameter_bytes (q ∷ ps) ++ (0 ∷ []) in
    let long : (length rest == 1) ≡ false =
      ground (
        arith,
        length-append (flat parameter_bytes (q ∷ ps)) (0 ∷ []),
        length-parameters (q ∷ ps),
      ) in
    rw (append_assoc, read_parameters_step fuel stored p rest v.0, long)
      (read_parameters-flat fuel (insert bytes_eq p.0 p.1 stored) q ps v.1 (omega arith))

read_parameters-body :
    (ps : List (List ℕ × List ℕ))
    → 0 < length ps
    → All IsParameter ps
    → Distinct bytes_eq ps
    → let src = flat parameter_bytes ps ++ (0 ∷ []) in read_parameters (length src) [] src ≡ ok ps
read_parameters-body [] h v d = absurd (omega arith)
read_parameters-body (p ∷ ps) h v d =
    read_parameters-flat _ [] p ps v enough ∙ ap ok (insert_all-Distinct bytes_eq [] (p ∷ ps) d)
  where
    enough : length (p ∷ ps) ≤ length (flat parameter_bytes (p ∷ ps) ++ (0 ∷ []))
    enough =
        omega (
          arith,
          length-append (flat parameter_bytes (p ∷ ps)) (0 ∷ []),
          length-parameters (p ∷ ps),
        )

is_known :
    (m : StartupMessage)
    → (m.protocol_version ≡ protocol_version_30) ⊎ (m.protocol_version ≡ protocol_version_32)
    → (m.protocol_version == protocol_version_30 || m.protocol_version == protocol_version_32)
      ≡ true
is_known m v = ground arith

pub decode-body : (m : StartupMessage) → IsValid m → decode (body m) ≡ ok m
unfolding decode body
decode-body m v = rw (
  read_uint32-be32 _ m.protocol_version _ (omega (arith, v.version)),
  is_known m v.version,
  read_parameters-body m.parameters v.some_parameter v.parameters v.distinct,
)

-- A StartupMessage of a known version with at least one parameter, names and values free of zero
-- bytes and names distinct, is encoded behind what the buffer holds as
-- a frame with its body, or refused where the frame would be too long; `decode` reads the same
-- message back from the body.
pub startup_message_round_trip :
    (dst : List ℕ) (m : StartupMessage)
    → IsValid m
    → (encode dst m ≡ framed dst [] (body m)) × (decode (body m) ≡ ok m)
startup_message_round_trip dst m v = (encode-framed dst m, decode-body m v)
