-- ===== src/Pgproto3/Startup/StartupMessage.antt =====
-- pgproto3/startup_message.go.
pub mod Wire
use mathlib.Core.List.{foldl}
use solo_coder.Common.{
  ℕ, zero, suc, Bool, true, false, ◌&&◌, ◌||◌, List, [], ◌∷◌, ◌++◌, ◌==◌, if◌then◌else◌, length,
}
use solo_coder.Common.Dict.{insert}
use solo_coder.Common.Int.{negsuc}
use solo_coder.Pgio.{append_uint32, append_int32}
use solo_coder.Pgproto3.Message.{
  ◌>>=◌, ◌>>◌, guard, finish_message, Error, Result, invalid_message_format, message, ok, err,
}
use solo_coder.Pgproto3.Read.{read_uint32, read_cstring}
use solo_coder.Pgproto3.Startup.{protocol_version_30, protocol_version_32}

-- Equality of two byte strings.
unfoldable pub bytes_eq : List ℕ → List ℕ → Bool
bytes_eq [] [] = true
bytes_eq (a ∷ s) (b ∷ t) = a == b && bytes_eq s t
bytes_eq _ _ = false

pub record StartupMessage : Type 0 where
  pub protocol_version : ℕ
  pub parameters : List (List ℕ × List ℕ)

abbrev pub bad : Error
bad = invalid_message_format "StartupMessage" ""

-- `src[rp]` where one byte is left.
unfoldable pub end_byte : List ℕ → List (List ℕ × List ℕ) → Result (List (List ℕ × List ℕ))
end_byte [] parameters = err bad
end_byte (b ∷ r) parameters =
    if b == 0 then ok parameters else err (message "Bad startup message last byte. Expected 0")

-- The loop of `decode`. Each round takes two bytes at least or ends, so as much fuel as there are
-- bytes is enough.
unfoldable pub read_parameters :
    ℕ → List (List ℕ × List ℕ) → List ℕ → Result (List (List ℕ × List ℕ))
read_parameters zero parameters src = err bad
read_parameters (suc fuel) parameters src = do
  (key, r) ← read_cstring bad src
  (value, r) ← read_cstring bad r
  let parameters' = insert bytes_eq key value parameters
  let more = read_parameters fuel parameters' r
  if length r == 1 then end_byte r parameters' else more

unfoldable pub decode : List ℕ → Result StartupMessage
decode src = do
  (protocol_version, r) ← read_uint32 (message "startup message too short") src
  guard (protocol_version == protocol_version_30 || protocol_version == protocol_version_32)
      (message "Bad startup message version number")
  parameters ← read_parameters (length r) [] r
  ok (record { protocol_version = protocol_version; parameters = parameters })

-- One round of the loop of `encode`.
unfoldable pub append_parameter : List ℕ → List ℕ × List ℕ → List ℕ
append_parameter dst (k, v) =
    let dst = dst ++ k in let dst = dst ++ (0 ∷ []) in let dst = dst ++ v in dst ++ (0 ∷ [])

unfoldable pub encode : List ℕ → StartupMessage → Result (List ℕ)
encode dst src =
    let sp = length dst in
    let dst = append_int32 dst (negsuc 0) in
    let dst = append_uint32 dst src.protocol_version in
    let dst = foldl append_parameter dst src.parameters in
    let dst = dst ++ (0 ∷ []) in finish_message dst sp
