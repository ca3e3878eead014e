-- ===== src/Pgproto3/Message.antt =====
-- pgproto3/pgproto3.go: errors, and the frame that `beginMessage` and `finishMessage` put round a
-- message's body.
pub mod Frame
use Prim.Native.String.{String}
use solo_coder.Common.{
  ℕ, ◌-◌, List, [], ◌∷◌, ◌++◌, Bool, true, false, length, drop, ltb, if◌then◌else◌,
}
use solo_coder.Common.Int.{pos, negsuc}
use solo_coder.Pgio.{append_int32, set_int32}

-- Go's `error` values of this package. `eof` is io.EOF, `unexpected_eof` io.ErrUnexpectedEOF, and
-- `message` an error made by errors.New or fmt.Errorf.
pub data Error : Type 0 where
  eof unexpected_eof : Error
  invalid_message_len : String → ℕ → ℕ → Error
  invalid_message_format : String → String → Error
  exceeded_max_body_len : ℕ → ℕ → Error
  message : String → Error

-- Go's (value, error) pair, of which one is set.
pub data Result {ℓ} (Value : Type ℓ) : Type ℓ where
  err : Error → Result Value
  ok : Value → Result Value

-- `if err != nil { return err }` behind a call.
infixl 5 ◌>>=◌
abbrev pub ◌>>=◌ {ℓ κ} :
    {Value : Type ℓ} {Out : Type κ} → Result Value → (Value → Result Out) → Result Out
err failure >>= rest = err failure
ok value >>= rest = rest value

infixl 5 ◌>>◌
abbrev pub ◌>>◌ {κ} : {Out : Type κ} → Result (Unit {0}) → Result Out → Result Out
err failure >> rest = err failure
ok done >> rest = rest

-- `if !test { return e }`.
abbrev pub guard : Bool → Error → Result (Unit {0})
guard false failure = err failure
guard true failure = ok tt

abbrev pub max_message_body_len : ℕ
max_message_body_len = 0x3fffffff - 1

-- The new buffer, and the position of the length's placeholder.
unfoldable pub begin_message : List ℕ → ℕ → List ℕ × ℕ
begin_message dst t =
    let dst' = dst ++ (t ∷ []) in let sp = length dst' in (append_int32 dst' (negsuc 0), sp)

unfoldable pub finish_message : List ℕ → ℕ → Result (List ℕ)
finish_message dst sp =
    let message_body_len = length (drop sp dst) in
    if ltb max_message_body_len message_body_len
    then err (message "message body too large")
    else ok (set_int32 dst sp (pos message_body_len))
