-- ===== src/Pgproto3/FrontendMessage/Wire.antt =====
-- The wire form of every frontend message, and the decoder that reads it back.
use solo_coder.Pgproto3.FrontendMessage.{encode, copy_data, copy_done}
use solo_coder.Pgproto3.Bind
use solo_coder.Pgproto3.Bind.{Bind}
use solo_coder.Pgproto3.Close
use solo_coder.Pgproto3.Close.{Close}
use solo_coder.Pgproto3.CopyData
use solo_coder.Pgproto3.CopyData.{CopyData}
use solo_coder.Pgproto3.CopyDone
use solo_coder.Pgproto3.CopyFail
use solo_coder.Pgproto3.CopyFail.{CopyFail}
use solo_coder.Pgproto3.Describe
use solo_coder.Pgproto3.Describe.{Describe}
use solo_coder.Pgproto3.Execute
use solo_coder.Pgproto3.Execute.{Execute}
use solo_coder.Pgproto3.Flush
use solo_coder.Pgproto3.FunctionCall
use solo_coder.Pgproto3.FunctionCall.{FunctionCall}
use solo_coder.Pgproto3.GssResponse
use solo_coder.Pgproto3.GssResponse.{GssResponse}
use solo_coder.Pgproto3.Parse
use solo_coder.Pgproto3.Parse.{Parse}
use solo_coder.Pgproto3.PasswordMessage
use solo_coder.Pgproto3.PasswordMessage.{PasswordMessage}
use solo_coder.Pgproto3.Query
use solo_coder.Pgproto3.Query.{Query}
use solo_coder.Pgproto3.SaslInitialResponse
use solo_coder.Pgproto3.SaslInitialResponse.{SaslInitialResponse}
use solo_coder.Pgproto3.SaslResponse
use solo_coder.Pgproto3.SaslResponse.{SaslResponse}
use solo_coder.Pgproto3.Sync
use solo_coder.Pgproto3.Terminate
use solo_coder.Common.{ℕ, ◌≡◌, refl, ◌⊎◌, inl, inr, some, List, [], ◌∷◌}
use solo_coder.Pgproto3.Authentication.{
  auth_type_cleartext_password, auth_type_md5_password, auth_type_gss, auth_type_gss_cont,
  auth_type_sasl, auth_type_sasl_continue, auth_type_sasl_final,
}
use solo_coder.Pgproto3.FrontendMessage.{
  password_decoder, decoder, FrontendMessage, bind, close, copy_fail, describe, execute, flush,
  function_call, gss_response, parse, password_message, query, sasl_initial_response, sasl_response,
  sync, terminate,
}
use solo_coder.Pgproto3.Message.{◌>>=◌, Result, ok}
use solo_coder.Pgproto3.Message.Frame.{framed}
use solo_coder.Pgproto3.Read.Laws.{NoNul}

-- The type byte of a message.
unfoldable pub type_of : FrontendMessage → ℕ
type_of (bind m) = b'B'
type_of (close m) = b'C'
type_of (copy_data m) = b'd'
type_of copy_done = b'c'
type_of (copy_fail m) = b'f'
type_of (describe m) = b'D'
type_of (execute m) = b'E'
type_of flush = b'H'
type_of (function_call m) = b'F'
type_of (gss_response m) = b'p'
type_of (parse m) = b'P'
type_of (password_message m) = b'p'
type_of (query m) = b'Q'
type_of (sasl_initial_response m) = b'p'
type_of (sasl_response m) = b'p'
type_of sync = b'S'
type_of terminate = b'X'

-- The bytes behind the length.
unfoldable pub body_of : FrontendMessage → List ℕ
body_of (bind m) = Bind.Wire.body m
body_of (close m) = Close.body m
body_of (copy_data m) = CopyData.body m
body_of copy_done = []
body_of (copy_fail m) = CopyFail.body m
body_of (describe m) = Describe.body m
body_of (execute m) = Execute.body m
body_of flush = []
body_of (function_call m) = FunctionCall.body m
body_of (gss_response m) = GssResponse.body m
body_of (parse m) = Parse.body m
body_of (password_message m) = PasswordMessage.body m
body_of (query m) = Query.body m
body_of (sasl_initial_response m) = SaslInitialResponse.body m
body_of (sasl_response m) = SaslResponse.body m
body_of sync = []
body_of terminate = []

-- A message that its wire form can carry: each of its parts in the range of its type, no zero
-- byte inside a string.
abbrev pub IsValid : FrontendMessage → Type 0
IsValid (bind m) = Bind.Wire.IsValid m
IsValid (close m) = Close.IsValid m
IsValid (copy_data m) = Unit
IsValid copy_done = Unit
IsValid (copy_fail m) = NoNul m.message_text
IsValid (describe m) = Describe.IsValid m
IsValid (execute m) = Execute.IsValid m
IsValid flush = Unit
IsValid (function_call m) = FunctionCall.IsValid m
IsValid (gss_response m) = Unit
IsValid (parse m) = Parse.IsValid m
IsValid (password_message m) = NoNul m.password
IsValid (query m) = NoNul m.string
IsValid (sasl_initial_response m) = NoNul m.auth_mechanism
IsValid (sasl_response m) = Unit
IsValid sync = Unit
IsValid terminate = Unit

-- Encoding a message appends its frame.
pub encode-framed :
    (dst : List ℕ) (m : FrontendMessage)
    → IsValid m
    → encode dst m ≡ framed dst (type_of m ∷ []) (body_of m)
unfolding encode type_of body_of
encode-framed dst (bind m) v = Bind.Wire.encode-framed dst m v
encode-framed dst (close m) v = Close.encode-framed dst m
encode-framed dst (copy_data m) v = CopyData.encode-framed dst m
encode-framed dst copy_done v = CopyDone.encode-framed dst
encode-framed dst (copy_fail m) v = CopyFail.encode-framed dst m
encode-framed dst (describe m) v = Describe.encode-framed dst m
encode-framed dst (execute m) v = Execute.encode-framed dst m
encode-framed dst flush v = Flush.encode-framed dst
encode-framed dst (function_call m) v = FunctionCall.encode-framed dst m v
encode-framed dst (gss_response m) v = GssResponse.encode-framed dst m
encode-framed dst (parse m) v = Parse.encode-framed dst m v
encode-framed dst (password_message m) v = PasswordMessage.encode-framed dst m
encode-framed dst (query m) v = Query.encode-framed dst m
encode-framed dst (sasl_initial_response m) v = SaslInitialResponse.encode-framed dst m
encode-framed dst (sasl_response m) v = SaslResponse.encode-framed dst m
encode-framed dst sync v = Sync.encode-framed dst
encode-framed dst terminate v = Terminate.encode-framed dst

-- The authentication under which a 'p' message is told apart from its kin.
abbrev pub IsExpected : ℕ → FrontendMessage → Type 0
IsExpected auth_type (sasl_initial_response m) = auth_type ≡ auth_type_sasl
IsExpected auth_type (sasl_response m) =
    (auth_type ≡ auth_type_sasl_continue) ⊎ (auth_type ≡ auth_type_sasl_final)
IsExpected auth_type (gss_response m) =
    (auth_type ≡ auth_type_gss) ⊎ (auth_type ≡ auth_type_gss_cont)
IsExpected auth_type (password_message m) =
    (auth_type ≡ auth_type_cleartext_password) ⊎ (auth_type ≡ auth_type_md5_password)
IsExpected auth_type (bind m) = Unit
IsExpected auth_type (close m) = Unit
IsExpected auth_type (copy_data m) = Unit
IsExpected auth_type copy_done = Unit
IsExpected auth_type (copy_fail m) = Unit
IsExpected auth_type (describe m) = Unit
IsExpected auth_type (execute m) = Unit
IsExpected auth_type flush = Unit
IsExpected auth_type (function_call m) = Unit
IsExpected auth_type (parse m) = Unit
IsExpected auth_type (query m) = Unit
IsExpected auth_type sync = Unit
IsExpected auth_type terminate = Unit

-- The type byte selects the decoder that reads the body back.
pub decoder-body_of :
    (auth_type : ℕ) (m : FrontendMessage)
    → IsExpected auth_type m
    → IsValid m
    → (decode : List ℕ → Result FrontendMessage) × (decoder auth_type (type_of m) ≡ some decode)
      × (decode (body_of m) ≡ ok m)
unfolding decoder password_decoder type_of body_of
decoder-body_of auth_type (bind m) h v = (_, refl, rw (Bind.Wire.decode-body m v))
decoder-body_of auth_type (close m) h v = (_, refl, rw (Close.decode-body m v))
decoder-body_of auth_type (copy_data m) h v = (_, refl, rw (CopyData.decode-body m))
decoder-body_of auth_type copy_done h v = (_, refl, rw (CopyDone.decode-body))
decoder-body_of auth_type (copy_fail m) h v = (_, refl, rw (CopyFail.decode-body m v))
decoder-body_of auth_type (describe m) h v = (_, refl, rw (Describe.decode-body m v))
decoder-body_of auth_type (execute m) h v = (_, refl, rw (Execute.decode-body m v))
decoder-body_of auth_type flush h v = (_, refl, rw (Flush.decode-body))
decoder-body_of auth_type (function_call m) h v = (_, refl, rw (FunctionCall.decode-body m v))
decoder-body_of auth_type (gss_response m) (inl h) v = (
  (λ src. do m ← GssResponse.decode src; ok (gss_response m)),
  rw h,
  rw (GssResponse.decode-body m),
)
decoder-body_of auth_type (gss_response m) (inr h) v = (
  (λ src. do m ← GssResponse.decode src; ok (gss_response m)),
  rw h,
  rw (GssResponse.decode-body m),
)
decoder-body_of auth_type (parse m) h v = (_, refl, rw (Parse.decode-body m v))
decoder-body_of auth_type (password_message m) (inl h) v = (
  (λ src. do m ← PasswordMessage.decode src; ok (password_message m)),
  rw h,
  rw (PasswordMessage.decode-body m v),
)
decoder-body_of auth_type (password_message m) (inr h) v = (
  (λ src. do m ← PasswordMessage.decode src; ok (password_message m)),
  rw h,
  rw (PasswordMessage.decode-body m v),
)
decoder-body_of auth_type (query m) h v = (_, refl, rw (Query.decode-body m v))
decoder-body_of auth_type (sasl_initial_response m) h v = (
  (λ src. do m ← SaslInitialResponse.decode src; ok (sasl_initial_response m)),
  rw h,
  rw (SaslInitialResponse.decode-body m v),
)
decoder-body_of auth_type (sasl_response m) (inl h) v = (
  (λ src. do m ← SaslResponse.decode src; ok (sasl_response m)),
  rw h,
  rw (SaslResponse.decode-body m),
)
decoder-body_of auth_type (sasl_response m) (inr h) v = (
  (λ src. do m ← SaslResponse.decode src; ok (sasl_response m)),
  rw h,
  rw (SaslResponse.decode-body m),
)
decoder-body_of auth_type sync h v = (_, refl, rw (Sync.decode-body))
decoder-body_of auth_type terminate h v = (_, refl, rw (Terminate.decode-body))

-- A valid message of a frontend is encoded as a frame of its type byte, the length and its body
-- behind what the buffer holds, or refused where the length is over the limit; and under an
-- authentication that expects it, the decoder that its type byte selects reads the body back.
pub frontend_message_round_trip :
    (dst : List ℕ) (auth_type : ℕ) (m : FrontendMessage)
    → IsExpected auth_type m
    → IsValid m
    → (encode dst m ≡ framed dst (type_of m ∷ []) (body_of m))
      × ((decode : List ℕ → Result FrontendMessage) × (decoder auth_type (type_of m) ≡ some decode)
          × (decode (body_of m) ≡ ok m))
frontend_message_round_trip dst auth_type m h v =
    (encode-framed dst m v, decoder-body_of auth_type m h v)
