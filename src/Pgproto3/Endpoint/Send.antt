-- ===== src/Pgproto3/Endpoint/Send.antt =====
-- pgproto3/frontend.go and pgproto3/backend.go: `Send`, the `Send…` methods and `Flush`.
use solo_coder.Pgproto3.BackendMessage.{encode as encode_backend}
use solo_coder.Pgproto3.FrontendMessage.{encode as encode_frontend}
use solo_coder.Common.{ℕ, Bool, true, Option, none, some, List, [], ◌==◌, if◌then◌else◌, length}
use solo_coder.Pgproto3.BackendMessage.{BackendMessage}
use solo_coder.Pgproto3.Endpoint.{Endpoint}
use solo_coder.Pgproto3.FrontendMessage.{FrontendMessage}
use solo_coder.Pgproto3.Message.{Error, Result, ok, err}

-- An io.Writer: what `Write` does with a buffer, the number of bytes that it took and its error.
pub record Writer : Type 1 where
  pub State : Type 0
  pub write : List ℕ → State → ℕ × Option Error × State

-- The error and `safeToRetry`.
pub data WriteError : Type 0 where
  write_error : Error → Bool → WriteError

module _ {S : Type 0} where
  unfoldable pub store_encoded : Result (List ℕ) → Endpoint S → Endpoint S
  store_encoded (ok new_buf) e = record e { wbuf = new_buf }
  store_encoded (err x) e = record e { encode_error = some x }

  -- `Send` for a message with this `Encode`: after an error nothing more is encoded.
  unfoldable pub send_encoded : (List ℕ → Result (List ℕ)) → Endpoint S → Endpoint S
  send_encoded encode e = elim e.encode_error [
    | none ↦ store_encoded (encode e.wbuf) e
    | some x ↦ e
  ]

  unfoldable pub send_frontend : FrontendMessage → Endpoint S → Endpoint S
  send_frontend m = send_encoded (λ dst. encode_frontend dst m)

  unfoldable pub send_backend : BackendMessage → Endpoint S → Endpoint S
  send_backend m = send_encoded (λ dst. encode_backend dst m)

-- What a write reports to the caller of `Flush`.
unfoldable pub report : ℕ → Option Error → Option WriteError
report n none = none
report n (some x) = some (write_error x (n == 0))

module _ (writer : Writer) where
  open writer use {State, write}

  -- The part of `Flush` that writes.
  unfoldable pub flush_wbuf :
      {S : Type 0} → Endpoint S → State → Option WriteError × Endpoint S × State
  flush_wbuf e w = let (n, x, w') = write e.wbuf w in (report n x, record e { wbuf = [] }, w')

  -- `Frontend.Flush` writes nothing where nothing is buffered.
  unfoldable pub flush_frontend :
      {S : Type 0} → Endpoint S → State → Option WriteError × Endpoint S × State
  flush_frontend e w = elim e.encode_error [
    | some x ↦ (some (write_error x true), record e { encode_error = none; wbuf = [] }, w)
    | none ↦ if length e.wbuf == 0 then (none, e, w) else flush_wbuf e w
  ]

  -- `Backend.Flush` always writes.
  unfoldable pub flush_backend :
      {S : Type 0} → Endpoint S → State → Option WriteError × Endpoint S × State
  flush_backend e w = elim e.encode_error [
    | some x ↦ (some (write_error x true), record e { encode_error = none; wbuf = [] }, w)
    | none ↦ flush_wbuf e w
  ]

  -- After a failed flush the message is not written.
  unfoldable pub finish_unbuffered :
      {S : Type 0}
      → List ℕ
      → Option WriteError × Endpoint S × State
      → Option WriteError × Endpoint S × State
  finish_unbuffered msg (some x, f, w) = (some x, f, w)
  finish_unbuffered msg (none, f, w) = let (n, x, w') = write msg w in (report n x, f, w')

  -- `Frontend.SendUnbufferedEncodedCopyData`.
  unfoldable pub send_unbuffered_encoded_copy_data :
      {S : Type 0} → List ℕ → Endpoint S → State → Option WriteError × Endpoint S × State
  send_unbuffered_encoded_copy_data msg f w = finish_unbuffered msg (flush_frontend f w)
