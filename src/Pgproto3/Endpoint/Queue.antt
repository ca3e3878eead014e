-- ===== src/Pgproto3/Endpoint/Queue.antt =====
-- What `Send` does to the buffer, and what `Flush` does after an error.
use solo_coder.Common.{
  ℕ, ◌<◌, ◌≡◌, ap, ◌∙◌, Bool, true, false, Option, none, some, List, [], arith, ◌==◌, if◌then◌else◌,
  length,
}
use solo_coder.Pgproto3.Endpoint.{Endpoint}
use solo_coder.Pgproto3.Endpoint.Send.{
  Writer, WriteError, write_error, store_encoded, send_encoded, report, flush_wbuf, flush_frontend,
  flush_backend,
}
use solo_coder.Pgproto3.Message.{Error, Result, ok, err}

module _ {S : Type 0} where
  pub send_encoded_ok :
      (encode : List ℕ → Result (List ℕ)) (e : Endpoint S) {buf : List ℕ}
      → e.encode_error ≡ none
      → encode e.wbuf ≡ ok buf
      → send_encoded encode e ≡ record e { wbuf = buf }
  unfolding send_encoded store_encoded
  send_encoded_ok encode e h k =
      ap
        (λ (x : Option Error). elim x as (λ _. Endpoint S) [
          | none ↦ store_encoded (encode e.wbuf) e
          | some y ↦ e
        ])
        h
      ∙ ap (λ (r : Result (List ℕ)). store_encoded r e) k

  pub send_encoded_err :
      (encode : List ℕ → Result (List ℕ)) (e : Endpoint S) {x : Error}
      → e.encode_error ≡ none
      → encode e.wbuf ≡ err x
      → send_encoded encode e ≡ record e { encode_error = some x }
  unfolding send_encoded store_encoded
  send_encoded_err encode e h k =
      ap
        (λ (x : Option Error). elim x as (λ _. Endpoint S) [
          | none ↦ store_encoded (encode e.wbuf) e
          | some y ↦ e
        ])
        h
      ∙ ap (λ (r : Result (List ℕ)). store_encoded r e) k

  pub send_encoded_failed :
      (encode : List ℕ → Result (List ℕ)) (e : Endpoint S) {x : Error}
      → e.encode_error ≡ some x
      → send_encoded encode e ≡ e
  unfolding send_encoded
  send_encoded_failed encode e h =
      ap
        (λ (x : Option Error). elim x as (λ _. Endpoint S) [
          | none ↦ store_encoded (encode e.wbuf) e
          | some y ↦ e
        ])
        h

module _ (writer : Writer) where
  open writer use {State, write}

  pub flush_frontend_failed :
      {S : Type 0} (e : Endpoint S) (w : State) {x : Error}
      → e.encode_error ≡ some x
      → flush_frontend writer e w
        ≡ (some (write_error x true), record e { encode_error = none; wbuf = [] }, w)
  unfolding flush_frontend
  flush_frontend_failed {S} e w h =
      ap
        (λ (x : Option Error). elim x as (λ _. Option WriteError × Endpoint S × State) [
          | some y ↦ (some (write_error y true), record e { encode_error = none; wbuf = [] }, w)
          | none ↦ if length e.wbuf == 0 then (none, e, w) else flush_wbuf writer e w
        ])
        h

  -- Without an error `Frontend.Flush` hands the whole buffer to one `Write`, and empties it.
  pub flush_frontend_ok :
      {S : Type 0} (e : Endpoint S) (w : State)
      → e.encode_error ≡ none
      → 0 < length e.wbuf
      → flush_frontend writer e w
        ≡ (report (write e.wbuf w).0 (write e.wbuf w).1, record e { wbuf = [] }, (write e.wbuf w).2)
  unfolding flush_frontend flush_wbuf
  flush_frontend_ok {S} e w h k =
      let some_bytes : (length e.wbuf == 0) ≡ false = ground arith in
      ap
        (λ (x : Option Error). elim x as (λ _. Option WriteError × Endpoint S × State) [
          | some y ↦ (some (write_error y true), record e { encode_error = none; wbuf = [] }, w)
          | none ↦ if length e.wbuf == 0 then (none, e, w) else flush_wbuf writer e w
        ])
        h
      ∙ ap (λ (b : Bool). if b then (none, e, w) else flush_wbuf writer e w) some_bytes

  pub flush_backend_failed :
      {S : Type 0} (e : Endpoint S) (w : State) {x : Error}
      → e.encode_error ≡ some x
      → flush_backend writer e w
        ≡ (some (write_error x true), record e { encode_error = none; wbuf = [] }, w)
  unfolding flush_backend
  flush_backend_failed {S} e w h =
      ap
        (λ (x : Option Error). elim x as (λ _. Option WriteError × Endpoint S × State) [
          | some y ↦ (some (write_error y true), record e { encode_error = none; wbuf = [] }, w)
          | none ↦ flush_wbuf writer e w
        ])
        h

  pub flush_backend_ok :
      {S : Type 0} (e : Endpoint S) (w : State)
      → e.encode_error ≡ none
      → flush_backend writer e w
        ≡ (report (write e.wbuf w).0 (write e.wbuf w).1, record e { wbuf = [] }, (write e.wbuf w).2)
  unfolding flush_backend flush_wbuf
  flush_backend_ok {S} e w h =
      ap
        (λ (x : Option Error). elim x as (λ _. Option WriteError × Endpoint S × State) [
          | some y ↦ (some (write_error y true), record e { encode_error = none; wbuf = [] }, w)
          | none ↦ flush_wbuf writer e w
        ])
        h
