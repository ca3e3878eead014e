-- ===== src/Pgproto3/Session/Responses.antt =====
-- A Backend sends a list of messages, and a Frontend receives it.
use solo_coder.Pgproto3.BackendMessage.{encode}
use solo_coder.Pgproto3.BackendMessage.Wire.{type_of, body_of, IsValid, encode-framed}
use solo_coder.Pgproto3.Frontend.{receive}
use solo_coder.Pgproto3.Frontend.Receive.{frontend_receive-Awaits}
use solo_coder.Common.{
  ℕ, zero, suc, ◌+◌, ◌≡◌, refl, sym, ap, ◌∙◌, inl, true, false, none, some, List, [], ◌∷◌, ◌++◌,
  append-nil, append_assoc, arith, ltb, length, All,
}
use solo_coder.Pgproto3.BackendMessage.{BackendMessage}
use solo_coder.Pgproto3.Endpoint.{Endpoint}
use solo_coder.Pgproto3.Endpoint.Laws.{Fits}
use solo_coder.Pgproto3.Endpoint.Queue.{
  send_encoded_ok, send_encoded_err, send_encoded_failed, flush_backend_ok, flush_backend_failed,
}
use solo_coder.Pgproto3.Endpoint.Send.{Writer, write_error, report, flush_backend}
use solo_coder.Pgproto3.Endpoint.Send.{send_backend}
use solo_coder.Pgproto3.Message.{Error, Result, ok, err, ◌>>=◌, max_message_body_len}
use solo_coder.Pgproto3.Message.Frame.{sized, framed}
use solo_coder.Pgproto3.Source.{Source}

unfoldable pub send_all : {S : Type 0} → List BackendMessage → Endpoint S → Endpoint S
send_all [] e = e
send_all (m ∷ ms) e = send_all ms (send_backend m e)

-- The bytes of a list of messages.
unfoldable pub wire : List BackendMessage → List ℕ
wire [] = []
wire (m ∷ ms) = (type_of m ∷ sized (body_of m)) ++ wire ms

abbrev pub IsSound : ℕ → BackendMessage → Type 0
IsSound limit m = IsValid m × Fits limit (body_of m)

framed-Fits :
    (dst : List ℕ) (t limit : ℕ) (body : List ℕ)
    → Fits limit body
    → framed dst (t ∷ []) body ≡ ok (dst ++ (t ∷ sized body))
framed-Fits dst t limit body h =
    let small : ltb max_message_body_len (4 + length body) ≡ false = ground (arith, h.0) in rw small

send_backend-frame :
    {S : Type 0} (limit : ℕ) (m : BackendMessage) (e : Endpoint S)
    → IsSound limit m
    → e.encode_error ≡ none
    → send_backend m e ≡ record e { wbuf = e.wbuf ++ (type_of m ∷ sized (body_of m)) }
send_backend-frame limit m e v h =
    let encoded =
      encode-framed e.wbuf m v.0 ∙ framed-Fits e.wbuf (type_of m) limit (body_of m) v.1 in
    unfold send_backend in send_encoded_ok (λ dst. encode dst m) e h encoded

-- Sent messages are queued whole and in order, behind what is queued already.
pub send_responses-wire :
    {S : Type 0} (limit : ℕ) (ms : List BackendMessage) (e : Endpoint S)
    → All (IsSound limit) ms
    → e.encode_error ≡ none
    → send_all ms e ≡ record e { wbuf = e.wbuf ++ wire ms }
unfolding send_all wire
send_responses-wire limit [] e v h =
    ap (λ (x : List ℕ). record e { wbuf = x }) (sym (append-nil e.wbuf))
send_responses-wire limit (m ∷ ms) e v h =
    let frame = type_of m ∷ sized (body_of m) in
    ap (send_all ms) (send_backend-frame limit m e v.0 h)
    ∙ send_responses-wire limit ms (record e { wbuf = e.wbuf ++ frame }) v.1 h
    ∙ ap (λ (x : List ℕ). record e { wbuf = x }) (append_assoc e.wbuf frame (wire ms))

-- After an error nothing more is queued, whatever is sent.
pub send_responses_failed :
    {S : Type 0} (ms : List BackendMessage) (e : Endpoint S) {x : Error}
    → e.encode_error ≡ some x
    → send_all ms e ≡ e
unfolding send_all
send_responses_failed [] e h = refl
send_responses_failed (m ∷ ms) e h =
    let same : send_backend m e ≡ e =
      unfold send_backend in send_encoded_failed (λ dst. encode dst m) e h in
    ap (send_all ms) same ∙ send_responses_failed ms e h

module _ (src : Source) where
  open src use {State, available}

  abbrev receive_next :
      (Endpoint State → Result (List BackendMessage) × Endpoint State)
      → Result BackendMessage × Endpoint State
      → Result (List BackendMessage) × Endpoint State
  receive_next more (err x, e) = (err x, e)
  receive_next more (ok m, e) = let r = more e in (do ms ← r.0; ok (m ∷ ms), r.1)

  -- n calls of `Receive`, up to the first error.
  unfoldable pub receive_many : ℕ → Endpoint State → Result (List BackendMessage) × Endpoint State
  receive_many zero e = (ok [], e)
  receive_many (suc n) e = receive_next (receive_many n) (receive src e)

  -- A Frontend that is at the start of a message, and whose stream begins with the bytes of valid
  -- messages that fit its limit, receives those messages, in order, with as many calls of
  -- `Receive`; the rest of the stream is left behind them, and the end is at the start of a
  -- message again.
  pub receive_responses-wire :
      (ms : List BackendMessage) (e : Endpoint State) (rest : List ℕ)
      → e.partial_msg ≡ false
      → All (λ m. IsSound e.max_body_len m) ms
      → available e.reader ≡ wire ms ++ rest
      → (e' : Endpoint State) × (receive_many (length ms) e ≡ (ok ms, e'))
        × (available e'.reader ≡ rest)
        × (e'.partial_msg ≡ false)
  unfolding receive_many wire
  receive_responses-wire [] e rest p v av = (e, refl, av, p)
  receive_responses-wire (m ∷ ms) e rest p v av =
      let split : available e.reader ≡ type_of m ∷ (sized (body_of m) ++ (wire ms ++ rest)) =
        av ∙ ap (◌∷◌ (type_of m)) (append_assoc (sized (body_of m)) (wire ms) rest) in
      let (e1, got, left, p1, limit1) =
        frontend_receive-Awaits src e m (wire ms ++ rest) (inl (p, split)) v.0.1 v.0.0 in
      let later : All (λ m. IsSound e1.max_body_len m) ms = rw limit1 v.1 in
      let (e2, all, left2, p2) = receive_responses-wire ms e1 rest p1 later left in
      (
        e2,
        ap (receive_next (receive_many (length ms))) got
            ∙ ap
                (λ (r : Result (List BackendMessage) × Endpoint State).
                  let more : Result (List BackendMessage) = (do ms ← r.0; ok (m ∷ ms)) in
                  (more, r.1))
                all,
        left2,
        p2,
      )

module _ (writer : Writer) where
  open writer use {State, write}

  -- Messages that are sound for some limit, sent by a Backend with no recorded error and followed by
  -- `Flush`, reach the writer in one `Write` of what was queued and the bytes of the messages, in
  -- order; the queue is empty then.
  pub flush_responses-wire :
      {S : Type 0} (limit : ℕ) (ms : List BackendMessage) (e : Endpoint S) (w : State)
      → All (IsSound limit) ms
      → e.encode_error ≡ none
      → flush_backend writer (send_all ms e) w ≡ (
        report (write (e.wbuf ++ wire ms) w).0 (write (e.wbuf ++ wire ms) w).1,
        record e { wbuf = [] },
        (write (e.wbuf ++ wire ms) w).2,
      )
  flush_responses-wire limit ms e w v h =
      ap (λ (x : Endpoint _). flush_backend writer x w) (send_responses-wire limit ms e v h)
      ∙ flush_backend_ok writer (record e { wbuf = e.wbuf ++ wire ms }) w h

  -- If a message cannot be encoded by a Backend with no recorded error, nothing of what was queued
  -- before it, and of what is sent after it, is written: `Flush` reports the error as safe to retry,
  -- leaves the writer alone, and gives back the Backend with no error and an empty queue.
  pub failed_responses-dropped :
      {S : Type 0} (m : BackendMessage) (ms : List BackendMessage) (e : Endpoint S) (w : State)
      {x : Error}
      → e.encode_error ≡ none
      → encode e.wbuf m ≡ err x
      → flush_backend writer (send_all (m ∷ ms) e) w
        ≡ (some (write_error x true), record e { encode_error = none; wbuf = [] }, w)
  unfolding send_all send_backend
  failed_responses-dropped m ms e w {x} h k =
      ap (λ (y : Endpoint _). flush_backend writer (send_all ms y) w)
        (send_encoded_err (λ dst. encode dst m) e h k)
      ∙ ap (λ (y : Endpoint _). flush_backend writer y w)
          (send_responses_failed ms (record e { encode_error = some x }) refl)
      ∙ flush_backend_failed writer (record e { encode_error = some x }) w refl
