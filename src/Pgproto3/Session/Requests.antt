-- ===== src/Pgproto3/Session/Requests.antt =====
-- A Frontend sends a list of messages, and a Backend receives it.
use solo_coder.Pgproto3.FrontendMessage.{encode}
use solo_coder.Pgproto3.FrontendMessage.Wire.{type_of, body_of, IsValid, encode-framed}
use solo_coder.Pgproto3.Backend.{receive}
use solo_coder.Pgproto3.Backend.Receive.{backend_receive-Awaits}
use solo_coder.Common.{
  Option, ℕ, zero, suc, ◌+◌, ◌<◌, ◌≡◌, refl, sym, ap, ◌∙◌, inl, true, false, none, some, List, [],
  ◌∷◌, ◌++◌, append-nil, append_assoc, arith, ltb, length, All,
}
use solo_coder.Pgproto3.Endpoint.{Endpoint}
use solo_coder.Pgproto3.Endpoint.Laws.{Fits}
use solo_coder.Pgproto3.Endpoint.Queue.{
  send_encoded_ok, send_encoded_err, send_encoded_failed, flush_frontend_ok, flush_frontend_failed,
}
use solo_coder.Pgproto3.Endpoint.Send.{
  finish_unbuffered, send_unbuffered_encoded_copy_data, Writer, write_error, report, flush_frontend,
}
use solo_coder.Pgproto3.Endpoint.Send.{send_frontend}
use solo_coder.Pgproto3.FrontendMessage.{FrontendMessage}
use solo_coder.Pgproto3.FrontendMessage.Wire.{IsExpected}
use solo_coder.Pgproto3.Message.{Error, Result, ok, err, ◌>>=◌, max_message_body_len}
use solo_coder.Pgproto3.Message.Frame.{sized, framed}
use solo_coder.Pgproto3.Source.{Source}

unfoldable pub send_all : {S : Type 0} → List FrontendMessage → Endpoint S → Endpoint S
send_all [] e = e
send_all (m ∷ ms) e = send_all ms (send_frontend m e)

-- The bytes of a list of messages.
unfoldable pub wire : List FrontendMessage → List ℕ
wire [] = []
wire (m ∷ ms) = (type_of m ∷ sized (body_of m)) ++ wire ms

abbrev pub IsSound : ℕ → FrontendMessage → Type 0
IsSound limit m = IsValid m × Fits limit (body_of m)

framed-Fits :
    (dst : List ℕ) (t limit : ℕ) (body : List ℕ)
    → Fits limit body
    → framed dst (t ∷ []) body ≡ ok (dst ++ (t ∷ sized body))
framed-Fits dst t limit body h =
    let small : ltb max_message_body_len (4 + length body) ≡ false = ground (arith, h.0) in rw small

send_frontend-frame :
    {S : Type 0} (limit : ℕ) (m : FrontendMessage) (e : Endpoint S)
    → IsSound limit m
    → e.encode_error ≡ none
    → send_frontend m e ≡ record e { wbuf = e.wbuf ++ (type_of m ∷ sized (body_of m)) }
send_frontend-frame limit m e v h =
    let encoded =
      encode-framed e.wbuf m v.0 ∙ framed-Fits e.wbuf (type_of m) limit (body_of m) v.1 in
    unfold send_frontend in send_encoded_ok (λ dst. encode dst m) e h encoded

-- Sent messages are queued whole and in order, behind what is queued already.
pub send_requests-wire :
    {S : Type 0} (limit : ℕ) (ms : List FrontendMessage) (e : Endpoint S)
    → All (IsSound limit) ms
    → e.encode_error ≡ none
    → send_all ms e ≡ record e { wbuf = e.wbuf ++ wire ms }
unfolding send_all wire
send_requests-wire limit [] e v h =
    ap (λ (x : List ℕ). record e { wbuf = x }) (sym (append-nil e.wbuf))
send_requests-wire limit (m ∷ ms) e v h =
    let frame = type_of m ∷ sized (body_of m) in
    ap (send_all ms) (send_frontend-frame limit m e v.0 h)
    ∙ send_requests-wire limit ms (record e { wbuf = e.wbuf ++ frame }) v.1 h
    ∙ ap (λ (x : List ℕ). record e { wbuf = x }) (append_assoc e.wbuf frame (wire ms))

-- After an error nothing more is queued, whatever is sent.
pub send_requests_failed :
    {S : Type 0} (ms : List FrontendMessage) (e : Endpoint S) {x : Error}
    → e.encode_error ≡ some x
    → send_all ms e ≡ e
unfolding send_all
send_requests_failed [] e h = refl
send_requests_failed (m ∷ ms) e h =
    let same : send_frontend m e ≡ e =
      unfold send_frontend in send_encoded_failed (λ dst. encode dst m) e h in
    ap (send_all ms) same ∙ send_requests_failed ms e h

module _ (src : Source) where
  open src use {State, available}

  abbrev receive_next :
      (Endpoint State → Result (List FrontendMessage) × Endpoint State)
      → Result FrontendMessage × Endpoint State
      → Result (List FrontendMessage) × Endpoint State
  receive_next more (err x, e) = (err x, e)
  receive_next more (ok m, e) = let r = more e in (do ms ← r.0; ok (m ∷ ms), r.1)

  -- n calls of `Receive`, up to the first error.
  unfoldable pub receive_many : ℕ → Endpoint State → Result (List FrontendMessage) × Endpoint State
  receive_many zero e = (ok [], e)
  receive_many (suc n) e = receive_next (receive_many n) (receive src e)

  -- A Backend that is at the start of a message, and whose stream begins with the bytes of valid
  -- messages that fit its limit and that its authentication type expects, receives those messages,
  -- in order, with as many calls of `Receive`; the rest of the stream is left behind them, and the
  -- end is at the start of a message again.
  pub receive_requests-wire :
      (ms : List FrontendMessage) (e : Endpoint State) (rest : List ℕ)
      → e.partial_msg ≡ false
      → All (λ m. IsSound e.max_body_len m × IsExpected e.auth_type m) ms
      → available e.reader ≡ wire ms ++ rest
      → (e' : Endpoint State) × (receive_many (length ms) e ≡ (ok ms, e'))
        × (available e'.reader ≡ rest)
        × (e'.partial_msg ≡ false)
  unfolding receive_many wire
  receive_requests-wire [] e rest p v av = (e, refl, av, p)
  receive_requests-wire (m ∷ ms) e rest p v av =
      let split : available e.reader ≡ type_of m ∷ (sized (body_of m) ++ (wire ms ++ rest)) =
        av ∙ ap (◌∷◌ (type_of m)) (append_assoc (sized (body_of m)) (wire ms) rest) in
      let (e1, got, left, p1, limit1, auth1) =
        backend_receive-Awaits src e m (wire ms ++ rest) (inl (p, split)) v.0.0.1 v.0.1 v.0.0.0 in
      let later : All (λ m. IsSound e1.max_body_len m × IsExpected e1.auth_type m) ms =
        rw (limit1, auth1) v.1 in
      let (e2, all, left2, p2) = receive_requests-wire ms e1 rest p1 later left in
      (
        e2,
        ap (receive_next (receive_many (length ms))) got
            ∙ ap
                (λ (r : Result (List FrontendMessage) × Endpoint State).
                  let more : Result (List FrontendMessage) = (do ms ← r.0; ok (m ∷ ms)) in
                  (more, r.1))
                all,
        left2,
        p2,
      )

module _ (writer : Writer) where
  open writer use {State, write}

  -- Messages that are sound for some limit, sent by a Frontend with no recorded error and followed by
  -- `Flush`, reach the writer in one `Write` of what was queued and the bytes of the messages, in
  -- order, if that is not empty; the queue is empty then.
  pub flush_requests-wire :
      {S : Type 0} (limit : ℕ) (ms : List FrontendMessage) (e : Endpoint S) (w : State)
      → All (IsSound limit) ms
      → e.encode_error ≡ none
      → 0 < length (e.wbuf ++ wire ms)
      → flush_frontend writer (send_all ms e) w ≡ (
        report (write (e.wbuf ++ wire ms) w).0 (write (e.wbuf ++ wire ms) w).1,
        record e { wbuf = [] },
        (write (e.wbuf ++ wire ms) w).2,
      )
  flush_requests-wire limit ms e w v h p =
      ap (λ (x : Endpoint _). flush_frontend writer x w) (send_requests-wire limit ms e v h)
      ∙ flush_frontend_ok writer (record e { wbuf = e.wbuf ++ wire ms }) w h p

  -- If a message cannot be encoded by a Frontend with no recorded error, nothing of what was queued
  -- before it, and of what is sent after it, is written: `Flush` reports the error as safe to retry,
  -- leaves the writer alone, and gives back the Frontend with no error and an empty queue.
  pub failed_requests-dropped :
      {S : Type 0} (m : FrontendMessage) (ms : List FrontendMessage) (e : Endpoint S) (w : State)
      {x : Error}
      → e.encode_error ≡ none
      → encode e.wbuf m ≡ err x
      → flush_frontend writer (send_all (m ∷ ms) e) w
        ≡ (some (write_error x true), record e { encode_error = none; wbuf = [] }, w)
  unfolding send_all send_frontend
  failed_requests-dropped m ms e w {x} h k =
      ap (λ (y : Endpoint _). flush_frontend writer (send_all ms y) w)
        (send_encoded_err (λ dst. encode dst m) e h k)
      ∙ ap (λ (y : Endpoint _). flush_frontend writer y w)
          (send_requests_failed ms (record e { encode_error = some x }) refl)
      ∙ flush_frontend_failed writer (record e { encode_error = some x }) w refl

  -- An encoded message handed over unbuffered, behind sound requests of a Frontend with no recorded
  -- error that are not yet flushed, is written in a `Write` of its own after the one that takes what
  -- was queued and the requests, if there are any such bytes and that `Write` succeeds; its own
  -- outcome is the one reported, and the queue is empty then.
  pub unbuffered_copy-behind :
      {S : Type 0} (limit : ℕ) (ms : List FrontendMessage) (msg : List ℕ) (e : Endpoint S)
      (w : State) {n : ℕ} {w1 : State}
      → All (IsSound limit) ms
      → e.encode_error ≡ none
      → 0 < length (e.wbuf ++ wire ms)
      → write (e.wbuf ++ wire ms) w ≡ (n, none, w1)
      → send_unbuffered_encoded_copy_data writer msg (send_all ms e) w
        ≡ (report (write msg w1).0 (write msg w1).1, record e { wbuf = [] }, (write msg w1).2)
  unfolding send_unbuffered_encoded_copy_data finish_unbuffered report
  unbuffered_copy-behind limit ms msg e w v h p taken = ap (finish_unbuffered writer msg) (
      flush_requests-wire limit ms e w v h p
      ∙ ap (λ (x : ℕ × Option Error × State). (report x.0 x.1, record e { wbuf = [] }, x.2)) taken)
