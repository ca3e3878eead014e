-- ===== src/Pgproto3/Backend/Startup/Laws.antt =====
-- `Backend.ReceiveStartupMessage` on what a client begins a connection with.
use solo_coder.Pgproto3.Startup.StartupMessage
use solo_coder.Pgproto3.Startup.CancelRequest
use solo_coder.Pgproto3.Startup.SslRequest
use solo_coder.Pgproto3.Startup.GssEncRequest
use solo_coder.Common.{
  ℕ, ◌+◌, ◌%◌, ◌^◌, ◌≤◌, ◌<◌, ◌≡◌, refl, sym, ap, ◌∙◌, ◌⊎◌, true, false, ◌||◌, List, [], ◌++◌,
  append-nil, arith, ltb, ◌==◌, length, take, drop, length-append, take_append, drop_append,
}
use solo_coder.Common.Int.{pos}
use solo_coder.Pgio.{uint32_of, int32_of}
use solo_coder.Pgio.Laws.{be32, from_be32-be32}
use solo_coder.Pgproto3.Backend.Startup.{
  StartupRequest, startup_message, ssl_request, cancel_request, gss_enc_request,
  min_startup_packet_len, max_startup_packet_len, startup_size, decode_code, decode_startup,
  finish_startup, receive_sized, receive_after_size, receive_startup_message,
}
use solo_coder.Pgproto3.Endpoint.{Endpoint}
use solo_coder.Pgproto3.Message.{Result, ok, err, max_message_body_len}
use solo_coder.Pgproto3.Message.Frame.{sized, framed}
use solo_coder.Pgproto3.Source.{Source}
use solo_coder.Pgproto3.Startup.{
  protocol_version_30, protocol_version_32, ssl_request_number, cancel_request_code,
  gss_enc_req_number,
}
use solo_coder.Pgproto3.Startup.CancelRequest.{CancelRequest}
use solo_coder.Pgproto3.Startup.StartupMessage.{StartupMessage}

unfoldable pub startup_body : StartupRequest → List ℕ
startup_body (startup_message m) = StartupMessage.Wire.body m
startup_body ssl_request = SslRequest.body
startup_body (cancel_request m) = CancelRequest.body m
startup_body gss_enc_request = GssEncRequest.body

abbrev pub IsStartable : StartupRequest → Type 0
IsStartable (startup_message m) = StartupMessage.Wire.IsValid m
IsStartable ssl_request = Unit
IsStartable (cancel_request m) = CancelRequest.IsValid m
IsStartable gss_enc_request = Unit

unfoldable pub encode_startup : List ℕ → StartupRequest → Result (List ℕ)
encode_startup dst (startup_message m) = StartupMessage.encode dst m
encode_startup dst ssl_request = SslRequest.encode dst
encode_startup dst (cancel_request m) = CancelRequest.encode dst m
encode_startup dst gss_enc_request = GssEncRequest.encode dst

-- A first message is encoded as a frame without a type byte.
encode_startup-framed :
    (dst : List ℕ) (m : StartupRequest)
    → IsStartable m
    → encode_startup dst m ≡ framed dst [] (startup_body m)
unfolding encode_startup startup_body
encode_startup-framed dst (startup_message m) v = StartupMessage.Wire.encode-framed dst m
encode_startup-framed dst ssl_request v = SslRequest.encode-framed dst
encode_startup-framed dst (cancel_request m) v = CancelRequest.encode-framed dst m v
encode_startup-framed dst gss_enc_request v = GssEncRequest.encode-framed dst

-- The code is the first four bytes, whatever follows.
decode_startup-code :
    (n : ℕ) (rest : List ℕ)
    → n < 2 ^ 32
    → decode_startup (be32 n ++ rest) ≡ decode_code n (be32 n ++ rest)
unfolding decode_startup be32
decode_startup-code n rest h = rw (from_be32-be32 n h)

decode_startup-body : (m : StartupRequest) → IsStartable m → decode_startup (startup_body m) ≡ ok m
unfolding startup_body decode_code
decode_startup-body (startup_message m) v =
    unfold StartupMessage.Wire.body in
    decode_startup-code m.protocol_version _ (omega (arith, v.version))
    ∙ rw (known_version m.protocol_version v.version)
        (unfold StartupMessage.Wire.body in rw (StartupMessage.Wire.decode-body m v))
  where
    known_version :
        (n : ℕ)
        → (n ≡ protocol_version_30) ⊎ (n ≡ protocol_version_32)
        → (n == protocol_version_30 || n == protocol_version_32) ≡ true
    known_version n h = ground arith
decode_startup-body ssl_request v =
    unfold SslRequest.body in
    ap decode_startup (sym (append-nil (be32 ssl_request_number)))
    ∙ decode_startup-code ssl_request_number [] (omega arith)
    ∙ rw (append-nil (be32 ssl_request_number))
        (unfold SslRequest.body in rw (SslRequest.decode-body))
decode_startup-body (cancel_request m) v =
    unfold CancelRequest.body in
    decode_startup-code cancel_request_code _ (omega arith)
    ∙ unfold CancelRequest.body in rw (CancelRequest.decode-body m v)
decode_startup-body gss_enc_request v =
    unfold GssEncRequest.body in
    ap decode_startup (sym (append-nil (be32 gss_enc_req_number)))
    ∙ decode_startup-code gss_enc_req_number [] (omega arith)
    ∙ rw (append-nil (be32 gss_enc_req_number))
        (unfold GssEncRequest.body in rw (GssEncRequest.decode-body))

startup_size-sized :
    (body : List ℕ)
    → length body ≤ max_startup_packet_len
    → startup_size (be32 (uint32_of (pos (4 + length body)))) ≡ pos (length body)
unfolding startup_size be32 int32_of uint32_of
startup_size-sized body h =
    rw (from_be32-be32 ((4 + length body) % 2 ^ 32) (omega arith)) (ground arith)

startup_body-long : (m : StartupRequest) → min_startup_packet_len ≤ length (startup_body m)
unfolding startup_body StartupMessage.Wire.body SslRequest.body CancelRequest.body
    GssEncRequest.body be32
startup_body-long (startup_message m) = omega arith
startup_body-long ssl_request = omega arith
startup_body-long (cancel_request m) = omega arith
startup_body-long gss_enc_request = omega arith

-- The four bytes of the length, and what follows them.
split_length :
    (body rest : List ℕ)
    → (4 ≤ length (sized body ++ rest))
      × (take 4 (sized body ++ rest) ≡ be32 (uint32_of (pos (4 + length body))))
      × (drop 4 (sized body ++ rest) ≡ body ++ rest)
unfolding sized be32
split_length body rest = (omega arith, refl, refl)

contents : Result (List ℕ) → List ℕ
contents (ok s) = s
contents (err x) = []

module _ (src : Source) where
  open src use {State, available, next_enough}

  receive_startup-sized :
      (b : Endpoint State) (m : StartupRequest) (rest : List ℕ)
      → IsStartable m
      → length (startup_body m) ≤ max_startup_packet_len
      → available b.reader ≡ sized (startup_body m) ++ rest
      → (s : State) × (receive_startup_message src b ≡ (ok m, record b { reader = s }))
        × (available s ≡ rest)
  unfolding receive_startup_message receive_after_size receive_sized finish_startup
  receive_startup-sized b m rest v h av =
      let body = startup_body m in
      let (long, front, back) = split_length body rest in
      let (s1, read1, left1) = next_enough 4 b.reader (rw av long) in
      let rest1 : available s1 ≡ body ++ rest = left1 ∙ rw av back in
      let (s2, read2, left2) =
        next_enough (length body) s1 (rw rest1 (omega (arith, length-append body rest))) in
      let whole : take (length body) (available s1) ≡ body = rw rest1 (take_append body rest) in
      let enough : ltb (length body) min_startup_packet_len ≡ false =
        ground (arith, startup_body-long m) in
      let few : ltb max_startup_packet_len (length body) ≡ false = ground (arith, h) in
      (
        s2,
        rw (read1, av, front, startup_size-sized body h, enough, few, read2, whole)
            (rw (decode_startup-body m v)),
        left2 ∙ rw rest1 (drop_append body rest),
      )

  -- From a stream that begins with the encoding of a valid first message, of at most 10000 bytes
  -- behind its length, the message is received as it was sent: the stream is left at what follows it
  -- and nothing but the reader changes.
  pub receive_startup_message-wire :
      (b : Endpoint State) (m : StartupRequest) (wire rest : List ℕ)
      → IsStartable m
      → length (startup_body m) ≤ max_startup_packet_len
      → encode_startup [] m ≡ ok wire
      → available b.reader ≡ wire ++ rest
      → (s : State) × (receive_startup_message src b ≡ (ok m, record b { reader = s }))
        × (available s ≡ rest)
  receive_startup_message-wire b m wire rest v h e av =
      let small : ltb max_message_body_len (4 + length (startup_body m)) ≡ false =
        ground (arith, h) in
      let encoded : framed [] [] (startup_body m) ≡ ok (sized (startup_body m)) = rw small in
      let same : sized (startup_body m) ≡ wire =
        unfold contents in ap contents (sym encoded ∙ sym (encode_startup-framed [] m v) ∙ e) in
      receive_startup-sized b m rest v h (av ∙ ap (λ (x : List ℕ). x ++ rest) (sym same))
