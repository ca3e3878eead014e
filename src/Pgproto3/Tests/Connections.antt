-- ===== src/Pgproto3/Tests/Connections.antt =====
-- The theorems on the two ends of a connection at concrete messages.
use solo_coder.Pgproto3.Backend
use solo_coder.Pgproto3.Frontend
use solo_coder.Pgproto3.FrontendMessage
use solo_coder.Pgproto3.BackendMessage
use solo_coder.Pgproto3.Parse
use solo_coder.Pgproto3.ParameterDescription
use solo_coder.Pgproto3.Query
use solo_coder.Pgproto3.ParameterStatus
use solo_coder.Pgproto3.Tests.Sources.{lt→leb}
use solo_coder.Pgproto3.FrontendMessage.{parse}
use solo_coder.Pgproto3.BackendMessage.{parameter_description}
use solo_coder.Pgproto3.Message.{begin_message}
use solo_coder.Pgproto3.Endpoint.Send.{send_unbuffered_encoded_copy_data, write_error}
use solo_coder.Common.{true, some, leb, ◌≤◌}
use solo_coder.Pgproto3.Read.{max_uint16}
use solo_coder.Pgproto3.Session.Requests
use solo_coder.Iobufpool.Classes.{zeros}
use solo_coder.Iobufpool.Classes.Laws.{length-zeros}
use solo_coder.Pgproto3.Startup.SslRequest
use solo_coder.Pgproto3.Backend.Startup.{receive_startup_message, ssl_request}
use solo_coder.Pgproto3.Backend.Startup.Laws.{
  encode_startup, startup_body, receive_startup_message-wire,
}
use solo_coder.Pgio.{append_int32, append_uint32, uint32_of}
use solo_coder.Pgio.Laws.{be32}
use solo_coder.Common.{arith}
use solo_coder.Pgproto3.Session.Responses
use solo_coder.Common.{
  ℕ, ◌≡◌, refl, inl, inr, true, false, none, List, [], ◌∷◌, ◌++◌, arith, length, All,
}
use solo_coder.Pgproto3.Backend.Receive.{backend_receive-Awaits}
use solo_coder.Pgproto3.Backend.Refusals.{
  backend_receive_unknown, backend_receive_long, backend_receive_short,
}
use solo_coder.Pgproto3.BackendMessage.{BackendMessage, no_data, parameter_status}
use solo_coder.Pgproto3.Endpoint.{Endpoint}
use solo_coder.Pgproto3.Endpoint.Laws.{Fits}
use solo_coder.Pgproto3.Endpoint.Send.{report, flush_frontend, flush_backend}
use solo_coder.Pgproto3.Frontend.Receive.{frontend_receive-Awaits}
use solo_coder.Pgproto3.FrontendMessage.{FrontendMessage, query, sync, decoder}
use solo_coder.Pgproto3.Message.{Error, exceeded_max_body_len, message, ok, err}
use solo_coder.Pgproto3.Message.Frame.{sized}
use solo_coder.Pgproto3.ParameterStatus.{ParameterStatus}
use solo_coder.Pgproto3.Query.{Query}
use solo_coder.Pgproto3.Read.Laws.{NoNul}
use solo_coder.Pgproto3.Session.Requests.{receive_requests-wire, flush_requests-wire}
use solo_coder.Pgproto3.Session.Responses.{receive_responses-wire, flush_responses-wire}
use solo_coder.Pgproto3.Tests.Sources.{list_source, fresh_endpoint, list_writer}

abbrev text : List ℕ
text = b'o' ∷ b'k' ∷ []

abbrev a_query : FrontendMessage
a_query = query (record { string = text })

abbrev requests : List FrontendMessage
requests = a_query ∷ sync ∷ []

abbrev a_status : BackendMessage
a_status = parameter_status (record { name = text; value = [] })

abbrev responses : List BackendMessage
responses = a_status ∷ no_data ∷ []

text-NoNul : NoNul text
text-NoNul = (omega arith, (omega arith, tt))

query-Fits : Fits 0 (FrontendMessage.Wire.body_of a_query)
unfolding FrontendMessage.Wire.body_of Query.body
query-Fits = (omega arith, inl refl)

requests-IsSound : All (Requests.IsSound 0) requests
unfolding FrontendMessage.Wire.body_of Query.body
requests-IsSound = ((text-NoNul, query-Fits), ((tt, (omega arith, inl refl)), tt))

status-Fits : Fits 0 (BackendMessage.Wire.body_of a_status)
unfolding BackendMessage.Wire.body_of ParameterStatus.body
status-Fits = (omega arith, inl refl)

status-IsValid : BackendMessage.Wire.IsValid a_status
status-IsValid = record { name = text-NoNul; value = tt }

responses-IsSound : All (Responses.IsSound 0) responses
unfolding BackendMessage.Wire.body_of
responses-IsSound = ((status-IsValid, status-Fits), ((tt, (omega arith, inl refl)), tt))

abbrev server : Endpoint (List ℕ)
server = fresh_endpoint (Requests.wire requests ++ (7 ∷ []))

receive_requests-wire_example :
    (e' : Endpoint (List ℕ)) × (Requests.receive_many list_source 2 server ≡ (ok requests, e'))
    × (e'.reader ≡ 7 ∷ [])
    × (e'.partial_msg ≡ false)
receive_requests-wire_example =
    Requests.receive_requests-wire list_source requests server (7 ∷ []) refl
      ((requests-IsSound.0, tt), ((requests-IsSound.1.0, tt), tt)) refl

abbrev client : Endpoint (List ℕ)
client = fresh_endpoint (Responses.wire responses ++ (7 ∷ []))

receive_responses-wire_example :
    (e' : Endpoint (List ℕ)) × (Responses.receive_many list_source 2 client ≡ (ok responses, e'))
    × (e'.reader ≡ 7 ∷ [])
    × (e'.partial_msg ≡ false)
receive_responses-wire_example =
    Responses.receive_responses-wire list_source responses client (7 ∷ []) refl responses-IsSound
      refl

abbrev awaiting_query : Endpoint (List ℕ)
awaiting_query = fresh_endpoint (b'Q' ∷ (sized (FrontendMessage.Wire.body_of a_query) ++ (7 ∷ [])))

backend_receive-Awaits_example :
    (b' : Endpoint (List ℕ)) × (Backend.receive list_source awaiting_query ≡ (ok a_query, b'))
    × (b'.reader ≡ 7 ∷ [])
    × (b'.partial_msg ≡ false)
    × (b'.max_body_len ≡ 0)
    × (b'.auth_type ≡ 0)
unfolding FrontendMessage.Wire.type_of
backend_receive-Awaits_example =
    Backend.Receive.backend_receive-Awaits list_source awaiting_query a_query (7 ∷ [])
      (inl (refl, refl)) query-Fits tt text-NoNul

abbrev awaiting_status : Endpoint (List ℕ)
awaiting_status = fresh_endpoint (b'S' ∷ (sized (BackendMessage.Wire.body_of a_status) ++ (7 ∷ [])))

frontend_receive-Awaits_example :
    (f' : Endpoint (List ℕ)) × (Frontend.receive list_source awaiting_status ≡ (ok a_status, f'))
    × (f'.reader ≡ 7 ∷ [])
    × (f'.partial_msg ≡ false)
    × (f'.max_body_len ≡ 0)
unfolding BackendMessage.Wire.type_of
frontend_receive-Awaits_example =
    Frontend.Receive.frontend_receive-Awaits list_source awaiting_status a_status (7 ∷ [])
      (inl (refl, refl)) status-Fits status-IsValid

abbrev unknown_frame : Endpoint (List ℕ)
unknown_frame = fresh_endpoint (b'!' ∷ (sized text ++ (7 ∷ [])))

backend_receive_unknown_example :
    (b' : Endpoint (List ℕ)) × (Backend.receive list_source unknown_frame
      ≡ (err (message "unknown message type"), b'))
    × (Backend.receive list_source b' ≡ (err (message "unknown message type"), b'))
    × (b'.reader ≡ text ++ (7 ∷ []))
unfolding decoder
backend_receive_unknown_example =
    Backend.Refusals.backend_receive_unknown list_source unknown_frame b'!' text (7 ∷ [])
      (inl (refl, refl)) (omega arith, inl refl) refl

abbrev long_frame : Endpoint (List ℕ)
long_frame = record unknown_frame { max_body_len = 1 }

backend_receive_long_example :
    (b' : Endpoint (List ℕ)) × (Backend.receive list_source long_frame
      ≡ (err (exceeded_max_body_len 1 2), b'))
    × (b'.reader ≡ text ++ (7 ∷ []))
    × (b'.partial_msg ≡ false)
backend_receive_long_example =
    Backend.Refusals.backend_receive_long list_source long_frame b'!' text (7 ∷ []) refl refl
      (omega arith) (omega arith) (omega arith)

abbrev short_body : Endpoint (List ℕ)
short_body = record (fresh_endpoint text) { partial_msg = true; msg_type = b'Q'; body_len = 3 }

backend_receive_short_example :
    (e : Error) × (s : List ℕ) × (more : List ℕ) × (Backend.receive list_source short_body
      ≡ (err e, record short_body { reader = s }))
    × (s ≡ text ++ more)
unfolding decoder
backend_receive_short_example =
    Backend.Refusals.backend_receive_short list_source short_body
      (inr (refl, omega arith, (_, refl)))

abbrev idle : Endpoint (List ℕ)
idle = record (fresh_endpoint []) { wbuf = 1 ∷ [] }

flush_requests-wire_example : flush_frontend list_writer (Requests.send_all requests idle) [] ≡ (
  report (length (1 ∷ Requests.wire requests)) none,
  record idle { wbuf = [] },
  1 ∷ Requests.wire requests,
)
flush_requests-wire_example =
    Requests.flush_requests-wire list_writer 0 requests idle [] requests-IsSound refl (omega arith)

flush_responses-wire_example : flush_backend list_writer (Responses.send_all responses idle) [] ≡ (
  report (length (1 ∷ Responses.wire responses)) none,
  record idle { wbuf = [] },
  1 ∷ Responses.wire responses,
)
flush_responses-wire_example =
    Responses.flush_responses-wire list_writer 0 responses idle [] responses-IsSound refl

-- More type codes than 16 bits can count.
abbrev a_long_parse : List ℕ → FrontendMessage
a_long_parse oids = parse (record { name = []; query = []; parameter_oids = oids })

too_many : leb (length (zeros 65536)) max_uint16 ≡ false
too_many = lt→leb (length (zeros 65536)) max_uint16 (omega (arith, length-zeros 65536))

long_parse-refused :
    (dst oids : List ℕ)
    → leb (length oids) max_uint16 ≡ false
    → FrontendMessage.encode dst (a_long_parse oids) ≡ err (message "too many parameter oids")
unfolding FrontendMessage.encode Parse.encode begin_message
long_parse-refused dst oids h = rw h

failed_requests-dropped_example :
    flush_frontend list_writer
      (Requests.send_all (a_long_parse (zeros 65536) ∷ requests) idle)
      (9 ∷ [])
    ≡ (
      some (write_error (message "too many parameter oids") true),
      record idle { wbuf = [] },
      9 ∷ [],
    )
failed_requests-dropped_example =
    Requests.failed_requests-dropped list_writer (a_long_parse (zeros 65536)) requests idle (9 ∷ [])
      refl (long_parse-refused (1 ∷ []) (zeros 65536) too_many)

abbrev a_long_description : List ℕ → BackendMessage
a_long_description oids = parameter_description (record { parameter_oids = oids })

long_description-refused :
    (dst oids : List ℕ)
    → leb (length oids) max_uint16 ≡ false
    → BackendMessage.encode dst (a_long_description oids) ≡ err (message "too many parameter oids")
unfolding BackendMessage.encode ParameterDescription.encode begin_message
long_description-refused dst oids h = rw h

failed_responses-dropped_example :
    flush_backend list_writer
      (Responses.send_all (a_long_description (zeros 65536) ∷ responses) idle)
      (9 ∷ [])
    ≡ (
      some (write_error (message "too many parameter oids") true),
      record idle { wbuf = [] },
      9 ∷ [],
    )
failed_responses-dropped_example =
    Responses.failed_responses-dropped list_writer (a_long_description (zeros 65536)) responses idle
      (9 ∷ []) refl (long_description-refused (1 ∷ []) (zeros 65536) too_many)

abbrev ssl_wire : List ℕ
ssl_wire = 0 ∷ 0 ∷ 0 ∷ 8 ∷ 4 ∷ 210 ∷ 22 ∷ 47 ∷ []

ssl_request-wire : encode_startup [] ssl_request ≡ ok ssl_wire
unfolding encode_startup SslRequest.encode append_int32 append_uint32 uint32_of
ssl_request-wire = refl

ssl_request-short : length (startup_body ssl_request) ≤ 10000
unfolding startup_body SslRequest.body be32
ssl_request-short = omega arith

receive_startup_message-wire_example :
    (s : List ℕ) × (receive_startup_message list_source (fresh_endpoint (ssl_wire ++ (7 ∷ [])))
      ≡ (ok ssl_request, record (fresh_endpoint (ssl_wire ++ (7 ∷ []))) { reader = s }))
    × (s ≡ 7 ∷ [])
receive_startup_message-wire_example =
    receive_startup_message-wire list_source (fresh_endpoint (ssl_wire ++ (7 ∷ []))) ssl_request
      ssl_wire (7 ∷ []) tt ssl_request-short ssl_request-wire refl

unbuffered_copy-behind_example :
    send_unbuffered_encoded_copy_data list_writer text (Requests.send_all requests idle) []
    ≡ (report 2 none, record idle { wbuf = [] }, (1 ∷ Requests.wire requests) ++ text)
unbuffered_copy-behind_example =
    Requests.unbuffered_copy-behind list_writer 0 requests text idle [] requests-IsSound refl
      (omega arith) refl

-- The frame of the query without its last two bytes.
abbrev half_query : Endpoint (List ℕ)
half_query = fresh_endpoint (b'Q' ∷ 0 ∷ 0 ∷ 0 ∷ 7 ∷ b'o' ∷ [])

half_query-frame :
    half_query.reader ++ (b'k' ∷ 0 ∷ [])
    ≡ FrontendMessage.Wire.type_of a_query ∷ sized (FrontendMessage.Wire.body_of a_query)
unfolding FrontendMessage.Wire.type_of FrontendMessage.Wire.body_of Query.body sized be32 uint32_of
half_query-frame = refl

backend_receive_interrupted_example :
    (e : Error) × (b' : Endpoint (List ℕ)) × (part : List ℕ) × (more : List ℕ) × (Backend.receive
        list_source half_query
      ≡ (err e, b'))
    × (b'.partial_msg ≡ true)
    × (b'.msg_type ≡ FrontendMessage.Wire.type_of a_query)
    × (b'.body_len ≡ length (FrontendMessage.Wire.body_of a_query))
    × (part ++ (b'k' ∷ 0 ∷ []) ≡ FrontendMessage.Wire.body_of a_query)
    × (b'.reader ≡ part ++ more)
backend_receive_interrupted_example =
    Backend.Refusals.backend_receive_interrupted list_source half_query a_query (b'k' ∷ 0 ∷ []) refl
      half_query-frame (omega arith) (omega arith) query-Fits tt text-NoNul
