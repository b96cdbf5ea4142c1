-- ===== src/Net/Http/Server/Answer.antt =====
-- What net/http/HttpServer.cc does about a well-formed request.
use slack.Base.{ℕ, ◌^◌, ◌<◌, ◌≡◌, List, [], ◌∷◌, some, length, arith, Returns-some, if◌then◌else◌}
use slack.Net.Buffer.{Buffer, initial_size, slice, peek, begin_write}
use slack.Net.Buffer
use slack.Net.Buffer.Valid.{Holds}
use slack.Net.Buffer.Refine.{make_lem}
use slack.Net.Http.Request.{HttpRequest}
use slack.Net.Http.Context.{empty_context, got_all?, reset}
use slack.Net.Http.Context.RequestLine.{RequestLine, IsWellFormed}
use slack.Net.Http.Context.RoundTrip.{
  Header, AreWellFormed, render, parsed_request, parse_request_rendered,
}
use slack.Net.Http.Response.{
  HttpResponse, append_to_buffer, pieces, AreShort, response_text, append_to_buffer_lem,
}
use slack.Net.Http.Response
use slack.Net.Http.Server.{Action, send, shutdown, wants_close, on_request, on_message}

module _ (http_callback : HttpRequest → HttpResponse → HttpResponse) where
  -- The response that the callback makes of a request.
  abbrev pub response_to : HttpRequest → HttpResponse
  response_to req = http_callback req (Response.make (wants_close req))

  abbrev pub answer : HttpRequest → List Action
  answer req =
      send (response_text (response_to req))
      ∷ (if (response_to req).close_connection then shutdown ∷ [] else [])

  on_request_lem :
      (req : HttpRequest)
      → AreShort (pieces (response_to req))
      → length (response_text (response_to req)) < 2 ^ 62
      → on_request http_callback req ≡ some (answer req)
  unfolding on_request
  on_request_lem req s k =
      let (buf, e, m) =
        Returns-some (Buffer.make initial_size) _ (make_lem initial_size (omega arith)) in
      let (filled, f, h) =
        Returns-some (append_to_buffer (response_to req) buf) _
          (append_to_buffer_lem (response_to req) m.0 s (omega (arith, m.3))) in
      rw (e, f, h.bytes_eq)

  -- A connection in a new context that gets a well-formed request, with anything behind it, answers
  -- with the callback's response to the parsed request, shuts down exactly where the response closes
  -- the connection, and is left with a new context and with the bytes behind the request. No piece of
  -- the response is longer than an `int` counts, and the response is below 2^62 bytes.
  pub on_message_answers :
      {b : Buffer} (l : RequestLine) (hs : List Header) (rest : List ℕ) (time : ℕ)
      → IsWellFormed l
      → AreWellFormed hs
      → AreShort (pieces (response_to (parsed_request l hs time)))
      → length (response_text (response_to (parsed_request l hs time))) < 2 ^ 62
      → Holds b (render l hs rest)
      → (b' : Buffer) × (on_message http_callback empty_context b time
          ≡ some (some (answer (parsed_request l hs time), empty_context, b')))
        × Holds b' rest
  unfolding on_message got_all? reset
  on_message_answers {b} l hs rest time w v s k h =
      let (b', e, h') = parse_request_rendered l hs rest time w v h in
      (b', rw (e, on_request_lem _ s k), h')
