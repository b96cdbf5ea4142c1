-- ===== src/Net/Tests/Http.antt =====
-- The theorems of net/http at concrete inputs.
use slack.Base.{
  ℕ, ◌^◌, ◌<◌, ◌≡◌, ◌≢◌, List, [], ◌∷◌, ◌++◌, Bool, true, false, not, ◌&&◌, some, none, ◌==◌, arith,
  refl, inr, length, length-take, length-append,
}
use slack.Std.Text.{codes, decimal, length-decimal}
use slack.Std.Scan.{Lacks, crlf, same, search, find_byte}
use slack.Net.Buffer.{
  Buffer, append, ensure_writable_bytes, make_space, has_written, find_crlf, find_crlf_from,
  retrieve, retrieve_until, retrieve_all,
}
use slack.Net.Buffer.Valid.{Holds}
use slack.Net.Tests.{buffer_of, buffer_of-Holds}
use slack.Net.Http.Request.{HttpRequest, method_of, invalid, empty_request, add_header}
use slack.Net.Http.Context.{
  HttpContext, empty_context, got_all, expect_headers, parse_target, parse_request, finished,
  rounds, round, round_in, header_round,
}
use slack.Net.Http.Context.RequestLine.{RequestLine, IsWellFormed}
use slack.Net.Http.Context.RoundTrip.{
  Header, AreWellFormed, render, line_end, parsed_request, parse_request_rendered,
}
use slack.Net.Http.Context.Pieces.{Agree, parse_request_pieces}
use slack.Net.Http.Context.Progress.{parse_request_ends}
use slack.Net.Http.Response.{
  HttpResponse, pieces, AreShort, response_text, ok200, printed, code_number,
}
use slack.Net.Http.Server.{send, shutdown, bad_request, on_message}
use slack.Net.Http.Server.Abort.{spaced, refused, on_message_aborts}
use slack.Net.Http.Server.Answer.{response_to, answer, on_message_answers}

lacks? : ℕ → List ℕ → Bool
lacks? c [] = true
lacks? c (x ∷ xs) = not (x == c) && lacks? c xs

Lacks-lacks? : (c : ℕ) (xs : List ℕ) → lacks? c xs ≡ true → Lacks c xs
unfolding lacks?
Lacks-lacks? c [] e = tt
Lacks-lacks? c (x ∷ xs) e = (ground arith, Lacks-lacks? c xs (ground arith))

known_get : method_of (codes "GET") ≢ invalid
unfolding method_of same
known_get = λ e. ground arith

-- GET /index?a HTTP/1.1, with two headers, and a byte of the next request.
abbrev line : RequestLine
line = record { word = codes "GET"; path = codes "/index"; query = some (codes "a"); digit = b'1' }

line-IsWellFormed : IsWellFormed line
unfolding lacks?
line-IsWellFormed = record {
  known = known_get;
  word_space = Lacks-lacks? b' ' line.word refl;
  word_return = Lacks-lacks? 13 line.word refl;
  path_space = Lacks-lacks? b' ' line.path refl;
  path_question = Lacks-lacks? b'?' line.path refl;
  path_return = Lacks-lacks? 13 line.path refl;
  query_space = Lacks-lacks? b' ' (codes "a") refl;
  query_return = Lacks-lacks? 13 (codes "a") refl;
  version = inr refl;
}

abbrev headers : List Header
headers =
    record { field = codes "Host"; value = codes " here " }
    ∷ record { field = codes "Connection"; value = codes " close" }
    ∷ []

headers-AreWellFormed : AreWellFormed headers
unfolding lacks?
headers-AreWellFormed = (
  Lacks-lacks? b':' (codes "Host") refl,
  Lacks-lacks? 13 (codes "Host") refl,
  Lacks-lacks? 13 (codes " here ") refl,
  (
    Lacks-lacks? b':' (codes "Connection") refl,
    Lacks-lacks? 13 (codes "Connection") refl,
    Lacks-lacks? 13 (codes " close") refl,
    tt,
  ),
)

abbrev message : List ℕ
message = render line headers (codes "G")

message-Holds : Holds (buffer_of message) message
message-Holds = buffer_of-Holds message (omega arith)

parse_request_rendered_example :
    (b' : Buffer) × (parse_request empty_context (buffer_of message) 5
      ≡ some
          (finished true (record { state = got_all; request = parsed_request line headers 5 }) b'))
    × Holds b' (codes "G")
parse_request_rendered_example =
    parse_request_rendered line headers (codes "G") 5 line-IsWellFormed headers-AreWellFormed
      message-Holds

parse_request_ends_example :
    (ok : Bool) × (c' : HttpContext) × (b' : Buffer) × (left : List ℕ) × (taken : List ℕ)
    × (parse_request empty_context (buffer_of message) 5 ≡ some (finished ok c' b'))
    × Holds b' left
    × (message ≡ taken ++ left)
parse_request_ends_example = parse_request_ends empty_context 5 message-Holds refl

-- A callback that answers every request alike.
abbrev callback : HttpRequest → HttpResponse → HttpResponse
callback req r = record {
  headers = [];
  status_code = ok200;
  status_message = codes "OK";
  close_connection = true;
  body = codes "hi";
}

abbrev response : HttpResponse
response = response_to callback (parsed_request line headers 5)

response-AreShort : AreShort (pieces response)
unfolding pieces printed code_number
response-AreShort = (
  omega (arith, length-take 22 (decimal 200 ++ codes " ")),
  (omega arith, (omega arith, (omega arith, (omega arith, (omega arith, tt))))),
)

response-length : length (response_text response) < 2 ^ 62
unfolding code_number
response-length = simp length-append (omega (arith, length-decimal 200 2 (omega arith)))

on_message_answers_example :
    (b' : Buffer) × (on_message callback empty_context (buffer_of message) 5
      ≡ some (some (answer callback (parsed_request line headers 5), empty_context, b')))
    × Holds b' (codes "G")
on_message_answers_example =
    on_message_answers callback line headers (codes "G") 5 line-IsWellFormed headers-AreWellFormed
      response-AreShort response-length message-Holds

abbrev first_piece : List ℕ
first_piece = codes "a:b" ++ (crlf ++ codes "c")

abbrev second_piece : List ℕ
second_piece = codes ":d" ++ (crlf ++ crlf)

abbrev waiting : HttpContext
waiting = record { state = expect_headers; request = empty_request }

abbrev after_first : HttpContext
after_first = record waiting { request = add_header empty_request (codes "a:b") 1 }

abbrev left_over : Buffer
left_over = record (buffer_of first_piece) { reader_index = 13 }

abbrev whole : Buffer
whole = buffer_of (first_piece ++ second_piece)

first_parse :
    parse_request waiting (buffer_of first_piece) 5 ≡ some (finished true after_first left_over)
unfolding parse_request rounds round round_in header_round find_crlf find_crlf_from search find_byte
    retrieve retrieve_until retrieve_all add_header
first_parse = refl

joined_whole : append (buffer_of first_piece) second_piece ≡ some whole
unfolding append ensure_writable_bytes make_space has_written
joined_whole = refl

joined_rest : append left_over second_piece ≡ some (record whole { reader_index = 13 })
unfolding append ensure_writable_bytes make_space has_written
joined_rest = refl

parse_request_pieces_example :
    Agree
      (parse_request waiting whole 5)
      (parse_request after_first (record whole { reader_index = 13 }) 5)
parse_request_pieces_example =
    parse_request_pieces second_piece waiting after_first 5 tt
      (buffer_of-Holds first_piece (omega arith)) (omega arith) (omega arith) first_parse
      (λ e. ground arith) joined_rest joined_whole

-- GET /index without a version, and more of the same.
refused_target :
    (parse_target (record empty_request { method = method_of (codes "GET") }) (codes "/index")).0
    ≡ false
unfolding parse_target find_byte
refused_target = refl

abbrev refused_bytes : List ℕ
refused_bytes = line_end (spaced (codes "GET") (codes "/index")) []

abbrev refused_again : List ℕ
refused_again = line_end (spaced (codes "GET") (codes "/index")) (codes "more")

refused_line_Lacks : Lacks 13 (spaced (codes "GET") (codes "/index"))
unfolding lacks?
refused_line_Lacks = Lacks-lacks? 13 (spaced (codes "GET") (codes "/index")) refl

on_message_aborts_example :
    (b' : Buffer) × (on_message callback empty_context (buffer_of refused_bytes) 5
      ≡ some (some (send bad_request ∷ shutdown ∷ [], refused (codes "GET") (codes "/index"), b')))
    × Holds b' refused_bytes
    × (on_message callback (refused (codes "GET") (codes "/index")) (buffer_of refused_again) 6
        ≡ none)
on_message_aborts_example =
    on_message_aborts callback (codes "GET") (codes "/index") [] (codes "more") 5 6
      line-IsWellFormed.word_space refused_line_Lacks known_get refused_target
      (buffer_of-Holds refused_bytes (omega arith)) (buffer_of-Holds refused_again (omega arith))
