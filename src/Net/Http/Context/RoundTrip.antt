-- ===== src/Net/Http/Context/RoundTrip.antt =====
-- What net/http/HttpContext.cc makes of a well-formed request: the request line, then header lines, then
-- an empty line.
use slack.Base.{
  ℕ, zero, suc, ◌+◌, ◌<◌, ◌≡◌, List, [], ◌∷◌, ◌++◌, true, some, length, arith, refl, ◌∙◌, subst,
  length-append, take-append_length, drop-append_add,
}
use slack.Std.Scan.{crlf, find_byte, find_byte-append, Lacks, Lacks-append}
use slack.Std.Text.{skip_spaces, trim_end}
use slack.Std.StringMap.{insert}
use slack.Net.Buffer.{Buffer}
use slack.Net.Buffer.Valid.{Holds}
use slack.Net.Http.Request.{HttpRequest, add_header, empty_request}
use slack.Net.Http.Context.{
  HttpContext, expect_headers, got_all, empty_context, parse_request, finished,
}
use slack.Net.Http.Context.Pure.{
  next, request_line_result, header_result, line_result, place, step, fed, feed, SameEnd,
  SameEnd-finished, parse_same, step_of_state, at_line_end,
}
use slack.Net.Http.Context.Progress.{step_in-line, IsReady}
use slack.Net.Http.Context.RequestLine.{
  RequestLine, IsWellFormed, render_line, with_line, process_request_line_lem, render_line-Lacks,
}

pub record Header : Type 0 where
  pub field : List ℕ
  pub value : List ℕ

abbrev pub render_header : Header → List ℕ
render_header h = h.field ++ b':' ∷ h.value

-- A line, its end, and what follows.
abbrev pub line_end : List ℕ → List ℕ → List ℕ
line_end line rest = line ++ crlf ++ rest

abbrev pub render_headers : List Header → List ℕ → List ℕ
render_headers [] rest = line_end [] rest
render_headers (h ∷ hs) rest = line_end (render_header h) (render_headers hs rest)

abbrev pub render : RequestLine → List Header → List ℕ → List ℕ
render l hs rest = line_end (render_line l) (render_headers hs rest)

-- No colon in a field name, and no carriage return.
abbrev pub AreWellFormed : List Header → Type 0
AreWellFormed [] = Unit {0}
AreWellFormed (h ∷ hs) = Lacks b':' h.field × Lacks 13 h.field × Lacks 13 h.value × AreWellFormed hs

-- Later fields of one name replace earlier ones; a value loses the spaces round it.
abbrev pub with_headers : HttpRequest → List Header → HttpRequest
with_headers r [] = r
with_headers r (h ∷ hs) =
    with_headers (record r { headers = insert h.field (trim_end (skip_spaces h.value)) r.headers })
      hs

-- The request that a request line and header lines stand for.
abbrev pub parsed_request : RequestLine → List Header → ℕ → HttpRequest
parsed_request l hs time =
    with_headers (record (with_line empty_request l) { receive_time = time }) hs

pub step-line_end :
    (c : HttpContext) (line rest : List ℕ) (time : ℕ)
    → IsReady c
    → Lacks 13 line
    → step c (line_end line rest) time
      ≡ place (line_end line rest) rest (line_result c.state c time line)
step-line_end c line rest time r w =
    step_of_state c.state c (line_end line rest) time refl
    ∙ step_in-line c.state c (line_end line rest) time r
    ∙ at_line_end c line rest (line_result c.state c time) w

header_line_result :
    (c : HttpContext) (h : Header)
    → Lacks b':' h.field
    → header_result c (render_header h)
      ≡ some (
          next (record c {
            request = record (c.request) {
              headers = insert h.field (trim_end (skip_spaces h.value)) c.request.headers;
            };
          }))
unfolding header_result add_header
header_line_result c h w =
    let n = length h.field in
    rw
      (
        find_byte-append h.field h.value b':' w,
        take-append_length n h.field (b':' ∷ h.value) refl,
        drop-append_add (n + 1) 1 h.field (b':' ∷ h.value) refl,
      )
      (ground (arith, length-append h.field (b':' ∷ h.value)))

feed_headers :
    (fuel : ℕ) (r : HttpRequest) (hs : List Header) (rest : List ℕ) (time : ℕ)
    → AreWellFormed hs
    → length hs < fuel
    → feed fuel (record { state = expect_headers; request = r }) (render_headers hs rest) time
      ≡ some (fed true (record { state = got_all; request = with_headers r hs }) rest)
unfolding feed place line_result header_result find_byte
feed_headers zero r hs rest time w f = absurd (omega arith)
feed_headers (suc fuel) r [] rest time w f =
    rw (step-line_end (record { state = expect_headers; request = r }) [] rest time tt tt) refl
feed_headers (suc fuel) r (h ∷ hs) rest time w f =
    rw
      (
        step-line_end (record { state = expect_headers; request = r }) (render_header h)
            (render_headers hs rest) time tt
            (Lacks-append 13 h.field (b':' ∷ h.value) w.1 (omega arith, w.2)),
        header_line_result (record { state = expect_headers; request = r }) h w.0,
      )
      (feed_headers fuel _ hs rest time w.3 (omega arith))

length-render_headers :
    (hs : List Header) (rest : List ℕ) → length hs < length (render_headers hs rest)
length-render_headers [] rest = omega arith
length-render_headers (h ∷ hs) rest = omega (
  arith,
  length-render_headers hs rest,
  length-append (render_header h ++ crlf) (render_headers hs rest),
  length-append (render_header h) crlf,
)

feed_request :
    (l : RequestLine) (hs : List Header) (rest : List ℕ) (time : ℕ)
    → IsWellFormed l
    → AreWellFormed hs
    → feed (suc (length (render l hs rest))) empty_context (render l hs rest) time
      ≡ some (
          fed true
            (record {
              state = got_all;
              request =
                  with_headers (record (with_line empty_request l) { receive_time = time }) hs;
            })
            rest)
unfolding feed place line_result request_line_result
feed_request l hs rest time w v =
    let tail = render_headers hs rest in
    rw
      (
        step-line_end empty_context (render_line l) tail time refl (render_line-Lacks l w),
        process_request_line_lem empty_request l refl w,
      )
      (feed_headers (length (render l hs rest)) _ hs rest time v
        (omega (arith, length-render_headers hs rest, length-append (render_line l ++ crlf) tail)))

-- `parseRequest` in a new context, on a well-formed request with anything behind it, returns `true`
-- in the state `kGotAll`. The request has the method, path, query (with its question mark) and version
-- of the request line, the receive time of the call, and for each header line the value without the
-- spaces round it, the last one of a name; what stood behind the request is left in the buffer.
pub parse_request_rendered :
    {b : Buffer} (l : RequestLine) (hs : List Header) (rest : List ℕ) (time : ℕ)
    → IsWellFormed l
    → AreWellFormed hs
    → Holds b (render l hs rest)
    → (b' : Buffer) × (parse_request empty_context b time
        ≡ some (finished true (record { state = got_all; request = parsed_request l hs time }) b'))
      × Holds b' rest
parse_request_rendered {b} l hs rest time w v h =
    SameEnd-finished (parse_request empty_context b time) true _ rest (
      subst (SameEnd (parse_request empty_context b time)) (feed_request l hs rest time w v)
        (parse_same empty_context time h))
