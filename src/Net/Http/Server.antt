-- ===== src/Net/Http/Server.antt =====
-- net/http/HttpServer.cc. What a connection is told to do is a list of actions, and the user's
-- `httpCallback_` is a parameter.
pub mod Abort
pub mod Answer
use slack.Base.{
  ℕ, ◌+◌, List, [], ◌∷◌, ◌++◌, Bool, true, false, ◌&&◌, ◌||◌, not, Option, some, none, ◌>>=◌, ◌>>◌,
  if◌then◌else◌,
}
use slack.Std.Scan.{same, crlf}
use slack.Std.Text.{codes}
use slack.Net.Buffer.{Buffer, initial_size, slice, peek, begin_write}
use slack.Net.Buffer
use slack.Net.Http.Request.{HttpRequest, Version, get_header}
use slack.Net.Http.Context.{HttpContext, got_all?, reset, parse_request, Parsed, running, finished}
use slack.Net.Http.Response.{HttpResponse, not_found404, append_to_buffer}
use slack.Net.Http.Response

-- `conn->send` and `conn->shutdown`.
pub data Action : Type 0 where
  send : List ℕ → Action
  shutdown : Action

-- `detail::defaultHttpCallback`.
unfoldable pub default_http_callback : HttpRequest → HttpResponse → HttpResponse
default_http_callback request response = record response {
  status_code = not_found404;
  status_message = codes "Not Found";
  close_connection = true;
}

unfoldable pub is_http10 : Version → Bool
is_http10 Version.http10 = true
is_http10 v = false

-- Whether a request asks for the connection to be closed.
unfoldable pub wants_close : HttpRequest → Bool
unfolding is_http10
wants_close r =
    let connection = get_header r (codes "Connection") in
    same connection (codes "close")
    || (is_http10 r.version && not (same connection (codes "Keep-Alive")))

abbrev pub bad_request : List ℕ
bad_request = codes "HTTP/1.1 400 Bad Request" ++ (crlf ++ crlf)

module _ (http_callback : HttpRequest → HttpResponse → HttpResponse) where
  unfoldable pub on_request : HttpRequest → Option (List Action)
  on_request req = do
    let response = http_callback req (Response.make (wants_close req))
    buf ← Buffer.make initial_size
    filled ← append_to_buffer response buf
    let text = slice filled.buffer (peek filled) (begin_write filled)
    some (send text ∷ (if response.close_connection then shutdown ∷ [] else []))

  -- `onMessage`, once the parser has returned; `none` is a failed assertion.
  unfoldable pub after_parse : Option Parsed → Option (Option (List Action × HttpContext × Buffer))
  after_parse none = none
  after_parse (some running) = some none
  after_parse (some (finished ok c buf)) = do
    let refusal = if ok then [] else send bad_request ∷ shutdown ∷ []
    answer ← if got_all? c then on_request c.request else some []
    some (some (refusal ++ answer, (if got_all? c then reset c else c), buf))

  -- The outer `none` is a failed assertion, the inner one a loop that has not ended.
  unfoldable pub on_message :
      HttpContext → Buffer → ℕ → Option (Option (List Action × HttpContext × Buffer))
  unfolding after_parse
  on_message c buf time = after_parse (parse_request c buf time)
