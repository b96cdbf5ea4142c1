-- ===== src/Net/Http/Context.antt =====
-- net/http/HttpContext.h and HttpContext.cc: the request parser.
pub mod Pure
pub mod Progress
pub mod Pieces
pub mod RequestLine
pub mod RoundTrip
use slack.Base.{
  ℕ, zero, suc, ◌+◌, ◌-◌, ◌≡◌, List, [], ◌∷◌, Bool, true, false, Option, some, none, ◌>>=◌, ◌>>◌,
  assert, take, drop, if◌then◌else◌, not, ◌==◌, ◌&&◌, length,
}
use slack.Std.Scan.{same, find_byte}
use slack.Std.Text.{codes}
use slack.Net.Buffer.{Buffer, find_crlf, peek, slice, retrieve_until, readable_bytes}
use slack.Net.Http.Request.{HttpRequest, http10, http11, set_method, add_header, empty_request}

pub data State : Type 0 where
  expect_request_line expect_headers expect_body got_all : State

pub record HttpContext : Type 0 where
  pub state : State
  pub request : HttpRequest

abbrev pub empty_context : HttpContext
empty_context = record { state = expect_request_line; request = empty_request }

unfoldable pub got_all? : HttpContext → Bool
got_all? c = elim c.state [ got_all ↦ true | _ ↦ false ]

unfoldable pub reset : HttpContext → HttpContext
reset c = empty_context

-- `*(end-1)` decides between the two versions.
unfoldable pub set_version : HttpRequest → ℕ → Bool × HttpRequest
set_version r c =
    if c == b'1'
    then (true, record r { version = http11 })
    else if c == b'0'
    then (true, record r { version = http10 })
    else (false, r)

-- The version's eight bytes: seven that are fixed, and a digit.
unfoldable pub parse_version : HttpRequest → List ℕ → Bool × HttpRequest
unfolding set_version
parse_version r rest =
    if length rest == 8 && same (take 7 rest) (codes "HTTP/1.")
    then elim (drop 7 rest) [ [] ↦ (false, r) | c ∷ _ ↦ set_version r c ]
    else (false, r)

-- The path, with the query behind a question mark, which the query keeps.
unfoldable pub set_target : HttpRequest → List ℕ → HttpRequest
set_target r target =
    let question = find_byte target b'?' in
    if question == length target
    then record r { path = target }
    else record r { path = take question target; query = drop question target }

-- What stands behind the method and its space.
unfoldable pub parse_target : HttpRequest → List ℕ → Bool × HttpRequest
parse_target r rest =
    let space = find_byte rest b' ' in
    if space == length rest
    then (false, r)
    else parse_version (set_target r (take space rest)) (drop (space + 1) rest)

unfoldable pub process_request_line : HttpRequest → List ℕ → Option (Bool × HttpRequest)
process_request_line r line =
    let space = find_byte line b' ' in
    if space == length line then some (false, r) else do
      (valid, r') ← set_method r (take space line)
      some (if valid then parse_target r' (drop (space + 1) line) else (false, r'))

-- One round of `while (hasMore)`: on to the next, or out of the loop with `ok`.
pub data Round : Type 0 where
  again : HttpContext → Buffer → Round
  leave : Bool → HttpContext → Buffer → Round

-- The line from the read position up to the line end at `crlf`.
abbrev pub line_to : Buffer → ℕ → List ℕ
line_to buf crlf = slice buf.buffer (peek buf) crlf

unfoldable pub request_line_round : HttpContext → Buffer → ℕ → ℕ → Option Round
request_line_round c buf time crlf = do
  (ok, r) ← process_request_line c.request (line_to buf crlf)
  let next : HttpContext = record {
    state = expect_headers;
    request = record r { receive_time = time };
  }
  if ok
      then (do buf' ← retrieve_until buf (crlf + 2); some (again next buf'))
      else some (leave false (record c { request = r }) buf)

unfoldable pub header_round : HttpContext → Buffer → ℕ → Option Round
header_round c buf crlf = do
  let line = line_to buf crlf
  let colon = find_byte line b':'
  buf' ← retrieve_until buf (crlf + 2)
  some (
      if colon == length line
      then leave true (record c { state = got_all }) buf'
      else again (record c { request = add_header c.request line colon }) buf')

-- `if (crlf) … else hasMore = false`
abbrev pub with_line : Option ℕ → HttpContext → Buffer → (ℕ → Option Round) → Option Round
with_line none c buf found = some (leave true c buf)
with_line (some crlf) c buf found = found crlf

unfoldable pub round_in : State → HttpContext → Buffer → ℕ → Option Round
unfolding request_line_round header_round
round_in expect_request_line c buf time =
    with_line (find_crlf buf) c buf (request_line_round c buf time)
round_in expect_headers c buf time = with_line (find_crlf buf) c buf (header_round c buf)
round_in expect_body c buf time = some (again c buf)
round_in got_all c buf time = some (again c buf)

unfoldable pub round : HttpContext → Buffer → ℕ → Option Round
unfolding round_in
round c buf time = round_in c.state c buf time

-- `running` is a loop that has not ended after the given number of rounds.
pub data Parsed : Type 0 where
  running : Parsed
  finished : Bool → HttpContext → Buffer → Parsed

abbrev pub after_round : Option Round → (HttpContext → Buffer → Option Parsed) → Option Parsed
after_round none loop = none
after_round (some (again c buf)) loop = loop c buf
after_round (some (leave ok c buf)) loop = some (finished ok c buf)

unfoldable pub rounds : ℕ → HttpContext → Buffer → ℕ → Option Parsed
rounds zero c buf time = some running
rounds (suc fuel) c buf time = after_round (round c buf time) (λ c' buf'. rounds fuel c' buf' time)

-- Each round takes at least a line end off the buffer, so the readable bytes bound their number.
unfoldable pub parse_request : HttpContext → Buffer → ℕ → Option Parsed
unfolding rounds
parse_request c buf time = rounds (suc (readable_bytes buf)) c buf time
