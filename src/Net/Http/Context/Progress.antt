-- ===== src/Net/Http/Context/Progress.antt =====
-- The loop of `HttpContext::parseRequest` ends, and what it leaves in the buffer is what followed the
-- lines it took.
use slack.Base.{
  ℕ, zero, suc, ◌+◌, ◌<◌, ◌≡◌, List, [], ◌++◌, Bool, true, false, Option, some, none, take, drop,
  if◌then◌else◌, ◌==◌, length, arith, refl, ap, ◌∙◌, sym, append_assoc, take-append-drop, subst,
  inl, inr, Bool-cases, Option-cases, length-drop,
}
use slack.Std.Scan.{crlf, search, search_le, search_room}
use slack.Net.Buffer.{Buffer}
use slack.Net.Buffer.Valid.{Holds}
use slack.Net.Http.Request.{HttpRequest, invalid, set_method, is_invalid}
use slack.Net.Http.Context.{
  State, expect_request_line, expect_headers, expect_body, got_all, HttpContext,
  process_request_line, parse_request, finished,
}
use slack.Net.Http.Context.Pure.{
  LineResult, next, bad, done, request_line_result, header_result, line_result, place, at_line,
  step_in, step, stop, Fed, fed, feed, after_step, SameEnd, SameEnd-finished, parse_same,
}

-- A context in which `parseRequest` may be called: not past the end of a request, and with no method
-- set before the request line.
abbrev pub IsReadyIn : State → HttpContext → Type 0
IsReadyIn expect_request_line c = c.request.method ≡ invalid
IsReadyIn expect_headers c = Unit {0}
IsReadyIn expect_body c = ⊥
IsReadyIn got_all c = ⊥

abbrev pub IsReady : HttpContext → Type 0
IsReady c = IsReadyIn c.state c

-- A line leads to a context that waits for a header, or ends the loop.
abbrev pub IsGood : Option LineResult → Type 0
IsGood none = ⊥
IsGood (some (next c)) = c.state ≡ expect_headers
IsGood (some (bad c)) = Unit {0}
IsGood (some (done c)) = c.state ≡ got_all

process_request_line-some :
    (r : HttpRequest) (line : List ℕ)
    → r.method ≡ invalid
    → (a : Bool × HttpRequest) × (process_request_line r line ≡ some a)
unfolding process_request_line set_method is_invalid
process_request_line-some r line h = elim (Option-cases (process_request_line r line)) [
  | inl e ↦ absurd (ground arith)
  | inr e ↦ e
]

request_line_result-IsGood :
    (c : HttpContext) (time : ℕ) (line : List ℕ)
    → c.request.method ≡ invalid
    → IsGood (request_line_result c time line)
unfolding request_line_result
request_line_result-IsGood c time line h =
    let (a, e) = process_request_line-some c.request line h in ground (arith, e)

header_result-IsGood :
    (c : HttpContext) (line : List ℕ) → c.state ≡ expect_headers → IsGood (header_result c line)
unfolding header_result
header_result-IsGood c line h = ground arith

-- What the loop makes of `q`: it ends, with a tail of `q` left, and a refused line ends it with
-- `false` and nothing else does.
pub record Ends (q : List ℕ) (o : Option Fed) : Type 0 where
  pub ok : Bool
  pub context : HttpContext
  pub left : List ℕ
  pub ended : o ≡ some (fed ok context left)
  pub taken : List ℕ
  pub tail : q ≡ taken ++ left

pub line_result-IsGood :
    (s : State) (c : HttpContext) (time : ℕ) (line : List ℕ)
    → c.state ≡ s
    → IsReadyIn s c
    → IsGood (line_result s c time line)
unfolding line_result
line_result-IsGood expect_request_line c time line i r = request_line_result-IsGood c time line r
line_result-IsGood expect_headers c time line i r = header_result-IsGood c line i
line_result-IsGood expect_body c time line i r = absurd r
line_result-IsGood got_all c time line i r = absurd r

pub step_in-line :
    (s : State) (c : HttpContext) (q : List ℕ) (time : ℕ)
    → IsReadyIn s c
    → step_in s c q time ≡ at_line c q (line_result s c time)
unfolding step_in line_result
step_in-line expect_request_line c q time r = refl
step_in-line expect_headers c q time r = refl
step_in-line expect_body c q time r = absurd r
step_in-line got_all c q time r = absurd r

-- One round, seen as what it does with the line in front.
pub step-line :
    (c : HttpContext) (q : List ℕ) (time : ℕ)
    → IsReady c
    → step c q time ≡ (
        if search q crlf == length q
        then some (stop true c q)
        else place q
            (drop (search q crlf + 2) q)
            (line_result c.state c time (take (search q crlf) q)))
unfolding step at_line
step-line c q time r = step_in-line c.state c q time r

pub IsReady-headers : (c : HttpContext) → c.state ≡ expect_headers → IsReady c
IsReady-headers c e = subst (λ s. IsReadyIn s c) (sym e) tt

split_line : (q : List ℕ) (n : ℕ) → q ≡ take n q ++ drop n q
split_line q n = sym (take-append-drop n q)

-- The rest of the loop, given what the line has led to.
feed_line :
    (fuel : ℕ) (q : List ℕ) (n time : ℕ) (o : Option LineResult)
    → IsGood o
    → ((c : HttpContext) → IsReady c → Ends (drop n q) (feed fuel c (drop n q) time))
    → Ends q (after_step (place q (drop n q) o) (λ c' q'. feed fuel c' q' time))
unfolding place
feed_line fuel q n time none g ih = absurd g
feed_line fuel q n time (some (next c)) g ih =
    let e = ih c (IsReady-headers c g) in
    record {
      ok = e.ok;
      context = e.context;
      left = e.left;
      ended = e.ended;
      taken = take n q ++ e.taken;
      tail =
          split_line q n
          ∙ ap (λ l. take n q ++ l) e.tail
          ∙ sym (append_assoc (take n q) e.taken e.left);
    }
feed_line fuel q n time (some (bad c)) g ih = record {
  ok = false;
  context = c;
  left = q;
  ended = refl;
  taken = [];
  tail = refl;
}
feed_line fuel q n time (some (done c)) g ih = record {
  ok = true;
  context = c;
  left = drop n q;
  ended = refl;
  taken = take n q;
  tail = split_line q n;
}

-- Fuel above the number of bytes is enough.
pub feed-Ends :
    (fuel : ℕ) (c : HttpContext) (q : List ℕ) (time : ℕ)
    → IsReady c
    → length q < fuel
    → Ends q (feed fuel c q time)
unfolding feed
feed-Ends zero c q time r h = absurd (omega arith)
feed-Ends (suc fuel) c q time r h =
    let e = step-line c q time r in
    let o = line_result c.state c time (take (search q crlf) q) in
    let g = line_result-IsGood c.state c time (take (search q crlf) q) refl r in
    elim (Bool-cases (search q crlf == length q)) [
      | inl end ↦ record {
        ok = true;
        context = c;
        left = q;
        ended = rw (e, end);
        taken = [];
        tail = refl;
      }
      | inr line ↦
          rw (e, line)
            (feed_line fuel q (search q crlf + 2) time o g λ c' r'.
              feed-Ends fuel c' (drop (search q crlf + 2) q) time r' (
                omega (
                  arith,
                  length-drop (search q crlf + 2) q,
                  search_room q crlf (ground (arith, search_le q crlf)),
                )))
    ]

-- In a context in which it may be called, `parseRequest` returns for every input: no assertion fails
-- and the loop ends within the rounds that `parse_request` allows. The bytes that it leaves in the
-- buffer are a tail of those it found.
pub parse_request_ends :
    {b : Buffer} {q : List ℕ} (c : HttpContext) (time : ℕ)
    → Holds b q
    → IsReady c
    → (ok : Bool) × (c' : HttpContext) × (b' : Buffer) × (left : List ℕ) × (taken : List ℕ)
      × (parse_request c b time ≡ some (finished ok c' b'))
      × Holds b' left
      × (q ≡ taken ++ left)
parse_request_ends {b} {q} c time h r =
    let e = feed-Ends (suc (length q)) c q time r (omega arith) in
    let (b', f, h') =
      SameEnd-finished (parse_request c b time) e.ok e.context e.left
        (subst (SameEnd (parse_request c b time)) e.ended (parse_same c time h)) in
    (e.ok, e.context, b', e.left, e.taken, f, h', e.tail)
