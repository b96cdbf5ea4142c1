-- ===== src/Net/Http/Server/Abort.antt =====
-- What net/http/HttpServer.cc does about a request line that it refuses.
use slack.Base.{
  ℕ, suc, ◌+◌, ◌≡◌, ◌≢◌, List, [], ◌∷◌, ◌++◌, false, some, none, length, arith, refl, ◌∙◌, sym,
  subst, length-append, take-append_length, drop-append_add,
}
use slack.Std.Scan.{Lacks, find_byte-append}
use slack.Net.Buffer.{Buffer}
use slack.Net.Buffer.Valid.{Holds}
use slack.Net.Http.Request.{
  HttpRequest, Method, invalid, method_of, is_invalid, set_method, empty_request,
}
use slack.Net.Http.Context.{
  HttpContext, expect_request_line, empty_context, process_request_line, parse_target,
  parse_version, set_version, set_target, parse_request, got_all?,
}
use slack.Net.Http.Context.Pure.{
  request_line_result, line_result, place, step_in, step, fed, feed, SameEnd, SameEnd-finished,
  parse_same, SameEnd-none, at_line_end, step_of_state,
}
use slack.Net.Http.Context.RoundTrip.{line_end, step-line_end}
use slack.Net.Http.Response.{HttpResponse}
use slack.Net.Http.Server.{send, shutdown, bad_request, on_message}

-- A first line with a space in it, and its end.
abbrev pub spaced : List ℕ → List ℕ → List ℕ
spaced word more = word ++ b' ' ∷ more

is_invalid-ne : (m : Method) → m ≢ invalid → is_invalid m ≡ false
unfolding is_invalid
is_invalid-ne m h = ground arith

method-parse_target : (r : HttpRequest) (rest : List ℕ) → (parse_target r rest).1.method ≡ r.method
unfolding parse_target parse_version set_version set_target
method-parse_target r rest = ground arith

module _ (r : HttpRequest) (word more : List ℕ) (apart : Lacks b' ' word) where
  -- The line is cut at its first space.
  process_spaced_set : r.method ≢ invalid → process_request_line r (spaced word more) ≡ none
  unfolding process_request_line set_method
  process_spaced_set h = ground (
    arith,
    is_invalid-ne r.method h,
    find_byte-append word more b' ' apart,
    length-append word (b' ' ∷ more),
  )

  process_spaced :
      r.method ≡ invalid
      → method_of word ≢ invalid
      → process_request_line r (spaced word more)
        ≡ some (parse_target (record r { method = method_of word }) more)
  unfolding process_request_line set_method is_invalid
  process_spaced i h =
      let n = length word in
      rw
        (
          find_byte-append word more b' ' apart,
          take-append_length n word (b' ' ∷ more) refl,
          drop-append_add (n + 1) 1 word (b' ' ∷ more) refl,
        )
        (ground (arith, length-append word (b' ' ∷ more)))

-- A context whose method is set and that waits for a request line hits the assertion of `setMethod`.
parse_request_aborts :
    {b : Buffer} (c : HttpContext) (word more rest : List ℕ) (time : ℕ)
    → c.state ≡ expect_request_line
    → c.request.method ≢ invalid
    → Lacks b' ' word
    → Lacks 13 (spaced word more)
    → Holds b (line_end (spaced word more) rest)
    → parse_request c b time ≡ none
unfolding feed place request_line_result step_in
parse_request_aborts {b} c word more rest time e m apart line h =
    let q = line_end (spaced word more) rest in
    let s : step c q time ≡ none =
      step_of_state expect_request_line c q time e
      ∙ rw (
        at_line_end c (spaced word more) rest (request_line_result c time) line,
        process_spaced_set c.request word more apart m,
      ) in
    SameEnd-none (parse_request c b time)
      (subst (SameEnd (parse_request c b time)) (rw s) (parse_same c time h))

-- The request as the refused line leaves it.
abbrev pub refused : List ℕ → List ℕ → HttpContext
refused word more = record {
  state = expect_request_line;
  request = (parse_target (record empty_request { method = method_of word }) more).1;
}

feed-refused :
    (word more rest : List ℕ) (time : ℕ)
    → Lacks b' ' word
    → Lacks 13 (spaced word more)
    → method_of word ≢ invalid
    → (parse_target (record empty_request { method = method_of word }) more).0 ≡ false
    → let q = line_end (spaced word more) rest in
      feed (suc (length q)) empty_context q time ≡ some (fed false (refused word more) q)
unfolding feed place request_line_result line_result
feed-refused word more rest time apart line known wrong = rw (
  step-line_end empty_context (spaced word more) rest time refl line,
  process_spaced empty_request word more apart refl known,
  wrong,
)

module _ (http_callback : HttpRequest → HttpResponse → HttpResponse) where
  -- A request line with a known method that is refused behind it is answered with 400 and a shutdown,
  -- but its bytes stay in the buffer and its method in the context. So the next message on the
  -- connection, whatever bytes it adds to those left, makes `setMethod` hit its assertion, and the
  -- server aborts.
  pub on_message_aborts :
      {b b'' : Buffer} (word more rest later : List ℕ) (time time' : ℕ)
      → Lacks b' ' word
      → Lacks 13 (spaced word more)
      → method_of word ≢ invalid
      → (parse_target (record empty_request { method = method_of word }) more).0 ≡ false
      → Holds b (line_end (spaced word more) rest)
      → Holds b'' (line_end (spaced word more) (rest ++ later))
      → (b' : Buffer) × (on_message http_callback empty_context b time
          ≡ some (some (send bad_request ∷ shutdown ∷ [], refused word more, b')))
        × Holds b' (line_end (spaced word more) rest)
        × (on_message http_callback (refused word more) b'' time' ≡ none)
  unfolding on_message got_all?
  on_message_aborts {b} {b''} word more rest later time time' apart line known wrong h h'' =
      let q = line_end (spaced word more) rest in
      let (b', e, h') =
        SameEnd-finished (parse_request empty_context b time) false (refused word more) q (
          subst (SameEnd (parse_request empty_context b time))
            (feed-refused word more rest time apart line known wrong)
            (parse_same empty_context time h)) in
      (
        b',
        rw e,
        h',
        rw (
            parse_request_aborts (refused word more) word more (rest ++ later) time' refl
              (λ m. known (sym (method-parse_target _ more) ∙ m)) apart line h''),
      )
