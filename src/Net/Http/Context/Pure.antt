-- ===== src/Net/Http/Context/Pure.antt =====
-- The parser of net/http/HttpContext.cc over plain byte strings, and that the parser over a buffer
-- behaves as it does.
use slack.Base.{
  append_assoc, take-append_length, drop-append_length, length-append, ℕ, zero, suc, ◌+◌, ◌-◌, ◌≤◌,
  ◌≡◌, ◌≢◌, List, ◌++◌, Bool, true, false, Option, some, none, ◌>>=◌, take, drop, if◌then◌else◌,
  ◌==◌, length, Returns-some, subst, arith, refl, ap, ◌∙◌, sym, inl, inr, Bool-cases,
}
use slack.Std.Scan.{crlf, search, find_byte, search_le, search_room, search_line, Lacks}
use slack.Net.Buffer.{Buffer, find_crlf, retrieve_until}
use slack.Net.Buffer.Valid.{Holds, writer-Holds, readable-Holds}
use slack.Net.Buffer.Retrieve.{retrieve_until_lem, prefix-contents}
use slack.Net.Http.Request.{add_header}
use slack.Net.Http.Context.{
  State, expect_request_line, expect_headers, expect_body, got_all, HttpContext,
  process_request_line, Round, again, leave, line_to, request_line_round, header_round, round_in,
  round, Parsed, running, finished, rounds, after_round, parse_request,
}

pub data Step : Type 0 where
  more : HttpContext → List ℕ → Step
  stop : Bool → HttpContext → List ℕ → Step

-- What one line, without its end, does to a context.
pub data LineResult : Type 0 where
  next bad done : HttpContext → LineResult

unfoldable pub request_line_result : HttpContext → ℕ → List ℕ → Option LineResult
request_line_result c time line = do
  (ok, r) ← process_request_line c.request line
  some (
      if ok
      then next (record { state = expect_headers; request = record r { receive_time = time } })
      else bad (record c { request = r }))

unfoldable pub header_result : HttpContext → List ℕ → Option LineResult
header_result c line =
    let colon = find_byte line b':' in
    some (
      if colon == length line
      then done (record c { state = got_all })
      else next (record c { request = add_header c.request line colon }))

-- What a context makes of a line, in the two states that read lines.
unfoldable pub line_result : State → HttpContext → ℕ → List ℕ → Option LineResult
line_result expect_request_line c time line = request_line_result c time line
line_result expect_headers c time line = header_result c line
line_result expect_body c time line = none
line_result got_all c time line = none

-- A line that is refused stays in front of what follows it.
unfoldable pub place : List ℕ → List ℕ → Option LineResult → Option Step
place whole rest none = none
place whole rest (some (next c)) = some (more c rest)
place whole rest (some (bad c)) = some (stop false c whole)
place whole rest (some (done c)) = some (stop true c rest)

unfoldable pub at_line : HttpContext → List ℕ → (List ℕ → Option LineResult) → Option Step
unfolding place
at_line c q result =
    let n = search q crlf in
    if n == length q then some (stop true c q) else place q (drop (n + 2) q) (result (take n q))

unfoldable pub step_in : State → HttpContext → List ℕ → ℕ → Option Step
unfolding at_line
step_in expect_request_line c q time = at_line c q (request_line_result c time)
step_in expect_headers c q time = at_line c q (header_result c)
step_in expect_body c q time = some (more c q)
step_in got_all c q time = some (more c q)

unfoldable pub step : HttpContext → List ℕ → ℕ → Option Step
unfolding step_in
step c q time = step_in c.state c q time

pub step_of_state :
    (s : State) (c : HttpContext) (q : List ℕ) (time : ℕ)
    → c.state ≡ s
    → step c q time ≡ step_in s c q time
unfolding step
step_of_state s c q time e = ap (λ t. step_in t c q time) e

pub data Fed : Type 0 where
  hungry : Fed
  fed : Bool → HttpContext → List ℕ → Fed

abbrev pub after_step : Option Step → (HttpContext → List ℕ → Option Fed) → Option Fed
after_step none loop = none
after_step (some (more c q)) loop = loop c q
after_step (some (stop ok c q)) loop = some (fed ok c q)

unfoldable pub feed : ℕ → HttpContext → List ℕ → ℕ → Option Fed
feed zero c q time = some hungry
feed (suc fuel) c q time = after_step (step c q time) (λ c' q'. feed fuel c' q' time)

-- The same context, and a buffer that holds the bytes.
abbrev pub SameRound : Option Round → Option Step → Type 0
SameRound none none = Unit {0}
SameRound (some (again c b)) (some (more c' q)) = (c ≡ c') × Holds b q
SameRound (some (leave ok c b)) (some (stop ok' c' q)) = (ok ≡ ok') × (c ≡ c') × Holds b q
SameRound _ _ = ⊥

abbrev pub SameEnd : Option Parsed → Option Fed → Type 0
SameEnd none none = Unit {0}
SameEnd (some running) (some hungry) = Unit {0}
SameEnd (some (finished ok c b)) (some (fed ok' c' q)) = (ok ≡ ok') × (c ≡ c') × Holds b q
SameEnd _ _ = ⊥

module _ {b : Buffer} {q : List ℕ} (h : Holds b q) where
  find_crlf-none : search q crlf ≡ length q → find_crlf b ≡ none
  unfolding find_crlf
  find_crlf-none e = ground (arith, ap (λ l. search l crlf) h.bytes_eq, writer-Holds h, h.valid)

  find_crlf-some : search q crlf ≢ length q → find_crlf b ≡ some (b.reader_index + search q crlf)
  unfolding find_crlf
  find_crlf-some e =
      ground (arith, ap (λ l. search l crlf) h.bytes_eq, writer-Holds h, search_le q crlf, h.valid)

  module _ (n : ℕ) (room : n + 2 ≤ length q) where
    line_to_lem : line_to b (b.reader_index + n) ≡ take n q
    line_to_lem = prefix-contents h n (omega arith)

    retrieve_line :
        (b' : Buffer) × (retrieve_until b (b.reader_index + n + 2) ≡ some b')
        × Holds b' (drop (n + 2) q)
    retrieve_line =
        let e : b.reader_index + n + 2 - b.reader_index ≡ n + 2 = omega arith in
        let (b', r, p) = Returns-some (retrieve_until b (b.reader_index + n + 2)) _ (
          retrieve_until_lem h (b.reader_index + n + 2) (omega arith)
            (omega (arith, writer-Holds h))) in
        (b', r, subst (λ k. Holds b' (drop k q)) e p.0)

  request_line_same :
      (c : HttpContext) (time n : ℕ)
      → n + 2 ≤ length q
      → SameRound
          (request_line_round c b time (b.reader_index + n))
          (place q (drop (n + 2) q) (request_line_result c time (take n q)))
  unfolding request_line_round request_line_result place
  request_line_same c time n room =
      let (b', e, p) = retrieve_line n room in ground (arith, line_to_lem n room, e, p, h)

  header_same :
      (c : HttpContext) (n : ℕ)
      → n + 2 ≤ length q
      → SameRound
          (header_round c b (b.reader_index + n))
          (place q (drop (n + 2) q) (header_result c (take n q)))
  unfolding header_round header_result place
  header_same c n room =
      let (b', e, p) = retrieve_line n room in ground (arith, line_to_lem n room, e, p)

  round_same :
      (s : State) (c : HttpContext) (time : ℕ)
      → SameRound (round_in s c b time) (step_in s c q time)
  unfolding round_in step_in
  round_same expect_request_line c time = elim (Bool-cases (search q crlf == length q)) [
    | inl end ↦ rw (find_crlf-none (ground arith), end) (refl, refl, h)
    | inr line ↦
        rw (find_crlf-some (ground arith), line)
          (request_line_same c time (search q crlf)
            (search_room q crlf (ground (arith, search_le q crlf))))
  ]
  round_same expect_headers c time = elim (Bool-cases (search q crlf == length q)) [
    | inl end ↦ rw (find_crlf-none (ground arith), end) (refl, refl, h)
    | inr line ↦
        rw (find_crlf-some (ground arith), line)
          (header_same c (search q crlf) (search_room q crlf (ground (arith, search_le q crlf))))
  ]
  round_same expect_body c time = (refl, h)
  round_same got_all c time = (refl, h)

-- The loop over a buffer does what the loop over its readable bytes does: it runs into the same
-- assertion, goes on after the same number of rounds, or ends with the same result, the same context
-- and the same bytes left.
pub rounds_same :
    (fuel : ℕ) (c : HttpContext) (time : ℕ) {b : Buffer} {q : List ℕ}
    → Holds b q
    → SameEnd (rounds fuel c b time) (feed fuel c q time)
unfolding rounds feed
rounds_same zero c time h = tt
rounds_same (suc fuel) c time {b} {q} h =
    go (round c b time) (step c q time) (unfold round step in round_same h c.state c time)
      (λ c' b' q' h'. rounds_same fuel c' time {b = b'} {q = q'} h')
  where
    go :
        (o : Option Round) (p : Option Step)
        → SameRound o p
        → ((c' : HttpContext) (b' : Buffer) (q' : List ℕ)
            → Holds b' q'
            → SameEnd (rounds fuel c' b' time) (feed fuel c' q' time))
        → SameEnd
            (after_round o (λ c' b'. rounds fuel c' b' time))
            (after_step p (λ c' q'. feed fuel c' q' time))
    go none none s ih = tt
    go (some (again c' b')) (some (more c'' q')) s ih = rw s.0 (ih c'' b' q' s.1)
    go (some (leave ok c' b')) (some (stop ok' c'' q')) s ih = s
    go none (some _) s ih = absurd s
    go (some (again _ _)) none s ih = absurd s
    go (some (leave _ _ _)) none s ih = absurd s
    go (some (again _ _)) (some (stop _ _ _)) s ih = absurd s
    go (some (leave _ _ _)) (some (more _ _)) s ih = absurd s

pub parse_same :
    (c : HttpContext) (time : ℕ) {b : Buffer} {q : List ℕ}
    → Holds b q
    → SameEnd (parse_request c b time) (feed (suc (length q)) c q time)
unfolding parse_request
parse_same c time {b} {q} h =
    subst (λ n. SameEnd (rounds (suc n) c b time) (feed (suc (length q)) c q time))
      (sym (readable-Holds h)) (rounds_same (suc (length q)) c time h)

pub SameEnd-finished :
    (o : Option Parsed) (ok : Bool) (c : HttpContext) (q : List ℕ)
    → SameEnd o (some (fed ok c q))
    → (b : Buffer) × (o ≡ some (finished ok c b)) × Holds b q
SameEnd-finished none ok c q s = absurd s
SameEnd-finished (some running) ok c q s = absurd s
SameEnd-finished (some (finished ok' c' b)) ok c q s = (b, rw (s.0, s.1), s.2)

pub SameEnd-fed :
    (f : Option Fed) (ok : Bool) (c : HttpContext) (b : Buffer)
    → SameEnd (some (finished ok c b)) f
    → (q : List ℕ) × (f ≡ some (fed ok c q)) × Holds b q
SameEnd-fed none ok c b s = absurd s
SameEnd-fed (some hungry) ok c b s = absurd s
SameEnd-fed (some (fed ok' c' q)) ok c b s = (q, rw (s.0, s.1), s.2)

pub SameEnd-none : (o : Option Parsed) → SameEnd o none → o ≡ none
SameEnd-none none s = refl
SameEnd-none (some running) s = absurd s
SameEnd-none (some (finished ok c b)) s = absurd s

-- A line with its end behind it is what a round reads.
pub at_line_end :
    (c : HttpContext) (line rest : List ℕ) (result : List ℕ → Option LineResult)
    → Lacks 13 line
    → at_line c (line ++ crlf ++ rest) result ≡ place (line ++ crlf ++ rest) rest (result line)
unfolding at_line
at_line_end c line rest result w =
    let n = length line in
    let t : take n (line ++ crlf ++ rest) ≡ line =
      ap (take n) (append_assoc line crlf rest) ∙ take-append_length n line (crlf ++ rest) refl in
    let k = length-append line crlf in
    let d : drop (n + 2) (line ++ crlf ++ rest) ≡ rest =
      drop-append_length (n + 2) (line ++ crlf) rest (omega (arith, k)) in
    rw (search_line line rest w, t, d) (ground (arith, k, length-append (line ++ crlf) rest))
