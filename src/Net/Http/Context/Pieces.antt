-- ===== src/Net/Http/Context/Pieces.antt =====
-- A request that arrives in pieces: `HttpContext::parseRequest` called once for each piece.
use slack.Base.{
  ℕ, zero, suc, ◌+◌, ◌^◌, ◌≤◌, ◌<◌, ◌≡◌, ◌≢◌, List, ◌++◌, Bool, true, false, Option, some, none,
  take, drop, ◌==◌, length, arith, refl, ap, ◌∙◌, sym, subst, inl, inr, Bool-cases, length-drop,
  length-append, take-append, drop-append, Returns,
}
use slack.Std.Scan.{crlf, search, search_le, search_room, search-append}
use slack.Net.Buffer.{Buffer, append}
use slack.Net.Buffer.Refine.{append_lem}
use slack.Net.Buffer.Valid.{Holds}
use slack.Net.Http.Context.{got_all, HttpContext, parse_request, Parsed, finished}
use slack.Net.Http.Context.Pure.{
  LineResult, line_result, next, bad, done, place, step, stop, fed, feed, after_step, SameEnd,
  SameEnd-finished, SameEnd-fed, parse_same,
}
use slack.Net.Http.Context.Progress.{
  IsReady, IsGood, step-line, line_result-IsGood, IsReady-headers, feed-Ends,
}

shorter :
    (q : List ℕ)
    → (search q crlf == length q) ≡ false
    → length (drop (search q crlf + 2) q) < length q
shorter q h = omega (
  arith,
  length-drop (search q crlf + 2) q,
  search_room q crlf (ground (arith, search_le q crlf)),
  search_le q crlf,
)

-- The fuel does not matter once it is above the number of bytes.
feed_fuel :
    (n m : ℕ) (c : HttpContext) (q : List ℕ) (time : ℕ)
    → IsReady c
    → length q < n
    → length q < m
    → feed n c q time ≡ feed m c q time
unfolding feed place
feed_fuel zero m c q time r h k = absurd (omega arith)
feed_fuel (suc n) zero c q time r h k = absurd (omega arith)
feed_fuel (suc n) (suc m) c q time r h k =
    let e = step-line c q time r in
    let o = line_result c.state c time (take (search q crlf) q) in
    let g = line_result-IsGood c.state c time (take (search q crlf) q) refl r in
    elim (Bool-cases (search q crlf == length q)) [
      | inl end ↦ rw (e, end)
      | inr line ↦
          rw (e, line)
            (go o g λ c' r'.
              feed_fuel n m c' (drop (search q crlf + 2) q) time r' (omega (arith, shorter q line))
                (omega (arith, shorter q line)))
    ]
  where
    go :
        (o : Option LineResult)
        → IsGood o
        → ((c' : HttpContext)
            → IsReady c'
            → feed n c' (drop (search q crlf + 2) q) time
              ≡ feed m c' (drop (search q crlf + 2) q) time)
        → after_step (place q (drop (search q crlf + 2) q) o) (λ c' q'. feed n c' q' time)
          ≡ after_step (place q (drop (search q crlf + 2) q) o) (λ c' q'. feed m c' q' time)
    go none g ih = refl
    go (some (next c')) g ih = ih c' (IsReady-headers c' g)
    go (some (bad c')) g ih = refl
    go (some (done c')) g ih = refl

-- Bytes that arrive later do not change what a line in front leads to.
step-append :
    (c : HttpContext) (q later : List ℕ) (time : ℕ)
    → IsReady c
    → (search q crlf == length q) ≡ false
    → step c (q ++ later) time
      ≡ place
          (q ++ later)
          (drop (search q crlf + 2) q ++ later)
          (line_result c.state c time (take (search q crlf) q))
step-append c q later time r line =
    let inside : search q crlf < length q = ground (arith, search_le q crlf) in
    let room = search_room q crlf inside in
    let n = search-append q later crlf inside in
    rw
      (
        step-line c (q ++ later) time r,
        n,
        take-append (search q crlf) q later (omega arith),
        drop-append (search q crlf + 2) q later room,
      )
      (ground (arith, length-append q later))

feed_pieces :
    (n m k : ℕ) (c : HttpContext) (q later : List ℕ) (time : ℕ) (c' : HttpContext) (left : List ℕ)
    → IsReady c
    → length q < n
    → length (q ++ later) < m
    → length (left ++ later) < k
    → feed n c q time ≡ some (fed true c' left)
    → c'.state ≢ got_all
    → (feed m c (q ++ later) time ≡ feed k c' (left ++ later) time) × IsReady c'
unfolding feed place
feed_pieces zero m k c q later time c' left r h i j e w = absurd (omega arith)
feed_pieces (suc n) zero k c q later time c' left r h i j e w = absurd (omega arith)
feed_pieces (suc n) (suc m) k c q later time c' left r h i j e w =
    let g = line_result-IsGood c.state c time (take (search q crlf) q) refl r in
    elim (Bool-cases (search q crlf == length q)) [
      | inl end ↦
          let s : step c q time ≡ some (stop true c q) = rw end at (step-line c q time r) in
          let e' : some (fed true c q) ≡ some (fed true c' left) = rw s at e in
          let d : c ≡ c' = cc in
          let l : q ≡ left = cc in
          subst
            (λ x. (feed (suc m) c (q ++ later) time ≡ feed k x (left ++ later) time) × IsReady x) d
            (subst
              (λ x. (feed (suc m) c (q ++ later) time ≡ feed k c (x ++ later) time) × IsReady c) l
              (
                feed_fuel (suc m) k c (q ++ later) time r i
                    (omega (arith, ap length l, length-append q later, length-append left later)),
                r,
              ))
      | inr line ↦
          let o = line_result c.state c time (take (search q crlf) q) in
          let rest = drop (search q crlf + 2) q in
          let s : step c q time ≡ place q rest o = rw line at (step-line c q time r) in
          rw (step-append c q later time r line) (
            go o g (rw s at e) λ d r' e'.
              feed_pieces n m k d rest later time c' left r' (omega (arith, shorter q line))
                (omega (
                  arith,
                  shorter q line,
                  length-append q later,
                  length-append (drop (search q crlf + 2) q) later,
                ))
                j e' w)
    ]
  where
    go :
        (o : Option LineResult)
        → IsGood o
        → after_step (place q (drop (search q crlf + 2) q) o) (λ d q'. feed n d q' time)
          ≡ some (fed true c' left)
        → ((d : HttpContext)
            → IsReady d
            → feed n d (drop (search q crlf + 2) q) time ≡ some (fed true c' left)
            → (feed m d (drop (search q crlf + 2) q ++ later) time ≡ feed k c' (left ++ later) time)
              × IsReady c')
        → (after_step
              (place (q ++ later) (drop (search q crlf + 2) q ++ later) o)
              (λ d q'. feed m d q' time)
            ≡ feed k c' (left ++ later) time)
          × IsReady c'
    go none g e ih = absurd g
    go (some (next d)) g e ih = ih d (IsReady-headers d g) e
    go (some (bad d)) g e ih = absurd (cc)
    go (some (done d)) g e ih = absurd (w (ground arith))

-- The same result and context, and the same bytes left in the buffer.
pub record Agree (p p' : Option Parsed) : Type 0 where
  pub ok : Bool
  pub context : HttpContext
  pub first : Buffer
  pub second : Buffer
  pub left : List ℕ
  pub runs : p ≡ some (finished ok context first)
  pub runs' : p' ≡ some (finished ok context second)
  pub holds : Holds first left
  pub holds' : Holds second left

-- When `parseRequest` has returned `true` on the first piece of a request and the request is not
-- complete, appending the second piece to what it left and calling it again gives what one call with
-- both pieces in the buffer gives: the same result, the same context and the same bytes left. Both
-- calls have the same receive time, and no vector comes near 2^63 bytes.
pub parse_request_pieces :
    {b b' whole joined : Buffer} {q : List ℕ} (later : List ℕ) (c c' : HttpContext) (time : ℕ)
    → IsReady c
    → Holds b q
    → length b.buffer + length later + 8 < 2 ^ 63
    → length b'.buffer + length later + 8 < 2 ^ 63
    → parse_request c b time ≡ some (finished true c' b')
    → c'.state ≢ got_all
    → append b' later ≡ some joined
    → append b later ≡ some whole
    → Agree (parse_request c whole time) (parse_request c' joined time)
parse_request_pieces {b} {b'} {whole} {joined} {q} later c c' time r h size size' p w j v =
    let (left, f, hl) =
      SameEnd-fed (feed (suc (length q)) c q time) true c' b'
        (subst (λ o. SameEnd o (feed (suc (length q)) c q time)) p (parse_same c time h)) in
    let hw = appended h later whole size v in
    let hj = appended hl later joined size' j in
    let (same, r') =
      feed_pieces (suc (length q)) (suc (length (q ++ later))) (suc (length (left ++ later))) c q
        later time c' left r (omega arith) (omega arith) (omega arith) f w in
    let e = feed-Ends (suc (length (q ++ later))) c (q ++ later) time r (omega arith) in
    let (b1, e1, h1) =
      SameEnd-finished (parse_request c whole time) e.ok e.context e.left
        (subst (SameEnd (parse_request c whole time)) e.ended (parse_same c time hw)) in
    let (b2, e2, h2) = SameEnd-finished (parse_request c' joined time) e.ok e.context e.left (
      subst (SameEnd (parse_request c' joined time)) (sym same ∙ e.ended)
        (parse_same c' time hj)) in
    record {
      ok = e.ok;
      context = e.context;
      first = b1;
      second = b2;
      left = e.left;
      runs = e1;
      runs' = e2;
      holds = h1;
      holds' = h2;
    }
  where
    appended :
        {x : Buffer} {bytes : List ℕ}
        → Holds x bytes
        → (ys : List ℕ) (y : Buffer) → length x.buffer + length ys + 8 < 2 ^ 63
        → append x ys ≡ some y
        → Holds y (bytes ++ ys)
    appended {x} {bytes} g ys y s e =
        (subst
          (λ o.
            Returns o
              (λ z. Holds z (bytes ++ ys) × (length z.buffer ≤ length x.buffer + length ys)))
          e (append_lem g ys s)).0
