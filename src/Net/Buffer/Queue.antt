-- ===== src/Net/Buffer/Queue.antt =====
-- A client of net/Buffer.h that appends at one end and retrieves at the other, against a plain
-- sequence of bytes.
use slack.Base.{
  ℕ, ◌+◌, ◌^◌, ◌<◌, ◌≡◌, refl, inl, inr, Option, some, none, List, [], ◌∷◌, ◌++◌, leb,
  if◌then◌else◌, length, take, drop, arith, Returns-some, Bool-cases, ◌>>=◌, ap,
}
use slack.Net.Buffer.{Buffer, append, retrieve, retrieve_as_string}
use slack.Net.Buffer.Valid.{Holds}
use slack.Net.Buffer.Refine.{append_lem}
use slack.Net.Buffer.Retrieve.{
  retrieve_lem, retrieve_as_string_lem, retrieve_too_long, retrieve_as_string_too_long,
}

pub data Op : Type 0 where
  put : List ℕ → Op
  get : ℕ → Op
  skip : ℕ → Op

-- Each call with the bytes that it hands out; `none` once an assertion fails.
step : Buffer → Op → Option (List ℕ × Buffer)
step b (put ys) = do b' ← append b ys; some ([], b')
step b (get n) = retrieve_as_string b n
step b (skip n) = do b' ← retrieve b n; some ([], b')

pub run : Buffer → List Op → Option (List (List ℕ))
unfolding step
run b [] = some []
run b (op ∷ ops) = do (out, b') ← step b op; rest ← run b' ops; some (out ∷ rest)

model_step : List ℕ → Op → Option (List ℕ × List ℕ)
model_step q (put ys) = some ([], q ++ ys)
model_step q (get n) = if leb n (length q) then some (take n q, drop n q) else none
model_step q (skip n) = if leb n (length q) then some ([], drop n q) else none

pub model : List ℕ → List Op → Option (List (List ℕ))
unfolding model_step
model q [] = some []
model q (op ∷ ops) = do (out, q') ← model_step q op; rest ← model q' ops; some (out ∷ rest)

abbrev pub appended : List Op → ℕ
appended [] = 0
appended (put ys ∷ ops) = length ys + appended ops
appended (get n ∷ ops) = appended ops
appended (skip n ∷ ops) = appended ops

-- No sequence of appends and retrievals tells a buffer from the sequence of the bytes in it: each
-- retrieval hands out the same bytes, and an assertion fails exactly where the sequence is shorter
-- than what is asked for. The vector and all appended bytes together stay below 2^63.
pub run_refines :
    (ops : List Op) {b : Buffer} {q : List ℕ}
    → Holds b q
    → length b.buffer + appended ops + 8 < 2 ^ 63
    → run b ops ≡ model q ops
unfolding run model
run_refines [] h s = refl
run_refines (put ys ∷ ops) {b} {q} h s =
    let (b', e, p) = Returns-some (append b ys) _ (append_lem h ys (omega arith)) in
    rw (e, run_refines ops p.0 (omega (arith, p.1)))
run_refines (get n ∷ ops) {b} {q} h s = elim (Bool-cases (leb n (length q))) [
  | inl fits ↦
      let (r, e, p) =
        Returns-some (retrieve_as_string b n) _ (retrieve_as_string_lem h n (ground arith)) in
      rw (fits, e, p.0, run_refines ops p.1 (omega (arith, ap length p.2)))
  | inr long ↦ rw (long, retrieve_as_string_too_long h n (ground arith))
]
run_refines (skip n ∷ ops) {b} {q} h s = elim (Bool-cases (leb n (length q))) [
  | inl fits ↦
      let (b', e, p) = Returns-some (retrieve b n) _ (retrieve_lem h n (ground arith)) in
      rw (fits, e, run_refines ops p.0 (omega (arith, ap length p.1)))
  | inr long ↦ rw (long, retrieve_too_long h n (ground arith))
]
