-- ===== src/Log/AsyncLogging/Collect.antt =====
-- The logging thread of log/AsyncLogging.cc up to the end of its critical section.
use slack.Base.{
  ℕ, ◌≡◌, ◌≢◌, List, [], ◌∷◌, ◌++◌, Bool, true, false, not, Option, some, none, ◌==◌, arith, refl,
  sym, ap, ◌∙◌, append-nil, Bool-cases, inl, inr, Returns, Returns-bind, Returns-assert,
  Returns-then, Returns-else, subst,
}
use slack.Log.FixedBuffer.{FixedBuffer, to_string}
use slack.Log.AsyncLogging.{
  Phase, testing, collecting, writing, finished, AsyncLogging, is_empty, test_running, refill,
  collect, texts,
}
use slack.Log.AsyncLogging.Invariant.{
  flatten, IsBuffer, AreBuffers, IsReady, ReadyUnless, has_two, AtPhase, all_text, Inv,
  flatten-texts_snoc, AreBuffers-append, snoc-is_empty, IsReady-text,
}

-- The logging thread at the top of its loop.
record Top (size : ℕ) (s : AsyncLogging) : Type 0 where
  one : FixedBuffer
  two : FixedBuffer
  one_eq : s.new_buffer1 ≡ some one
  two_eq : s.new_buffer2 ≡ some two
  one_ready : IsReady size one
  two_ready : IsReady size two
  nothing : s.buffers_to_write ≡ []

no_buffers : (bs : List FixedBuffer) → is_empty bs ≡ true → bs ≡ []
no_buffers [] h = refl
no_buffers (b ∷ bs) h = cc

present :
    {size : ℕ} (o : Option FixedBuffer)
    → ReadyUnless false size o
    → (b : FixedBuffer) × (o ≡ some b) × IsReady size b
present none r = cc
present (some b) r = (b, refl, r)

idle :
    (size : ℕ) (p : Phase) (one two : Option FixedBuffer) (bs : List FixedBuffer)
    → p ≢ writing
    → AtPhase size p one two bs
    → ReadyUnless false size one × ReadyUnless false size two × (is_empty bs ≡ true)
idle size testing one two bs h a = a
idle size collecting one two bs h a = a
idle size writing one two bs h a = absurd (h refl)
idle size finished one two bs h a = a

-- Before its critical section the thread has two empty buffers, and nothing to write.
top :
    {size : ℕ} (p : Phase) (s : AsyncLogging)
    → p ≢ writing
    → AtPhase size p s.new_buffer1 s.new_buffer2 s.buffers_to_write
    → Top size s
top {size} p s h a =
    let (o, t, e) = idle size p s.new_buffer1 s.new_buffer2 s.buffers_to_write h a in
    let (one, one_eq, r) = present s.new_buffer1 o in
    let (two, two_eq, q) = present s.new_buffer2 t in
    record {
      one = one;
      two = two;
      one_eq = one_eq;
      two_eq = two_eq;
      one_ready = r;
      two_ready = q;
      nothing = no_buffers s.buffers_to_write e;
    }

pub test_running-Inv :
    {size : ℕ} (s : AsyncLogging)
    → s.phase ≡ testing
    → Inv size s
    → Returns (test_running s) (Inv size)
unfolding test_running
test_running-Inv {size} s p i =
    let t = top s.phase s (ground arith) i.at_phase in
    let a =
      idle size s.phase s.new_buffer1 s.new_buffer2 s.buffers_to_write (ground arith) i.at_phase in
    let two_empty : (t.two.cur == 0) ≡ true = ground (arith, t.two_ready.1) in
    let u : AsyncLogging = record s { phase = collecting } in
    let v : AsyncLogging = record s { phase = finished } in
    let j : Inv size u = record {
      current_ok = i.current_ok;
      next_ok = i.next_ok;
      buffers_ok = i.buffers_ok;
      writing_ok = i.writing_ok;
      at_phase = a;
      text_kept = i.text_kept;
    } in
    let k : Inv size v = record {
      current_ok = i.current_ok;
      next_ok = i.next_ok;
      buffers_ok = i.buffers_ok;
      writing_ok = i.writing_ok;
      at_phase = a;
      text_kept = i.text_kept;
    } in
    elim (Bool-cases s.running) [
      | inl e ↦ Returns-then _ _ _ e (
          Returns-bind _ _ t.one_eq (
            Returns-bind _ _ t.two_eq
              (Returns-assert _ _ two_empty (Returns-assert _ _ (ap is_empty t.nothing) j))))
      | inr e ↦ Returns-else _ _ _ e k
    ]

-- The text that the logging thread has taken.
taken_text :
    {size : ℕ} (s : AsyncLogging)
    → Inv size s
    → s.buffers_to_write ≡ []
    → s.dropped ≡ 0
    → flatten s.output ++ flatten (texts (s.buffers ++ (s.current_buffer ∷ []))) ≡ s.accepted
taken_text s i e z =
    ap (λ l. flatten s.output ++ l) (flatten-texts_snoc s.buffers s.current_buffer)
    ∙ ap
        (λ (bs : List FixedBuffer).
          flatten s.output
          ++ (flatten (texts bs) ++ (flatten (texts s.buffers) ++ to_string s.current_buffer)))
        (sym e)
    ∙ i.text_kept z

pub allowed_more :
    (size : ℕ) (a b : Bool) (o : Option FixedBuffer)
    → (a ≡ true → b ≡ true)
    → ReadyUnless a size o
    → ReadyUnless b size o
allowed_more size a b none f r = f r
allowed_more size a b (some x) f r = r

refill-Inv :
    {size : ℕ} (o : Option FixedBuffer) (u : AsyncLogging)
    → u.next_buffer ≡ o
    → IsBuffer size u.current_buffer
    → AreBuffers size u.buffers
    → AreBuffers size u.buffers_to_write
    → ReadyUnless (has_two u.buffers_to_write) size o
    → ReadyUnless false size u.new_buffer2
    → u.phase ≡ writing
    → u.new_buffer1 ≡ none
    → is_empty u.buffers_to_write ≡ false
    → (u.dropped ≡ 0 → all_text u ≡ u.accepted)
    → Inv size (refill o u)
refill-Inv {size} none u e c b w two r p n f t = record {
  current_ok = c;
  next_ok = allowed_more size false (not (is_empty u.buffers)) u.new_buffer2 (λ h. cc) r;
  buffers_ok = b;
  writing_ok = w;
  at_phase = subst (λ q. AtPhase size q u.new_buffer1 none u.buffers_to_write) (sym p) (n, two, f);
  text_kept = t;
}
refill-Inv {size} (some x) u e c b w two r p n f t = record {
  current_ok = c;
  next_ok = subst (ReadyUnless (not (is_empty u.buffers)) size) (sym e) two;
  buffers_ok = b;
  writing_ok = w;
  at_phase =
      subst (λ q. AtPhase size q u.new_buffer1 u.new_buffer2 u.buffers_to_write) (sym p)
        (n, allowed_more size false (has_two u.buffers_to_write) u.new_buffer2 (λ h. cc) r, f);
  text_kept = t;
}

has_two-snoc :
    (bs : List FixedBuffer) (b : FixedBuffer)
    → not (is_empty bs) ≡ true
    → has_two (bs ++ (b ∷ [])) ≡ true
has_two-snoc [] b h = cc
has_two-snoc (c ∷ []) b h = refl
has_two-snoc (c ∷ d ∷ bs) b h = ground arith

pub collect-Inv :
    {size : ℕ} (s : AsyncLogging)
    → s.phase ≡ collecting
    → Inv size s
    → Returns (collect s) (Inv size)
unfolding collect
collect-Inv {size} s p i =
    let t = top s.phase s (ground arith) i.at_phase in
    let bs = s.buffers ++ (s.current_buffer ∷ []) in
    let u = record s {
      buffers_to_write = bs;
      buffers = s.buffers_to_write;
      current_buffer = t.one;
      new_buffer1 = none;
      phase = writing;
    } in
    Returns-bind _ _ t.one_eq (
      refill-Inv s.next_buffer u refl t.one_ready.0 i.writing_ok
        (AreBuffers-append size s.buffers (s.current_buffer ∷ []) i.buffers_ok (i.current_ok, tt))
        (allowed_more size (not (is_empty s.buffers)) (has_two bs) s.next_buffer
          (has_two-snoc s.buffers s.current_buffer) i.next_ok)
        (subst (ReadyUnless false size) (sym t.two_eq) t.two_ready) refl refl
        (snoc-is_empty s.buffers s.current_buffer)
        (λ z.
          let rest : flatten (texts s.buffers_to_write) ++ to_string t.one ≡ [] =
            ap (λ l. flatten (texts l) ++ to_string t.one) t.nothing ∙ IsReady-text t.one_ready in
          ap (λ l. flatten s.output ++ (flatten (texts bs) ++ l)) rest
          ∙ ap (λ l. flatten s.output ++ l) (append-nil (flatten (texts bs)))
          ∙ taken_text s i t.nothing z))
