-- ===== src/Log/AsyncLogging/Writing.antt =====
-- The logging thread of log/AsyncLogging.cc behind its critical section.
use slack.Base.{
  ℕ, zero, suc, ◌≡◌, List, [], ◌∷◌, ◌++◌, true, false, not, Option, some, none, ltb, length, take,
  arith, refl, sym, ap, ◌∙◌, append_assoc, Bool-cases, inl, inr, Returns, Returns->>=,
  Returns-assert, subst,
}
use slack.Log.FixedBuffer.{FixedBuffer, reset, to_string}
use slack.Log.AsyncLogging.{
  testing, writing, AsyncLogging, is_empty, texts, drop_many, last, take_back, write_out,
}
use slack.Log.AsyncLogging.Invariant.{
  flatten, flatten-append, IsBuffer, AreBuffers, IsReady, ReadyUnless, has_two, AtPhase, all_text,
  Inv,
}
use slack.Log.AsyncLogging.Collect.{allowed_more}

reset-IsReady : {size : ℕ} {b : FixedBuffer} → IsBuffer size b → IsReady size (reset b)
reset-IsReady h =
    (record { size_eq = h.size_eq; text_eq = refl; room = omega (arith, h.room) }, refl)

-- The first buffer that is kept replaces the one that is always missing; another one is left if there were two.
take_back-none :
    (size : ℕ) (bs : List FixedBuffer)
    → AreBuffers size bs
    → is_empty bs ≡ false
    → Returns
        (take_back none (take 2 bs))
        (λ r. IsReady size r.0 × AreBuffers size r.1 × (not (is_empty r.1) ≡ has_two bs))
take_back-none size [] h e = cc
take_back-none size (a ∷ []) h e = (reset-IsReady h.0, tt, refl)
take_back-none size (a ∷ b ∷ bs) h e = (reset-IsReady h.1.0, (h.0, tt), ground arith)

last_lem :
    (size : ℕ) (b : FixedBuffer) (bs : List FixedBuffer)
    → AreBuffers size (b ∷ bs)
    → Returns (last (b ∷ bs)) (λ r. IsBuffer size r.0)
last_lem size b [] h = h.0
last_lem size b (c ∷ bs) h = Returns->>= (last (c ∷ bs)) _ _ _ (last_lem size c bs h.1) (λ p k. k)

take_back_some :
    (size : ℕ) (o : Option FixedBuffer) (bs : List FixedBuffer)
    → AreBuffers size bs
    → ReadyUnless (not (is_empty bs)) size o
    → Returns (take_back o bs) (λ r. IsReady size r.0)
take_back_some size (some b) bs h r = r
take_back_some size none [] h r = cc
take_back_some size none (b ∷ []) h r = reset-IsReady h.0
take_back_some size none (b ∷ c ∷ bs) h r =
    Returns->>= (last (b ∷ c ∷ bs)) _ _ _ (last_lem size b (c ∷ bs) h) (λ p k. reset-IsReady k)

-- What is about to be written.
record Ready (size : ℕ) (s : AsyncLogging) : Type 0 where
  current_ok : IsBuffer size s.current_buffer
  next_ok : ReadyUnless (not (is_empty s.buffers)) size s.next_buffer
  buffers_ok : AreBuffers size s.buffers
  writing_ok : AreBuffers size s.buffers_to_write
  one_eq : s.new_buffer1 ≡ none
  two_ok : ReadyUnless (has_two s.buffers_to_write) size s.new_buffer2
  full : is_empty s.buffers_to_write ≡ false
  text_kept : s.dropped ≡ 0 → all_text s ≡ s.accepted

written : AsyncLogging → FixedBuffer → FixedBuffer → AsyncLogging
written t one two = record t {
  output = t.output ++ texts t.buffers_to_write;
  new_buffer1 = some one;
  new_buffer2 = some two;
  buffers_to_write = [];
  phase = testing;
}

written-Inv :
    {size : ℕ} (t : AsyncLogging) (one two : FixedBuffer)
    → Ready size t
    → IsReady size one
    → IsReady size two
    → Inv size (written t one two)
unfolding written
written-Inv t one two r a b = record {
  current_ok = r.current_ok;
  next_ok = r.next_ok;
  buffers_ok = r.buffers_ok;
  writing_ok = tt;
  at_phase = (a, b, refl);
  text_kept = λ z.
      ap (λ l. l ++ (flatten (texts t.buffers) ++ to_string t.current_buffer))
        (flatten-append t.output (texts t.buffers_to_write))
      ∙ append_assoc (flatten t.output) (flatten (texts t.buffers_to_write))
          (flatten (texts t.buffers) ++ to_string t.current_buffer)
      ∙ r.text_kept z;
}

take_two :
    (bs : List FixedBuffer)
    → ltb 25 (length bs) ≡ true
    → (is_empty (take 2 bs) ≡ false) × (has_two (take 2 bs) ≡ true)
take_two [] h = cc
take_two (a ∷ []) h = cc
take_two (a ∷ b ∷ bs) h = (refl, refl)

AreBuffers-take :
    (size n : ℕ) (bs : List FixedBuffer) → AreBuffers size bs → AreBuffers size (take n bs)
AreBuffers-take size zero bs h = tt
AreBuffers-take size (suc n) [] h = tt
AreBuffers-take size (suc n) (b ∷ bs) h = (h.0, AreBuffers-take size n bs h.1)

drop_many-Ready :
    {size : ℕ} (notice : ℕ → List ℕ) (s : AsyncLogging)
    → s.phase ≡ writing
    → Inv size s
    → Ready size (drop_many notice s)
drop_many-Ready {size} notice s p i =
    let (n, two, f) =
      subst (λ q. AtPhase size q s.new_buffer1 s.new_buffer2 s.buffers_to_write) p i.at_phase in
    let bs = s.buffers_to_write in
    elim (Bool-cases (ltb 25 (length bs))) [
      | inl e ↦
          let (f', h) = take_two bs e in
          rw e (record {
            current_ok = i.current_ok;
            next_ok = i.next_ok;
            buffers_ok = i.buffers_ok;
            writing_ok = AreBuffers-take size 2 bs i.writing_ok;
            one_eq = n;
            two_ok =
                allowed_more size (has_two bs) (has_two (take 2 bs)) s.new_buffer2 (λ g. h) two;
            full = f';
            text_kept = λ z. absurd (ground arith);
          })
      | inr e ↦ rw e (record {
        current_ok = i.current_ok;
        next_ok = i.next_ok;
        buffers_ok = i.buffers_ok;
        writing_ok = i.writing_ok;
        one_eq = n;
        two_ok = two;
        full = f;
        text_kept = i.text_kept;
      })
    ]

pub write_out-Inv :
    {size : ℕ} (notice : ℕ → List ℕ) (s : AsyncLogging)
    → s.phase ≡ writing
    → Inv size s
    → Returns (write_out notice s) (Inv size)
unfolding write_out written
write_out-Inv {size} notice s p i =
    let t = drop_many notice s in
    let r = drop_many-Ready notice s p i in
    let full : not (is_empty s.buffers_to_write) ≡ true =
      ap not
        (subst (λ q. AtPhase size q s.new_buffer1 s.new_buffer2 s.buffers_to_write) p
          i.at_phase).2 in
    Returns-assert _ _ full (
      Returns->>= (take_back t.new_buffer1 (take 2 t.buffers_to_write)) _ _ _
        (subst
          (λ o. Returns (take_back o (take 2 t.buffers_to_write)) (λ r.
            IsReady size r.0
            × AreBuffers size r.1
            × (not (is_empty r.1) ≡ has_two t.buffers_to_write)))
          (sym r.one_eq) (take_back-none size t.buffers_to_write r.writing_ok r.full))
        (λ one a.
          Returns->>= (take_back t.new_buffer2 one.1) _ _ _
            (take_back_some size t.new_buffer2 one.1 a.1
              (subst (λ c. ReadyUnless c size t.new_buffer2) (sym a.2) r.two_ok))
            (λ two b. written-Inv t one.0 two.0 r a.0 b)))
