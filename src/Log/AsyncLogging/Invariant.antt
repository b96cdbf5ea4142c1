-- ===== src/Log/AsyncLogging/Invariant.antt =====
-- What every step of log/AsyncLogging.cc preserves: which buffers are where, and the text in them.
use slack.Base.{
  ℕ, ◌<◌, ◌≡◌, List, [], ◌∷◌, ◌++◌, Bool, true, false, not, Option, some, none, ◌>>=◌, ltb, length,
  length-append, length-replicate, take, arith, refl, sym, ap, ◌∙◌, append_assoc, append-nil,
  Bool-cases, inl, inr, Returns, Returns->>=, subst,
}
use slack.Log.FixedBuffer.{
  FixedBuffer, avail, append, store, to_string, Shows, cur-Shows, store-Shows, add,
}
use slack.Log.AsyncLogging.{
  Phase, writing, AsyncLogging, new_buffer, started, or_new, append_line, is_empty, texts,
}

abbrev pub flatten : List (List ℕ) → List ℕ
flatten [] = []
flatten (t ∷ ts) = t ++ flatten ts

abbrev pub IsBuffer : ℕ → FixedBuffer → Type 0
IsBuffer size b = Shows size b (to_string b)

abbrev pub AreBuffers : ℕ → List FixedBuffer → Type 0
AreBuffers size [] = Unit {0}
AreBuffers size (b ∷ bs) = IsBuffer size b × AreBuffers size bs

-- A buffer with nothing in it.
abbrev pub IsReady : ℕ → FixedBuffer → Type 0
IsReady size b = IsBuffer size b × (b.cur ≡ 0)

-- One, or none where that is allowed.
abbrev pub ReadyUnless : Bool → ℕ → Option FixedBuffer → Type 0
ReadyUnless allowed size none = allowed ≡ true
ReadyUnless allowed size (some b) = IsReady size b

abbrev pub has_two : List FixedBuffer → Bool
has_two bs = ltb 1 (length bs)

-- The buffers of the logging thread. It has replaced its own before it comes back to the top.
abbrev pub AtPhase : ℕ → Phase → Option FixedBuffer → Option FixedBuffer → List FixedBuffer → Type 0
AtPhase size writing one two bs =
    (one ≡ none) × ReadyUnless (has_two bs) size two × (is_empty bs ≡ false)
AtPhase size p one two bs =
    ReadyUnless false size one × ReadyUnless false size two × (is_empty bs ≡ true)

-- All text, from the first byte given to the file to the last one appended.
abbrev pub all_text : AsyncLogging → List ℕ
all_text s =
    flatten s.output
    ++ (flatten (texts s.buffers_to_write)
        ++ (flatten (texts s.buffers) ++ to_string s.current_buffer))

pub record Inv (size : ℕ) (s : AsyncLogging) : Type 0 where
  pub current_ok : IsBuffer size s.current_buffer
  pub next_ok : ReadyUnless (not (is_empty s.buffers)) size s.next_buffer
  pub buffers_ok : AreBuffers size s.buffers
  pub writing_ok : AreBuffers size s.buffers_to_write
  pub at_phase : AtPhase size s.phase s.new_buffer1 s.new_buffer2 s.buffers_to_write
  pub text_kept : s.dropped ≡ 0 → all_text s ≡ s.accepted

pub flatten-append : (xs ys : List (List ℕ)) → flatten (xs ++ ys) ≡ flatten xs ++ flatten ys
flatten-append [] ys = refl
flatten-append (x ∷ xs) ys =
    ap (λ l. x ++ l) (flatten-append xs ys) ∙ sym (append_assoc x (flatten xs) (flatten ys))

texts-append : (bs cs : List FixedBuffer) → texts (bs ++ cs) ≡ texts bs ++ texts cs
texts-append [] cs = refl
texts-append (b ∷ bs) cs = ap (λ l. to_string b ∷ l) (texts-append bs cs)

-- The text of a buffer behind others.
pub flatten-texts_snoc :
    (bs : List FixedBuffer) (b : FixedBuffer)
    → flatten (texts (bs ++ (b ∷ []))) ≡ flatten (texts bs) ++ to_string b
flatten-texts_snoc bs b =
    ap flatten (texts-append bs (b ∷ []))
    ∙ flatten-append (texts bs) (to_string b ∷ [])
    ∙ ap (λ l. flatten (texts bs) ++ l) (append-nil (to_string b))

pub AreBuffers-append :
    (size : ℕ) (bs cs : List FixedBuffer)
    → AreBuffers size bs
    → AreBuffers size cs
    → AreBuffers size (bs ++ cs)
AreBuffers-append size [] cs h k = k
AreBuffers-append size (b ∷ bs) cs h k = (h.0, AreBuffers-append size bs cs h.1 k)

pub snoc-is_empty : (bs : List FixedBuffer) (b : FixedBuffer) → is_empty (bs ++ (b ∷ [])) ≡ false
snoc-is_empty [] b = refl
snoc-is_empty (c ∷ bs) b = refl

-- A text that fits goes behind what is there.
pub append-IsBuffer :
    {size : ℕ} {b : FixedBuffer} (cs : List ℕ)
    → IsBuffer size b
    → length cs < avail b
    → Returns (append b cs) (λ b'. IsBuffer size b' × (to_string b' ≡ to_string b ++ cs))
unfolding append
append-IsBuffer {size} {b} cs h lt =
    let c = cur-Shows h in
    let fits : ltb (length cs) (avail b) ≡ true = ground arith in
    let stored =
      store-Shows cs [] h (omega (arith, h.size_eq, c))
        (omega (arith, h.size_eq, c, length-append cs [])) in
    rw fits (
      subst
        (λ l.
          Returns (do b' ← store b l; some (add b' (length cs)))
            (λ b'. IsBuffer size b' × (to_string b' ≡ to_string b ++ cs)))
        (append-nil cs)
        (Returns->>= (store b (cs ++ [])) _ _ _ stored
          (λ b' s. (record { size_eq = s.size_eq; text_eq = refl; room = s.room }, s.text_eq))))

new_buffer-IsReady : (size : ℕ) → 0 < size → IsReady size (new_buffer size)
new_buffer-IsReady size h =
    (record { size_eq = length-replicate {A = ℕ} size 0; text_eq = refl; room = h }, refl)

pub started-Inv : (size : ℕ) → 0 < size → Inv size (started size)
started-Inv size h =
    let r = new_buffer-IsReady size h in
    record {
      current_ok = r.0;
      next_ok = r;
      buffers_ok = tt;
      writing_ok = tt;
      at_phase = (r, r, refl);
      text_kept = λ e. refl;
    }

IsReady-or_new :
    {size : ℕ} (allowed : Bool) (o : Option FixedBuffer)
    → 0 < size
    → ReadyUnless allowed size o
    → IsReady size (or_new size o)
IsReady-or_new {size} allowed none h r = new_buffer-IsReady size h
IsReady-or_new allowed (some b) h r = r

behind : (a b c d l : List ℕ) → a ++ (b ++ (c ++ (d ++ l))) ≡ (a ++ (b ++ (c ++ d))) ++ l
behind a b c d l = sym (
    append_assoc a (b ++ (c ++ d)) l
    ∙ ap (λ x. a ++ x) (append_assoc b (c ++ d) l ∙ ap (λ x. b ++ x) (append_assoc c d l)))

pub IsReady-text : {size : ℕ} {b : FixedBuffer} → IsReady size b → to_string b ≡ []
IsReady-text {b = b} r = ap (λ n. take n b.array) r.1

pub append_line-Inv :
    {size : ℕ} (s : AsyncLogging) (line : List ℕ)
    → length line < size
    → Inv size s
    → Returns (append_line size s line) (λ t. Inv size t)
unfolding append_line
append_line-Inv {size} s line lt i =
    elim (Bool-cases (ltb (length line) (avail s.current_buffer))) [
      | inl e ↦ rw e (
          Returns->>= (append s.current_buffer line) _ _ _
            (append-IsBuffer line i.current_ok (ground arith))
            (λ b (k, t). record {
              current_ok = k;
              next_ok = i.next_ok;
              buffers_ok = i.buffers_ok;
              writing_ok = i.writing_ok;
              at_phase = i.at_phase;
              text_kept = λ z.
                  ap
                    (λ l.
                      flatten s.output
                      ++ (flatten (texts s.buffers_to_write) ++ (flatten (texts s.buffers) ++ l)))
                    t
                  ∙ behind (flatten s.output) (flatten (texts s.buffers_to_write))
                      (flatten (texts s.buffers)) (to_string s.current_buffer) line
                  ∙ ap (λ l. l ++ line) (i.text_kept z);
            }))
      | inr e ↦
          let fresh = or_new size s.next_buffer in
          let ready =
            IsReady-or_new (not (is_empty s.buffers)) s.next_buffer (omega arith) i.next_ok in
          rw e (
            Returns->>= (append fresh line) _ _ _
              (append-IsBuffer line ready.0 (omega (arith, ready.0.size_eq, ready.1)))
              (λ b (k, t). record {
                current_ok = k;
                next_ok = ap not (snoc-is_empty s.buffers s.current_buffer);
                buffers_ok =
                    AreBuffers-append size s.buffers (s.current_buffer ∷ []) i.buffers_ok
                      (i.current_ok, tt);
                writing_ok = i.writing_ok;
                at_phase = i.at_phase;
                text_kept = λ z.
                    let line_only : to_string b ≡ line =
                      t ∙ ap (λ l. l ++ line) (IsReady-text ready) in
                    ap (λ l. flatten s.output ++ (flatten (texts s.buffers_to_write) ++ l))
                      (ap (λ l. l ++ to_string b) (flatten-texts_snoc s.buffers s.current_buffer)
                        ∙ ap (λ l. (flatten (texts s.buffers) ++ to_string s.current_buffer) ++ l)
                            line_only
                        ∙ append_assoc (flatten (texts s.buffers)) (to_string s.current_buffer)
                            line)
                    ∙ behind (flatten s.output) (flatten (texts s.buffers_to_write))
                        (flatten (texts s.buffers)) (to_string s.current_buffer) line
                    ∙ ap (λ l. l ++ line) (i.text_kept z);
              }))
    ]
