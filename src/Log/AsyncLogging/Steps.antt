-- ===== src/Log/AsyncLogging/Steps.antt =====
-- log/AsyncLogging.cc under every interleaving of appends, `stop` and the logging thread.
use slack.Base.{
  ℕ, ◌<◌, ◌≡◌, List, ◌++◌, true, not, Option, some, none, assert, ◌>>=◌, ltb, length, take, arith,
  refl, sym, ap, ◌∙◌, Returns, Returns->>=, Returns-mono, Returns-Safe, Returns-both, Safe,
  Safe->>=, Returns-then, Returns-else, subst,
}
use slack.Log.FixedBuffer.{avail, append, to_string}
use slack.Log.AsyncLogging.{
  Phase, testing, collecting, writing, finished, AsyncLogging, started, append_line, stop,
  test_running, texts, write_out, part, advance, drop_many, take_back, is_empty,
}
use slack.Log.AsyncLogging.Invariant.{flatten, Inv, append_line-Inv, append-IsBuffer, started-Inv}
use slack.Log.AsyncLogging.Collect.{test_running-Inv, collect-Inv}
use slack.Log.AsyncLogging.Writing.{write_out-Inv}

-- Lines are shorter than a buffer.
pub data Step (size : ℕ) (notice : ℕ → List ℕ) (s : AsyncLogging) : AsyncLogging → Type 0 where
  appends :
      {t : AsyncLogging} (line : List ℕ)
      → length line < size
      → append_line size s line ≡ some t
      → Step size notice s t
  stops : Step size notice s (stop s)
  advances : {t : AsyncLogging} → advance notice s ≡ some t → Step size notice s t

pub data Steps (size : ℕ) (notice : ℕ → List ℕ) (s : AsyncLogging) : AsyncLogging → Type 0 where
  done : Steps size notice s s
  more : {t u : AsyncLogging} → Steps size notice s t → Step size notice t u → Steps size notice s u

part-Inv :
    {size : ℕ} (notice : ℕ → List ℕ) (p : Phase) (s : AsyncLogging)
    → s.phase ≡ p
    → Inv size s
    → Returns (part notice p s) (Inv size)
part-Inv notice testing s e i = test_running-Inv s e i
part-Inv notice collecting s e i = collect-Inv s e i
part-Inv notice writing s e i = write_out-Inv notice s e i
part-Inv notice finished s e i = i

stop-Inv : {size : ℕ} (s : AsyncLogging) → Inv size s → Inv size (stop s)
unfolding stop
stop-Inv s i = record {
  current_ok = i.current_ok;
  next_ok = i.next_ok;
  buffers_ok = i.buffers_ok;
  writing_ok = i.writing_ok;
  at_phase = i.at_phase;
  text_kept = i.text_kept;
}

Returns-to :
    {size : ℕ} {o : Option AsyncLogging} {t : AsyncLogging}
    → o ≡ some t
    → Returns o (Inv size)
    → Inv size t
Returns-to {size} e r = subst (λ o. Returns o (Inv size)) e r

Step-Inv :
    {size : ℕ} {notice : ℕ → List ℕ} {s t : AsyncLogging}
    → Step size notice s t
    → Inv size s
    → Inv size t
unfolding advance
Step-Inv {s = s} (appends line h e) i = Returns-to e (append_line-Inv s line h i)
Step-Inv {s = s} stops i = stop-Inv s i
Step-Inv {notice = notice} {s = s} (advances e) i = Returns-to e (part-Inv notice s.phase s refl i)

Steps-Inv :
    {size : ℕ} {notice : ℕ → List ℕ} {t : AsyncLogging}
    → 0 < size
    → Steps size notice (started size) t
    → Inv size t
Steps-Inv {size} h done = started-Inv size h
Steps-Inv h (more s st) = Step-Inv st (Steps-Inv h s)

returns-Step :
    {size : ℕ} {notice : ℕ → List ℕ} {s : AsyncLogging} (o : Option AsyncLogging)
    → ((t : AsyncLogging) → o ≡ some t → Step size notice s t)
    → Returns o (Inv size)
    → Returns o (Step size notice s)
returns-Step none f r = r
returns-Step (some t) f r = f t refl

-- However appends of lines that are shorter than a buffer, `stop`, and the parts of the logging thread follow each other: no
-- assertion of the thread fails, no write leaves a buffer, and no pointer is used that was moved from.
pub Steps-returns :
    (size : ℕ) (notice : ℕ → List ℕ) (s : AsyncLogging) (line : List ℕ)
    → length line < size
    → Steps size notice (started size) s
    → Returns (append_line size s line) (Step size notice s)
      × Returns (advance notice s) (Step size notice s)
unfolding advance
Steps-returns size notice s line h st =
    let i = Steps-Inv (omega arith) st in
    (
      returns-Step (append_line size s line) (λ t e. appends line h e) (append_line-Inv s line h i),
      returns-Step (part notice s.phase s) (λ t e. advances e) (part-Inv notice s.phase s refl i),
    )

-- However these steps follow each other, while no buffer was dropped: what went to the file, then what the thread has taken, then the full
-- buffers and the current one are together all the lines that were appended, in order, each once.
pub Steps-all_text :
    (size : ℕ) (notice : ℕ → List ℕ) (s : AsyncLogging)
    → 0 < size
    → Steps size notice (started size) s
    → s.dropped ≡ 0
    → flatten s.output
        ++ (flatten (texts s.buffers_to_write)
            ++ (flatten (texts s.buffers) ++ to_string s.current_buffer))
      ≡ s.accepted
Steps-all_text size notice s h st z = (Steps-Inv h st).text_kept z

drop_many_kept :
    (notice : ℕ → List ℕ) (s : AsyncLogging)
    → ((drop_many notice s).running ≡ s.running)
      × ((drop_many notice s).current_buffer ≡ s.current_buffer)
drop_many_kept notice s = (ground arith, ground arith)

-- Writing is of no concern to the threads that append.
abbrev Written : AsyncLogging → AsyncLogging → Type 0
Written s t = (t.phase ≡ testing) × (t.running ≡ s.running) × (t.current_buffer ≡ s.current_buffer)

write_out-Written : (notice : ℕ → List ℕ) (s : AsyncLogging) → Safe (write_out notice s) (Written s)
unfolding write_out
write_out-Written notice s =
    let t = drop_many notice s in
    let (r, c) = drop_many_kept notice s in
    Safe->>= (assert (not (is_empty s.buffers_to_write))) _ _ λ a.
      Safe->>= (take_back t.new_buffer1 (take 2 t.buffers_to_write)) _ _
        λ one. Safe->>= (take_back t.new_buffer2 one.1) _ _ λ two. (refl, r, c)

-- A line that fits into the current buffer.
append_line_fits :
    {size : ℕ} (s : AsyncLogging) (line : List ℕ)
    → Inv size s
    → length line < avail s.current_buffer
    → Returns (append_line size s line) (λ t.
      Inv size t
      × ((t.phase ≡ s.phase) × (to_string t.current_buffer ≡ to_string s.current_buffer ++ line)))
unfolding append_line
append_line_fits {size} s line i h =
    let all = append_line-Inv s line (omega (arith, i.current_ok.size_eq)) i in
    let fits : ltb (length line) (avail s.current_buffer) ≡ true = ground arith in
    Returns-both (append_line size s line) (Inv size)
      (λ t. (t.phase ≡ s.phase) × (to_string t.current_buffer ≡ to_string s.current_buffer ++ line))
      all
      (Returns-then _ _ _ fits (
        Returns->>= (append s.current_buffer line) _ _ _ (append-IsBuffer line i.current_ok h)
          (λ b k. (refl, k.1))))

-- A line that is appended, and fits, while the thread writes, and then `stop`: the thread ends with the line still in
-- the current buffer, so that it never gets to the file.
pub stop-append_line :
    (size : ℕ) (notice : ℕ → List ℕ) (s : AsyncLogging) (line : List ℕ)
    → 0 < size
    → Steps size notice (started size) s
    → s.phase ≡ writing
    → length line < avail s.current_buffer
    → Returns
        (do t ← append_line size s line; u ← advance notice (stop t); advance notice u)
        (λ v.
          (v.phase ≡ finished) × (to_string v.current_buffer ≡ to_string s.current_buffer ++ line))
unfolding advance stop test_running
stop-append_line size notice s line z st p h =
    let i = Steps-Inv z st in
    Returns->>= (append_line size s line) _ _ _ (append_line_fits s line i h) (λ t (j, (e, text)).
      Returns->>= (part notice t.phase (stop t)) (Written (stop t)) _ _
        (subst (λ q. Returns (part notice q (stop t)) (Written (stop t))) (sym (e ∙ p))
          (Returns-mono (write_out notice (stop t)) _ _
            (Returns-Safe (write_out notice (stop t)) _ _
              (write_out-Inv notice (stop t) (e ∙ p) (stop-Inv t j))
              (write_out-Written notice (stop t)))
            (λ u k. k.1)))
        (λ u (at, r, c).
          subst
            (λ q. Returns (part notice q u) (λ v.
              (v.phase ≡ finished)
              × (to_string v.current_buffer ≡ to_string s.current_buffer ++ line)))
            (sym at) (Returns-else _ _ _ r (refl, ap to_string c ∙ text))))
