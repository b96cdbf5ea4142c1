-- ===== src/Log/AsyncLogging/Files.antt =====
-- log/AsyncLogging.cc on top of log/LogFile.cc: from the threads that append to the files.
use slack.Base.{ℕ, ◌<◌, ◌≡◌, List, [], ◌∷◌, ◌++◌, refl, sym, ap, ◌∙◌, append_assoc, append-nil}
use slack.Log.FixedBuffer.{to_string}
use slack.Log.LogFile.{LogFile, new_log_file, Call, append_all, flush}
use slack.Log.LogFile.Contents.{all_bytes, AreComplete, lines, append_all-all_bytes}
use slack.Log.AsyncLogging.{AsyncLogging, started, texts}
use slack.Log.AsyncLogging.Invariant.{flatten, flatten-append}
use slack.Log.AsyncLogging.Steps.{Steps, Steps-all_text}

-- What `threadFunc` does to its LogFile: in each round some texts are appended, and then the file is flushed.
unfoldable pub write_rounds : LogFile → List (List Call) → LogFile
unfolding append_all flush
write_rounds l [] = l
write_rounds l (r ∷ rs) = write_rounds (flush (append_all l r)) rs

abbrev pub call_lines : List Call → List (List ℕ)
call_lines [] = []
call_lines (c ∷ cs) = c.line ∷ call_lines cs

abbrev pub round_lines : List (List Call) → List (List ℕ)
round_lines [] = []
round_lines (r ∷ rs) = call_lines r ++ round_lines rs

abbrev pub AllComplete : List (List Call) → Type 0
AllComplete [] = Unit {0}
AllComplete (r ∷ rs) = AreComplete r × AllComplete rs

flatten-call_lines : (cs : List Call) → flatten (call_lines cs) ≡ lines cs
flatten-call_lines [] = refl
flatten-call_lines (c ∷ cs) = ap (λ l. c.line ++ l) (flatten-call_lines cs)

flush-all_bytes : (l : LogFile) → all_bytes (flush l) ≡ all_bytes l
unfolding flush
flush-all_bytes l = refl

write_rounds-all_bytes :
    (l : LogFile) (rs : List (List Call))
    → AllComplete rs
    → all_bytes (write_rounds l rs) ≡ all_bytes l ++ flatten (round_lines rs)
unfolding write_rounds
write_rounds-all_bytes l [] h = sym (append-nil (all_bytes l))
write_rounds-all_bytes l (r ∷ rs) (p, h) =
    write_rounds-all_bytes (flush (append_all l r)) rs h
    ∙ ap (λ b. b ++ flatten (round_lines rs))
        (flush-all_bytes (append_all l r)
          ∙ append_all-all_bytes l r p
          ∙ ap (λ b. all_bytes l ++ b) (sym (flatten-call_lines r)))
    ∙ append_assoc (all_bytes l) (flatten (call_lines r)) (flatten (round_lines rs))
    ∙ ap (λ b. all_bytes l ++ b) (sym (flatten-append (call_lines r) (round_lines rs)))

-- However appends, `stop` and the logging thread follow each other, while no buffer was dropped: if the thread's texts are appended to a new log
-- in rounds, and the writes take them, then all files from the oldest on, then what the thread has taken, the full buffers and the
-- current one are together all the lines that were appended, in order, each once.
pub write_rounds-accepted :
    (size : ℕ) (notice : ℕ → List ℕ) (s : AsyncLogging) (roll_size now : ℕ) (rs : List (List Call))
    → 0 < size
    → Steps size notice (started size) s
    → s.dropped ≡ 0
    → round_lines rs ≡ s.output
    → AllComplete rs
    → all_bytes (write_rounds (new_log_file roll_size 3 1024 now) rs)
        ++ (flatten (texts s.buffers_to_write)
            ++ (flatten (texts s.buffers) ++ to_string s.current_buffer))
      ≡ s.accepted
unfolding new_log_file
write_rounds-accepted size notice s roll_size now rs h st z e p =
    let waiting =
      flatten (texts s.buffers_to_write)
      ++ (flatten (texts s.buffers) ++ to_string s.current_buffer) in
    ap (λ b. b ++ waiting)
      (write_rounds-all_bytes (new_log_file roll_size 3 1024 now) rs p ∙ ap flatten e)
    ∙ Steps-all_text size notice s h st z
