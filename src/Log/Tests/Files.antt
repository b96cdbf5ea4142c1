-- ===== src/Log/Tests/Files.antt =====
-- The theorems of log/LogFile.cc and AsyncLogging.cc at concrete inputs.
use slack.Base.{
  ℕ, ◌+◌, ◌≤◌, ◌≡◌, ◌⊎◌, List, [], ◌∷◌, ◌++◌, Option, some, none, ◌>>=◌, arith, refl, Returns,
}
use slack.Std.Text.{codes}
use slack.Log.FixedBuffer.{append, store, to_string}
use slack.Log.LogFile.{
  append_file, write_rest, roll_file, check_time, new_log_file, append_unlocked, Call, append_all,
}
use slack.Log.LogFile.Contents.{all_bytes, append_all-all_bytes}
use slack.Log.LogFile.Rolls.{append_unlocked-written_bytes}
use slack.Log.AsyncLogging.{
  AsyncLogging, started, append_line, stop, test_running, collect, write_out, advance, texts,
  finished,
}
use slack.Log.AsyncLogging.Invariant.{flatten}
use slack.Log.AsyncLogging.Steps.{
  Steps, Step, done, more, appends, advances, Steps-returns, stop-append_line,
}
use slack.Log.AsyncLogging.Files.{write_rounds, write_rounds-accepted}

-- Two lines of a log whose files hold three bytes; the first is written in two pieces.
abbrev two_calls : List Call
two_calls =
    record { writes = 1 ∷ 3 ∷ []; now = 100001; roll_now = 100002; line = codes "ab, " }
    ∷ record { writes = 2 ∷ []; now = 100003; roll_now = 100003; line = codes "cd" }
    ∷ []

append_all-all_bytes_example :
    all_bytes (append_all (new_log_file 3 3 1024 100000) two_calls) ≡ codes "ab, cd"
unfolding append_all append_unlocked append_file write_rest roll_file check_time new_log_file
append_all-all_bytes_example =
    append_all-all_bytes (new_log_file 3 3 1024 100000) two_calls
      (((omega arith, tt)), omega arith, ((tt, omega arith, tt)))

append_unlocked-written_bytes_example :
    let t = append_unlocked (4 ∷ []) 100001 100002 (new_log_file 3 3 1024 100000) (codes "ab, ") in
    (t.file.written_bytes ≤ t.roll_size)
    ⊎ (100002 ≤ (new_log_file 3 3 1024 100000).last_roll)
      × (t.file.written_bytes ≡ (new_log_file 3 3 1024 100000).file.written_bytes + 4)
append_unlocked-written_bytes_example =
    append_unlocked-written_bytes (4 ∷ []) 100001 100002 (new_log_file 3 3 1024 100000)
      (codes "ab, ")

abbrev notice : ℕ → List ℕ
notice n = codes "Dropped log message\n"

abbrev or_same : AsyncLogging → Option AsyncLogging → AsyncLogging
or_same s none = s
or_same s (some t) = t

-- A line is appended, and the thread takes it.
abbrev with_line : AsyncLogging
with_line = or_same (started 8) (append_line 8 (started 8) (codes "abc"))

abbrev at_critical_section : AsyncLogging
at_critical_section = or_same with_line (advance notice with_line)

abbrev at_writing : AsyncLogging
at_writing = or_same at_critical_section (advance notice at_critical_section)

abbrev at_test : AsyncLogging
at_test = or_same at_writing (advance notice at_writing)

at_writing-Steps : Steps 8 notice (started 8) at_writing
unfolding append_line append store advance test_running collect
at_writing-Steps =
    more (more (more done (appends (codes "abc") (omega arith) refl)) (advances refl))
      (advances refl)

at_test-Steps : Steps 8 notice (started 8) at_test
unfolding append_line append store advance test_running collect write_out
at_test-Steps = more at_writing-Steps (advances refl)

Steps-returns_example :
    Returns (append_line 8 at_writing (codes "de")) (Step 8 notice at_writing)
    × Returns (advance notice at_writing) (Step 8 notice at_writing)
Steps-returns_example =
    Steps-returns 8 notice at_writing (codes "de") (omega arith) at_writing-Steps

stop-append_line_example :
    Returns
      (do t ← append_line 8 at_writing (codes "de"); u ← advance notice (stop t); advance notice u)
      (λ v.
        (v.phase ≡ finished)
        × (to_string v.current_buffer ≡ to_string at_writing.current_buffer ++ codes "de"))
unfolding append_line append store advance test_running collect
stop-append_line_example =
    stop-append_line 8 notice at_writing (codes "de") (omega arith) at_writing-Steps refl
      (omega arith)

write_rounds-accepted_example :
    all_bytes (
        write_rounds (new_log_file 2 3 1024 100000) (
          (record { writes = 3 ∷ []; now = 100001; roll_now = 100002; line = codes "abc" } ∷ [])
          ∷ []))
      ++ (flatten (texts at_test.buffers_to_write)
          ++ (flatten (texts at_test.buffers) ++ to_string at_test.current_buffer))
    ≡ codes "abc"
unfolding append_line append store advance test_running collect write_out
write_rounds-accepted_example =
    write_rounds-accepted 8 notice at_test 2 100000
      ((record { writes = 3 ∷ []; now = 100001; roll_now = 100002; line = codes "abc" } ∷ []) ∷ [])
      (omega arith) at_test-Steps refl refl ((tt, omega arith, tt), tt)
