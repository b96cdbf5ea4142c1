-- ===== src/Log/LogFile.antt =====
-- log/LogFile.cc: files that follow each other. `fwrite_unlocked` is a parameter: how many bytes
-- each of its calls takes. So is `time`; times are seconds.
pub mod Contents
pub mod Rolls
use slack.Base.{
  ℕ, zero, suc, ◌+◌, ◌-◌, ◌*◌, ◌/◌, List, [], ◌∷◌, ◌++◌, Bool, true, false, not, Option, some, none,
  if◌then◌else◌, ltb, leb, min, ◌==◌, length, take, drop,
}

-- `LogFile::File`, with what its stream has taken, and how much of that was flushed.
pub record File : Type 0 where
  pub created : ℕ
  pub taken : List ℕ
  pub flushed : ℕ
  pub written_bytes : ℕ

abbrev pub new_file : ℕ → File
new_file now = record { created = now; taken = []; flushed = 0; written_bytes = 0 }

-- The loop of `File::append` behind its first write; it ends at a write that takes nothing. Writes that are not
-- listed take nothing.
unfoldable pub write_rest : List ℕ → List ℕ → List ℕ
write_rest xs [] = []
write_rest [] (c ∷ cs) = []
write_rest (x ∷ xs) (c ∷ cs) =
    let rest = write_rest xs (drop x (c ∷ cs)) in if x == 0 then [] else take x (c ∷ cs) ++ rest

abbrev pub first_write : List ℕ → ℕ
first_write [] = 0
first_write (x ∷ xs) = x

abbrev pub later_writes : List ℕ → List ℕ
later_writes [] = []
later_writes (x ∷ xs) = xs

unfoldable pub append_file : List ℕ → File → List ℕ → File
unfolding write_rest
append_file writes f line =
    let n = first_write writes in
    record f {
      taken = f.taken ++ (take n line ++ write_rest (later_writes writes) (drop n line));
      written_bytes = f.written_bytes + length line;
    }

abbrev pub flush_file : File → File
flush_file f = record f { flushed = length f.taken }

abbrev pub roll_per_seconds : ℕ
roll_per_seconds = 60 * 60 * 24

-- `older` are the files that were closed, the last one first.
pub record LogFile : Type 0 where
  pub roll_size : ℕ
  pub flush_interval : ℕ
  pub check_every_n : ℕ
  pub count : ℕ
  pub start_of_period : ℕ
  pub last_roll : ℕ
  pub last_flush : ℕ
  pub file : File
  pub older : List File

abbrev pub start_of_day : ℕ → ℕ
start_of_day now = now / roll_per_seconds * roll_per_seconds

-- `rollFile`, at a time that it reads itself. Closing a file flushes it.
unfoldable pub roll_file : LogFile → ℕ → LogFile
roll_file l now =
    if ltb l.last_roll now
    then record l {
      last_roll = now;
      last_flush = now;
      start_of_period = start_of_day now;
      file = new_file now;
      older = flush_file l.file ∷ l.older;
    }
    else l

-- The constructor, at a time after the epoch.
unfoldable pub new_log_file : ℕ → ℕ → ℕ → ℕ → LogFile
new_log_file roll_size flush_interval check_every_n now = record {
  roll_size = roll_size;
  flush_interval = flush_interval;
  check_every_n = check_every_n;
  count = 0;
  start_of_period = start_of_day now;
  last_roll = now;
  last_flush = now;
  file = new_file now;
  older = [];
}

-- What `append_unlocked` does every so many lines: it rolls at another day, or flushes.
unfoldable pub check_time : LogFile → ℕ → ℕ → LogFile
unfolding roll_file
check_time l now roll_now =
    if not (start_of_day now == l.start_of_period)
    then roll_file l roll_now
    else (if ltb l.flush_interval (now - l.last_flush)
        then record l { last_flush = now; file = flush_file l.file }
        else l)

-- `append_unlocked`, where `now` is the time that it reads, and `roll_now` the one that `rollFile` reads.
unfoldable pub append_unlocked : List ℕ → ℕ → ℕ → LogFile → List ℕ → LogFile
unfolding append_file roll_file check_time
append_unlocked writes now roll_now l line =
    let t = record l { file = append_file writes l.file line } in
    if ltb t.roll_size t.file.written_bytes
    then roll_file t roll_now
    else (if leb t.check_every_n (t.count + 1)
        then check_time (record t { count = 0 }) now roll_now
        else record t { count = t.count + 1 })

unfoldable pub flush : LogFile → LogFile
flush l = record l { file = flush_file l.file }

-- A call of `append`, with what it finds.
pub record Call : Type 0 where
  pub writes : List ℕ
  pub now : ℕ
  pub roll_now : ℕ
  pub line : List ℕ

unfoldable pub append_all : LogFile → List Call → LogFile
unfolding append_unlocked
append_all l [] = l
append_all l (c ∷ cs) = append_all (append_unlocked c.writes c.now c.roll_now l c.line) cs
