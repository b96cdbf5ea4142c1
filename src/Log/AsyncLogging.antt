-- ===== src/Log/AsyncLogging.antt =====
-- log/AsyncLogging.cc: threads append to a buffer, and one thread writes full buffers to a LogFile. Each
-- critical section is one call. A pointer that was moved from is `none`, and so is a failing `assert`.
pub mod Invariant
pub mod Collect
pub mod Writing
pub mod Steps
pub mod Files
use slack.Base.{
  ℕ, suc, ◌+◌, ◌-◌, List, [], ◌∷◌, ◌++◌, Bool, true, false, not, ◌&&◌, Option, some, none,
  if◌then◌else◌, assert, ◌>>=◌, ◌>>◌, ltb, ◌==◌, length, replicate, take,
}
use slack.Log.FixedBuffer.{FixedBuffer, on_array, avail, reset, append, to_string}

-- Where the logging thread stands: before the test of `running_`, before its critical section, behind it.
pub data Phase : Type 0 where
  testing collecting writing finished : Phase

-- `output` has the texts that were given to `LogFile::append`. `accepted` records all that was appended,
-- and `dropped` counts the buffers that were thrown away.
pub record AsyncLogging : Type 0 where
  pub current_buffer : FixedBuffer
  pub next_buffer : Option FixedBuffer
  pub buffers : List FixedBuffer
  pub running : Bool
  pub phase : Phase
  pub new_buffer1 : Option FixedBuffer
  pub new_buffer2 : Option FixedBuffer
  pub buffers_to_write : List FixedBuffer
  pub output : List (List ℕ)
  pub accepted : List ℕ
  pub dropped : ℕ

-- A new buffer of so many characters (kLargeBuffer in the code), cleared.
abbrev pub new_buffer : ℕ → FixedBuffer
new_buffer size = on_array (replicate size 0)

-- The constructor, `start` and `threadFunc` up to its loop.
abbrev pub started : ℕ → AsyncLogging
started size = record {
  current_buffer = new_buffer size;
  next_buffer = some (new_buffer size);
  buffers = [];
  running = true;
  phase = testing;
  new_buffer1 = some (new_buffer size);
  new_buffer2 = some (new_buffer size);
  buffers_to_write = [];
  output = [];
  accepted = [];
  dropped = 0;
}

abbrev pub or_new : ℕ → Option FixedBuffer → FixedBuffer
or_new size none = new_buffer size
or_new size (some b) = b

-- `AsyncLogging::append`
unfoldable pub append_line : ℕ → AsyncLogging → List ℕ → Option AsyncLogging
append_line size s line =
    if ltb (length line) (avail s.current_buffer)
    then (do
      b ← append s.current_buffer line
      some (record s { current_buffer = b; accepted = s.accepted ++ line }))
    else (do
      b ← append (or_new size s.next_buffer) line
      some (record s {
        buffers = s.buffers ++ (s.current_buffer ∷ []);
        current_buffer = b;
        next_buffer = none;
        accepted = s.accepted ++ line;
      }))

unfoldable pub stop : AsyncLogging → AsyncLogging
stop s = record s { running = false }

abbrev pub is_empty : List FixedBuffer → Bool
is_empty [] = true
is_empty (b ∷ bs) = false

-- The test of the loop, and the assertions behind it.
unfoldable pub test_running : AsyncLogging → Option AsyncLogging
test_running s =
    if s.running
    then (do
      one ← s.new_buffer1
      two ← s.new_buffer2
      assert (two.cur == 0)
      assert (is_empty s.buffers_to_write)
      some (record s { phase = collecting }))
    else some (record s { phase = finished })

-- Where there is none yet, the second new buffer becomes the next one.
abbrev pub refill : Option FixedBuffer → AsyncLogging → AsyncLogging
refill none s = record s { next_buffer = s.new_buffer2; new_buffer2 = none }
refill (some b) s = s

-- The critical section of the logging thread.
unfoldable pub collect : AsyncLogging → Option AsyncLogging
collect s = do
  one ← s.new_buffer1
  some (
      refill s.next_buffer (record s {
        buffers_to_write = s.buffers ++ (s.current_buffer ∷ []);
        buffers = s.buffers_to_write;
        current_buffer = one;
        new_buffer1 = none;
        phase = writing;
      }))

abbrev pub texts : List FixedBuffer → List (List ℕ)
texts [] = []
texts (b ∷ bs) = to_string b ∷ texts bs

-- Too many buffers: a notice, and only the first two are kept.
abbrev pub drop_many : (ℕ → List ℕ) → AsyncLogging → AsyncLogging
drop_many notice s =
    if ltb 25 (length s.buffers_to_write)
    then record s {
      output = s.output ++ (notice (length s.buffers_to_write - 2) ∷ []);
      buffers_to_write = take 2 s.buffers_to_write;
      dropped = s.dropped + (length s.buffers_to_write - 2);
    }
    else s

-- `std::vector::back` and `pop_back`.
abbrev pub last : List FixedBuffer → Option (FixedBuffer × List FixedBuffer)
last [] = none
last (b ∷ []) = some (b, [])
last (b ∷ c ∷ bs) = do (l, rest) ← last (c ∷ bs); some (l, b ∷ rest)

-- A buffer that was given away is replaced by one that was written.
abbrev pub take_back :
    Option FixedBuffer → List FixedBuffer → Option (FixedBuffer × List FixedBuffer)
take_back (some b) bs = some (b, bs)
take_back none bs = do assert (not (is_empty bs)); (b, rest) ← last bs; some (reset b, rest)

-- The rest of a round, with the text of the notice as a parameter.
unfoldable pub write_out : (ℕ → List ℕ) → AsyncLogging → Option AsyncLogging
write_out notice s = do
  assert (not (is_empty s.buffers_to_write))
  let t = drop_many notice s
  (one, rest) ← take_back t.new_buffer1 (take 2 t.buffers_to_write)
  (two, others) ← take_back t.new_buffer2 rest
  some (record t {
    output = t.output ++ texts t.buffers_to_write;
    new_buffer1 = some one;
    new_buffer2 = some two;
    buffers_to_write = [];
    phase = testing;
  })

-- The next part of `threadFunc`, by where it stands.
abbrev pub part : (ℕ → List ℕ) → Phase → AsyncLogging → Option AsyncLogging
part notice testing s = test_running s
part notice collecting s = collect s
part notice writing s = write_out notice s
part notice finished s = some s

unfoldable pub advance : (ℕ → List ℕ) → AsyncLogging → Option AsyncLogging
advance notice s = part notice s.phase s
