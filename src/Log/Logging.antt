-- ===== src/Log/Logging.antt =====
-- log/Logging.h and Logging.cc: the line of a message, over LogStream. Parameters: `localtime_r` with the text that `snprintf` makes of
-- it, the text of the microseconds, `strerror_r`, and the text of the thread's id.
pub mod Lines
use slack.Std.Text.{codes}
use slack.Base.{
  ℕ, ◌/◌, ◌%◌, List, [], ◌∷◌, ◌++◌, Bool, true, false, not, Option, some, none, if◌then◌else◌,
  assert, ◌>>=◌, ◌>>◌, ◌==◌, length, pos,
}
use slack.Log.FixedBuffer.{on_array, to_string}
use slack.Log.LogStream.{Operand, integer, c_string, string, put_all, fmt}

pub data LogLevel : Type 0 where
  trace debug info warn error fatal : LogLevel

unfoldable pub level_name : LogLevel → List ℕ
level_name trace = codes "TRACE"
level_name debug = codes "DEBUG"
level_name info = codes "INFO"
level_name warn = codes "WARN"
level_name error = codes "ERROR"
level_name fatal = codes "FATAL"

abbrev pub is_fatal : LogLevel → Bool
is_fatal fatal = true
is_fatal l = false

abbrev pub has_slash : List ℕ → Bool
has_slash [] = false
has_slash (c ∷ cs) = if c == b'/' then true else has_slash cs

-- `SourceFile`: what stands behind the last slash.
unfoldable pub source_file : List ℕ → List ℕ
source_file [] = []
source_file (c ∷ cs) =
    let rest = source_file cs in if has_slash cs then rest else (if c == b'/' then cs else c ∷ cs)

-- `t_lastSecond` and `t_time` of a thread.
pub record TimeCache : Type 0 where
  pub last_second : ℕ
  pub time : List ℕ

abbrev pub new_cache : TimeCache
new_cache = record { last_second = 0; time = [] }

-- A use of one of the logging macros: the constructor's arguments, `now`, `errno` where the constructor takes it and 0 elsewhere, what the array of
-- the stream happens to hold, and the operands.
pub record Message : Type 0 where
  pub level : LogLevel
  pub file : List ℕ
  pub line : ℕ
  pub func : Option (List ℕ)
  pub save_errno : ℕ
  pub micro_seconds : ℕ
  pub array : List ℕ
  pub operands : List Operand

-- The helper class `T`.
abbrev pub known_length : List ℕ → ℕ → Option (List ℕ)
known_length text len = do assert (length text == len); some text

abbrev pub micro_seconds_per_second : ℕ
micro_seconds_per_second = 1000000

module _ (local_time micros_text strerror : ℕ → List ℕ) (tid : List ℕ) where
  unfoldable pub new_second : TimeCache → ℕ → Option TimeCache
  new_second c seconds =
      if not (seconds == c.last_second)
      then (do
        assert (length (local_time seconds) == 17)
        some (record { last_second = seconds; time = local_time seconds }))
      else some c

  unfoldable pub format_time : TimeCache → ℕ → Option (TimeCache × List Operand)
  unfolding new_second fmt
  format_time c micro_seconds = do
    c' ← new_second c (micro_seconds / micro_seconds_per_second)
    us ← fmt (micros_text (micro_seconds % micro_seconds_per_second))
    assert (length us == 9)
    time ← known_length c'.time 17
    rest ← known_length us 9
    some (c', string time ∷ string rest ∷ [])

  abbrev pub errno_operands : ℕ → List Operand
  errno_operands e =
      if not (e == 0)
      then c_string (some (strerror e))
        ∷ c_string (some (codes " (errno="))
        ∷ integer (pos e)
        ∷ c_string (some (codes ") "))
        ∷ []
      else []

  -- The constructor of `Logger::Impl`.
  unfoldable pub impl : TimeCache → Message → Option (TimeCache × List Operand)
  unfolding format_time level_name
  impl c m = do
    (c', times) ← format_time c m.micro_seconds
    id ← known_length tid 6
    name ← known_length (level_name m.level) (length (level_name m.level))
    some (
      c',
      times
          ++ (string id ∷ string name ∷ c_string (some (codes " ")) ∷ errno_operands m.save_errno),
    )

  abbrev pub func_operands : Option (List ℕ) → List Operand
  func_operands none = []
  func_operands (some f) = c_string (some f) ∷ c_string (some (codes " ")) ∷ []

  unfoldable pub finish : Message → List Operand
  unfolding source_file
  finish m =
      c_string (some (codes " - "))
      ∷ string (source_file m.file)
      ∷ c_string (some (codes ":"))
      ∷ integer (pos m.line)
      ∷ c_string (some (codes "\n"))
      ∷ []

  -- A logger from its constructor to its destructor: the text for `g_output`, and whether `g_flush` and `abort` follow.
  unfoldable pub log : TimeCache → Message → Option (TimeCache × List ℕ × Bool)
  unfolding impl finish put_all
  log c m = do
    (c', head) ← impl c m
    b ← put_all (on_array m.array) (head ++ (func_operands m.func ++ (m.operands ++ finish m)))
    some (c', to_string b, is_fatal m.level)

  -- The messages of a thread, one after the other; a fatal one is the last.
  unfoldable pub log_all : TimeCache → List Message → Option (List (List ℕ))
  unfolding log
  log_all c [] = some []
  log_all c (m ∷ ms) = do
    (c', text, aborts) ← log c m
    let rest = log_all c' ms
    if aborts then some (text ∷ []) else (do texts ← rest; some (text ∷ texts))
