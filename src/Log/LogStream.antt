-- ===== src/Log/LogStream.antt =====
-- log/LogStream.h and LogStream.cc: the insertion operators over a `FixedBuffer`. `snprintf` is a
-- parameter: the text that it would give with no bound on it.
pub mod Refine
use slack.Base.{
  ℕ, ◌+◌, ◌-◌, List, [], ◌∷◌, ◌++◌, Bool, true, false, Option, some, none, if◌then◌else◌, assert,
  ◌>>=◌, ◌>>◌, ltb, leb, length, take, ℤ,
}
use slack.Std.Text.{codes}
use slack.Log.Convert.{convert, convert_hex}
use slack.Log.FixedBuffer.{FixedBuffer, avail, add, reset, store, append, to_string}

abbrev pub max_numeric_size : ℕ
max_numeric_size = 32

-- The operand of an `operator<<`, by the overload that it selects. `short` and the wider types are delegated to one case, `integer`. `real` has the text of `%.12g`.
pub data Operand : Type 0 where
  truth : Bool → Operand
  unsigned_short : ℕ → Operand
  integer : ℤ → Operand
  pointer : ℕ → Operand
  real : List ℕ → Operand
  char : ℕ → Operand
  c_string : Option (List ℕ) → Operand
  string : List ℕ → Operand
  buffer : FixedBuffer → Operand

-- What a bounded `snprintf` leaves in the array; it returns the length without the bound.
abbrev bounded : ℕ → List ℕ → List ℕ
bounded n text = take (n - 1) text ++ 0 ∷ []

unfoldable pub format_integer : FixedBuffer → ℤ → Option FixedBuffer
format_integer b v =
    if leb max_numeric_size (avail b)
    then (do b' ← store b (convert v ++ 0 ∷ []); some (add b' (length (convert v))))
    else some b

unfoldable pub put_pointer : FixedBuffer → ℕ → Option FixedBuffer
put_pointer b v =
    if leb max_numeric_size (avail b)
    then (do
      b' ← store b ((codes "0x" ++ convert_hex v) ++ 0 ∷ [])
      some (add b' (length (convert_hex v) + 2)))
    else some b

unfoldable pub put_double : FixedBuffer → List ℕ → Option FixedBuffer
put_double b text =
    if leb max_numeric_size (avail b)
    then (do b' ← store b (bounded max_numeric_size text); some (add b' (length text)))
    else some b

abbrev or_null : Option (List ℕ) → List ℕ
or_null none = codes "(null)"
or_null (some v) = v

-- `operator<<`. The one for `unsigned short` calls itself without end, until the stack overflows, so it gives no result.
unfoldable pub put : FixedBuffer → Operand → Option FixedBuffer
unfolding format_integer put_pointer put_double
put b (truth v) = append b (if v then codes "1" else codes "0")
put b (unsigned_short v) = none
put b (integer v) = format_integer b v
put b (pointer v) = put_pointer b v
put b (real text) = put_double b text
put b (char v) = append b (v ∷ [])
put b (c_string v) = append b (or_null v)
put b (string v) = append b v
put b (buffer v) = append b (to_string v)

unfoldable pub put_all : FixedBuffer → List Operand → Option FixedBuffer
unfolding put
put_all b [] = some b
put_all b (v ∷ vs) = do b' ← put b v; put_all b' vs

-- `Fmt`: a text in an array of 32 characters, and `operator<<` for it.
unfoldable pub fmt : List ℕ → Option (List ℕ)
fmt text = do assert (ltb (length text) 32); some text

unfoldable pub put_fmt : FixedBuffer → List ℕ → Option FixedBuffer
unfolding fmt
put_fmt b text = do f ← fmt text; append b f
