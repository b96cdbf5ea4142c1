-- ===== src/Log/LogStream/Refine.antt =====
-- The insertion operators of log/LogStream.cc against a text that only grows.
use slack.Base.{
  ℕ, ◌+◌, ◌-◌, ◌^◌, ◌≤◌, ◌<◌, ◌≡◌, List, [], ◌∷◌, ◌++◌, Bool, true, false, some, if◌then◌else◌,
  ◌>>=◌, ltb, leb, length, length-append, leb→le, ltb→lt, take, take_all, abs, pos, arith, refl,
  sym, ap, ◌∙◌, subst, append-nil, Returns, Returns->>=, Returns-mono, append_assoc, Bool-cases,
  inl, inr,
}
use slack.Std.Text.{codes}
use slack.Log.Convert.{convert, convert_hex}
use slack.Log.Convert.Digits.{length-convert, length-convert_hex}
use slack.Log.FixedBuffer.{
  FixedBuffer, small_buffer, avail, add, store, append, to_string, Shows, cur-Shows, store-Shows,
  on_array, debug_string,
}
use slack.Log.LogStream.{
  Operand, truth, unsigned_short, integer, pointer, real, char, c_string, string, buffer, put,
  put_all, or_null, format_integer, put_pointer, put_double,
}

-- An operand for which the insertion ends: no `unsigned short`, integers of 64 bits, and what `%.12g` gives.
abbrev pub IsOperand : Operand → Type 0
IsOperand (unsigned_short v) = ⊥
IsOperand (integer v) = abs v < 2 ^ 64
IsOperand (pointer v) = v < 2 ^ 64
IsOperand (real text) = length text < 32
IsOperand v = Unit {0}

abbrev pub AreOperands : List Operand → Type 0
AreOperands [] = Unit {0}
AreOperands (v ∷ vs) = IsOperand v × AreOperands vs

-- The whole text of an operand.
abbrev pub text_of : Operand → List ℕ
text_of (truth v) = if v then codes "1" else codes "0"
text_of (unsigned_short v) = convert (pos v)
text_of (integer v) = convert v
text_of (pointer v) = codes "0x" ++ convert_hex v
text_of (real text) = text
text_of (char v) = v ∷ []
text_of (c_string v) = or_null v
text_of (string v) = v
text_of (buffer v) = to_string v

abbrev is_numeric : Operand → Bool
is_numeric (unsigned_short v) = true
is_numeric (integer v) = true
is_numeric (pointer v) = true
is_numeric (real text) = true
is_numeric v = false

-- A number asks for 32 free characters, and any other text for one more than it has.
abbrev pub has_room : Operand → ℕ → Bool
has_room v n = if is_numeric v then leb 32 n else ltb (length (text_of v)) n

-- Behind a text, the whole of the operand where there is room, and else nothing.
abbrev pub extended : ℕ → List ℕ → Operand → List ℕ
extended size out v = if has_room v (size - length out) then out ++ text_of v else out

abbrev pub extended_all : ℕ → List ℕ → List Operand → List ℕ
extended_all size out [] = out
extended_all size out (v ∷ vs) = extended_all size (extended size out v) vs

abbrev Grown : ℕ → List ℕ → List ℕ → Bool → FixedBuffer → Type 0
Grown size out cs fits b = Shows size b (if fits then out ++ cs else out)

room_eq :
    {size : ℕ} {b : FixedBuffer} {out : List ℕ} → Shows size b out → avail b ≡ size - length out
room_eq h = omega (arith, h.size_eq, cur-Shows h)

stored-Shows :
    {size : ℕ} {b : FixedBuffer} {out : List ℕ} (cs ds : List ℕ) (len : ℕ)
    → Shows size b out
    → length out + length cs < size
    → length out + length (cs ++ ds) ≤ size
    → len ≡ length cs
    → Returns (do b' ← store b (cs ++ ds); some (add b' len)) (λ b'. Shows size b' (out ++ cs))
stored-Shows {size} {b} {out} cs ds len h lt le e =
    Returns->>= (store b (cs ++ ds)) _ _ _ (store-Shows cs ds h lt le)
      (λ b' s. subst (λ n. Shows size (add b' n) (out ++ cs)) (sym e) s)

append-Shows :
    {size : ℕ} {b : FixedBuffer} {out : List ℕ} (cs : List ℕ)
    → Shows size b out
    → Returns (append b cs) (Grown size out cs (ltb (length cs) (size - length out)))
unfolding append
append-Shows {size} {b} {out} cs h =
    rw (room_eq h) (elim (Bool-cases (ltb (length cs) (size - length out))) [
      | inl q ↦ rw q (
          subst
            (λ l.
              Returns (do b' ← store b l; some (add b' (length cs)))
                (λ b'. Shows size b' (out ++ cs)))
            (append-nil cs)
            (stored-Shows cs [] (length cs) h (ground arith)
              (omega (arith, length-append cs [], ltb→lt (length cs) _ q)) refl))
      | inr q ↦ rw q h
    ])

-- A number and its terminator, where 32 characters are free.
number-Shows :
    {size : ℕ} {b : FixedBuffer} {out : List ℕ} (cs : List ℕ) (len : ℕ)
    → Shows size b out
    → length cs < 32
    → len ≡ length cs
    → Returns
        (if leb 32 (avail b) then (do b' ← store b (cs ++ 0 ∷ []); some (add b' len)) else some b)
        (Grown size out cs (leb 32 (size - length out)))
number-Shows {size} {b} {out} cs len h lt e =
    rw (room_eq h) (elim (Bool-cases (leb 32 (size - length out))) [
      | inl q ↦ rw q (
          stored-Shows cs (0 ∷ []) len h (ground arith)
            (omega (arith, length-append cs (0 ∷ []), leb→le 32 _ q)) e)
      | inr q ↦ rw q h
    ])

put-Shows :
    {size : ℕ} {b : FixedBuffer} {out : List ℕ} (v : Operand)
    → Shows size b out
    → IsOperand v
    → Returns (put b v) (λ b'. Shows size b' (extended size out v))
unfolding put format_integer put_pointer put_double
put-Shows (truth v) h w = append-Shows _ h
put-Shows (unsigned_short v) h w = absurd w
put-Shows (integer v) h w = number-Shows (convert v) _ h (omega (arith, length-convert v 19)) refl
put-Shows (pointer v) h w =
    number-Shows (codes "0x" ++ convert_hex v) _ h (omega (arith, length-convert_hex v 15))
      (omega arith)
put-Shows {size} {b} {out} (real text) h w =
    subst
      (λ l.
        Returns
          (if leb 32 (avail b)
            then (do b' ← store b (l ++ 0 ∷ []); some (add b' (length text)))
            else some b)
          (λ b'. Shows size b' (extended size out (real text))))
      (sym (take_all 31 text (omega arith))) (number-Shows text (length text) h w refl)
put-Shows (char v) h w = append-Shows _ h
put-Shows (c_string v) h w = append-Shows _ h
put-Shows (string v) h w = append-Shows _ h
put-Shows (buffer v) h w = append-Shows _ h

-- A stream of `size` characters that shows `out` takes any operands but an `unsigned short`: no write leaves the array, and
-- in the end it shows what `extended_all` says, with room for a terminator behind it.
pub put_all-Shows :
    {size : ℕ} {b : FixedBuffer} {out : List ℕ} (vs : List Operand)
    → Shows size b out
    → AreOperands vs
    → Returns (put_all b vs) (λ b'. Shows size b' (extended_all size out vs))
unfolding put_all
put_all-Shows [] h w = h
put_all-Shows {b = b} (v ∷ vs) h w =
    Returns->>= (put b v) _ _ _ (put-Shows v h w.0) (λ b' s. put_all-Shows {b = b'} vs s w.1)

abbrev pub all_text : List Operand → List ℕ
all_text [] = []
all_text (v ∷ vs) = text_of v ++ all_text vs

fits_room : (v : Operand) (n : ℕ) → length (text_of v) + 32 ≤ n → has_room v n ≡ true
fits_room v n h = ground arith

-- Operands whose texts leave 32 characters free are shown whole, one behind the other.
extended_all-all_text :
    (size : ℕ) (out : List ℕ) (vs : List Operand)
    → length out + length (all_text vs) + 32 ≤ size
    → extended_all size out vs ≡ out ++ all_text vs
extended_all-all_text size out [] h = sym (append-nil out)
extended_all-all_text size out (v ∷ vs) h =
    rw (fits_room v (size - length out) (omega (arith, length-append (text_of v) (all_text vs)))) (
      extended_all-all_text size (out ++ text_of v) vs
        (omega (arith, length-append (text_of v) (all_text vs), length-append out (text_of v)))
      ∙ append_assoc out (text_of v) (all_text vs))

debug_string-Shows :
    {size : ℕ} {b : FixedBuffer} {out : List ℕ}
    → Shows size b out
    → Returns (debug_string b) (λ d. to_string d ≡ out)
unfolding debug_string store
debug_string-Shows {size} {b} {out} h =
    Returns-mono (store b (0 ∷ [])) (λ d. Shows size (add d 0) (out ++ [])) _
      (store-Shows [] (0 ∷ []) h (omega (arith, h.room, cur-Shows h))
        (omega (arith, h.room, cur-Shows h)))
      (λ d s.
        let same : d.cur ≡ d.cur + 0 = omega arith in
        ap (λ n. take n d.array) same ∙ s.text_eq ∙ append-nil out)

-- A new stream, whatever its array of 4000 characters held, takes any operands but an `unsigned short`, whose operator does not
-- end: no write leaves the array, integers of 64 bits and numbers that `%.12g` gives in fewer than 32 characters included. It shows the operands for which
-- there was room, each whole, and `debugString` has room for its terminator and leaves the text as it is.
pub put_all_lem :
    (array : List ℕ) (vs : List Operand)
    → length array ≡ small_buffer
    → AreOperands vs
    → Returns (put_all (on_array array) vs) (λ b.
      (to_string b ≡ extended_all small_buffer [] vs)
      × Returns (debug_string b) (λ d. to_string d ≡ to_string b))
put_all_lem array vs e w =
    Returns-mono (put_all (on_array array) vs) _ _
      (put_all-Shows vs (record { size_eq = e; text_eq = refl; room = omega arith }) w)
      (λ b s. (
        s.text_eq,
        Returns-mono (debug_string b) _ _ (debug_string-Shows s) (λ d p. p ∙ sym s.text_eq),
      ))

-- Operands whose texts leave 32 of the 4000 characters free are shown whole, one behind the other.
pub put_all-all_text :
    (array : List ℕ) (vs : List Operand)
    → length array ≡ small_buffer
    → AreOperands vs
    → length (all_text vs) + 32 ≤ small_buffer
    → Returns (put_all (on_array array) vs) (λ b. to_string b ≡ all_text vs)
put_all-all_text array vs e w h =
    Returns-mono (put_all (on_array array) vs) _ _ (put_all_lem array vs e w)
      (λ b p. p.0 ∙ extended_all-all_text small_buffer [] vs (omega arith))
