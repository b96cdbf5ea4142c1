-- ===== src/Log/FixedBuffer.antt =====
-- `FixedBuffer` of log/LogStream.h: an array of characters and how many of them are in use. `none` is an
-- access outside the array.
use slack.Base.{
  ℕ, ◌+◌, ◌-◌, ◌≤◌, ◌<◌, ◌≡◌, List, [], ◌∷◌, ◌++◌, Option, some, if◌then◌else◌, assert, ◌>>=◌, ◌>>◌,
  ltb, leb, length, take, drop, overwrite, length-overwrite, length-append, append_assoc, true,
  overwrite_lem, take-append_add, take-append_length, length-take, arith, refl, ap, ◌∙◌, Returns,
}

pub record FixedBuffer : Type 0 where
  pub array : List ℕ
  pub cur : ℕ

abbrev pub small_buffer : ℕ
small_buffer = 4000

-- The constructor leaves the array as it finds it.
abbrev pub on_array : List ℕ → FixedBuffer
on_array array = record { array = array; cur = 0 }

abbrev pub avail : FixedBuffer → ℕ
avail b = length b.array - b.cur

abbrev pub add : FixedBuffer → ℕ → FixedBuffer
add b len = record b { cur = b.cur + len }

abbrev pub reset : FixedBuffer → FixedBuffer
reset b = record b { cur = 0 }

-- Characters written from `current()` on.
unfoldable pub store : FixedBuffer → List ℕ → Option FixedBuffer
store b cs = do
  assert (leb (b.cur + length cs) (length b.array))
  some (record b { array = overwrite b.array b.cur cs })

unfoldable pub append : FixedBuffer → List ℕ → Option FixedBuffer
append b cs =
    if ltb (length cs) (avail b) then (do b' ← store b cs; some (add b' (length cs))) else some b

-- `toString` and `toStringPiece`.
abbrev pub to_string : FixedBuffer → List ℕ
to_string b = take b.cur b.array

-- `debugString` writes a terminator at `cur_`.
unfoldable pub debug_string : FixedBuffer → Option FixedBuffer
unfolding store
debug_string b = store b (0 ∷ [])

-- The array has `size` characters, `out` stands in it, and there is room behind.
pub record Shows (size : ℕ) (b : FixedBuffer) (out : List ℕ) : Type 0 where
  pub size_eq : length b.array ≡ size
  pub text_eq : to_string b ≡ out
  pub room : b.cur < size

pub cur-Shows : {size : ℕ} {b : FixedBuffer} {out : List ℕ} → Shows size b out → b.cur ≡ length out
cur-Shows {size} {b} h =
    omega (arith, length-take b.cur b.array, h.size_eq, h.room) ∙ ap length h.text_eq

take-overwrite :
    (xs : List ℕ) (i : ℕ) (ys zs : List ℕ)
    → i + length (ys ++ zs) ≤ length xs
    → take (i + length ys) (overwrite xs i (ys ++ zs)) ≡ take i xs ++ ys
take-overwrite xs i ys zs h =
    let m = i + length ys in
    ap (take m) (overwrite_lem xs i (ys ++ zs) h)
    ∙ take-append_add m (length ys) (take i xs) ((ys ++ zs) ++ drop (i + length (ys ++ zs)) xs)
        (omega (arith, length-take i xs, length-append ys zs))
    ∙ ap (λ l. take i xs ++ l)
        (ap (take (length ys)) (append_assoc ys zs (drop (i + length (ys ++ zs)) xs))
          ∙ take-append_length (length ys) ys (zs ++ drop (i + length (ys ++ zs)) xs) refl)

-- What is stored and then added stands behind what was there, whatever is stored further on.
pub store-Shows :
    {size : ℕ} {b : FixedBuffer} {out : List ℕ} (cs ds : List ℕ)
    → Shows size b out
    → length out + length cs < size
    → length out + length (cs ++ ds) ≤ size
    → Returns (store b (cs ++ ds)) (λ b'. Shows size (add b' (length cs)) (out ++ cs))
unfolding store
store-Shows {size} {b} {out} cs ds h lt le =
    let c = cur-Shows h in
    let fits : leb (b.cur + length (cs ++ ds)) (length b.array) ≡ true =
      ground (arith, h.size_eq) in
    rw fits (record {
      size_eq = length-overwrite b.array b.cur (cs ++ ds) ∙ h.size_eq;
      text_eq =
          take-overwrite b.array b.cur cs ds (omega (arith, h.size_eq))
          ∙ ap (λ l. l ++ cs) h.text_eq;
      room = omega arith;
    })
