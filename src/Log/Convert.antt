-- ===== src/Log/Convert.antt =====
-- `convert` and `convertHex` of log/LogStream.cc: integers as text, least digit first and then reversed.
pub mod Digits
use mathlib.Core.List.{reverse}
use slack.Base.{
  ℕ, zero, suc, ◌+◌, ◌-◌, ◌/◌, ◌%◌, List, [], ◌∷◌, ◌++◌, Bool, Option, some, none, ◌==◌,
  if◌then◌else◌, get_elem?, ℤ, pos, negsuc, abs, quot, rem, is_negative,
}
use slack.Std.Text.{codes}

-- A character of a table. Outside it the access is undefined; here it gives 0.
abbrev or_zero : Option ℕ → ℕ
or_zero none = 0
or_zero (some c) = c

abbrev pub char_at : List ℕ → ℕ → ℕ
char_at table i = or_zero (get_elem? table i)

abbrev pub digits : List ℕ
digits = codes "9876543210123456789"

-- `zero[lsd]`, where `zero` is `digits + 9`.
unfoldable pub zero_at : ℤ → ℕ
zero_at (pos k) = char_at digits (9 + k)
zero_at (negsuc k) = char_at digits (9 - suc k)

abbrev is_zero : ℤ → Bool
is_zero i = abs i == 0

-- The loop of `convert`, which gives the characters in the order of its writes.
unfoldable pub convert_loop : ℕ → ℤ → List ℕ
unfolding zero_at
convert_loop zero i = []
convert_loop (suc fuel) i =
    zero_at (rem i 10)
    ∷ (let rest = convert_loop fuel (quot i 10) in if is_zero (quot i 10) then [] else rest)

-- There are no more digits than one plus the value.
unfoldable pub convert : ℤ → List ℕ
unfolding convert_loop
convert value =
    reverse (convert_loop (suc (abs value)) value ++ (if is_negative value then b'-' ∷ [] else []))

abbrev pub digits_hex : List ℕ
digits_hex = codes "0123456789ABCDEF"

unfoldable pub hex_loop : ℕ → ℕ → List ℕ
hex_loop zero i = []
hex_loop (suc fuel) i =
    char_at digits_hex (i % 16)
    ∷ (let rest = hex_loop fuel (i / 16) in if i / 16 == 0 then [] else rest)

unfoldable pub convert_hex : ℕ → List ℕ
unfolding hex_loop
convert_hex value = reverse (hex_loop (suc value) value)
