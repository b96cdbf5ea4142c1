-- ===== src/Log/Convert/Digits.antt =====
-- The text of a number in log/LogStream.cc gives back the number, and is short.
use mathlib.Core.List.{reverse, reverse-cons, reverse-append, reverse-reverse}
use native.Mathlib.Nat.{pow-suc}
use slack.Base.{
  ℕ, zero, suc, ◌+◌, ◌-◌, ◌*◌, ◌/◌, ◌%◌, ◌^◌, ◌≤◌, ◌<◌, ◌≡◌, List, [], ◌∷◌, ◌++◌, Bool, true, false,
  ◌==◌, ltb, ◌&&◌, if◌then◌else◌, arith, refl, sym, ap, ◌∙◌, length, length-append, Bool-cases,
  append-nil, subst, inl, inr, ℤ, pos, negsuc, abs, quot, rem, negated, is_negative,
}
use slack.Std.Scan.{Lacks, Lacks-append}
use slack.Log.Convert.{
  char_at, digits, zero_at, convert_loop, convert, digits_hex, hex_loop, convert_hex,
}

-- The test passes on `count` numbers in a row.
passes_from : (ℕ → Bool) → ℕ → ℕ → Bool
passes_from test k zero = true
passes_from test k (suc count) = if test k then passes_from test (suc k) count else false

passed :
    (test : ℕ → Bool) (count k i : ℕ)
    → k ≤ i
    → i < k + count
    → passes_from test k count ≡ true
    → test i ≡ true
unfolding passes_from
passed test zero k i from to h = absurd (omega arith)
passed test (suc count) k i from to h = elim (Bool-cases (k == i)) [
  | inl e ↦ ground arith
  | inr e ↦ passed test count (suc k) i (ground arith) (omega arith) (ground arith)
]

-- What digits stand for, the least one first.
abbrev pub value : ℕ → (ℕ → ℕ) → List ℕ → ℕ
value base digit [] = 0
value base digit (c ∷ cs) = digit c + base * value base digit cs

abbrev pub decimal_digit : ℕ → ℕ
decimal_digit c = c - 48

abbrev pub hex_digit : ℕ → ℕ
hex_digit c = if ltb c 58 then c - 48 else c - 55

-- The integer that a text stands for: a sign, then decimal digits.
abbrev pub read_text : List ℕ → ℤ
read_text [] = pos 0
read_text (c ∷ cs) =
    if c == b'-'
    then negated (value 10 decimal_digit (reverse cs))
    else pos (value 10 decimal_digit (reverse (c ∷ cs)))

same_digits : ℕ → Bool
same_digits k = (char_at digits (9 + k) == 48 + k) && (char_at digits (9 - k) == 48 + k)

same_digits_lem : (k : ℕ) → k < 10 → same_digits k ≡ true
unfolding passes_from same_digits
same_digits_lem k h = passed same_digits 10 0 k (omega arith) (omega arith) refl

same_hex : ℕ → Bool
same_hex k = hex_digit (char_at digits_hex k) == k

char_at-hex : (n : ℕ) → hex_digit (char_at digits_hex (n % 16)) ≡ n % 16
unfolding passes_from same_hex
char_at-hex n = ground (arith, passed same_hex 16 0 (n % 16) (omega arith) (omega arith) refl)

zero_at-pos : (k : ℕ) → k < 10 → zero_at (pos k) ≡ 48 + k
unfolding zero_at same_digits
zero_at-pos k h = ground (arith, same_digits_lem k h)

zero_at-negated : (k : ℕ) → k < 10 → zero_at (negated k) ≡ 48 + k
unfolding zero_at same_digits
zero_at-negated zero h = refl
zero_at-negated (suc k) h = ground (arith, same_digits_lem (suc k) h)

zero_at_lem : (i : ℤ) → zero_at (rem i 10) ≡ 48 + abs i % 10
zero_at_lem (pos n) = zero_at-pos (n % 10) (omega arith)
zero_at_lem (negsuc n) = zero_at-negated (suc n % 10) (omega arith)

abs-negated : (n : ℕ) → abs (negated n) ≡ n
abs-negated zero = refl
abs-negated (suc n) = refl

abs-quot : (i : ℤ) → abs (quot i 10) ≡ abs i / 10
abs-quot (pos n) = refl
abs-quot (negsuc n) = abs-negated (suc n / 10)

value-convert_loop :
    (fuel : ℕ) (i : ℤ) → abs i < fuel → value 10 decimal_digit (convert_loop fuel i) ≡ abs i
unfolding convert_loop
value-convert_loop zero i h = absurd (omega arith)
value-convert_loop (suc fuel) i h =
    ground (arith, zero_at_lem i, abs-quot i, value-convert_loop fuel (quot i 10))

Lacks-convert_loop : (fuel : ℕ) (i : ℤ) → Lacks b'-' (convert_loop fuel i)
unfolding convert_loop
Lacks-convert_loop zero i = tt
Lacks-convert_loop (suc fuel) i = elim (Bool-cases (abs (quot i 10) == 0)) [
  | inl e ↦ rw e (λ h. omega (arith, zero_at_lem i, h), tt)
  | inr e ↦ rw e (λ h. omega (arith, zero_at_lem i, h), Lacks-convert_loop fuel (quot i 10))
]

length-convert_loop :
    (fuel : ℕ) (i : ℤ) (k : ℕ) → abs i < 10 ^ suc k → length (convert_loop fuel i) ≤ suc k
unfolding convert_loop
length-convert_loop zero i k h = omega arith
length-convert_loop (suc fuel) i zero h = ground (arith, pow-suc 10 0, abs-quot i)
length-convert_loop (suc fuel) i (suc k) h =
    ground (arith, pow-suc 10 (suc k), abs-quot i, length-convert_loop fuel (quot i 10) k)

value-hex_loop : (fuel n : ℕ) → n < fuel → value 16 hex_digit (hex_loop fuel n) ≡ n
unfolding hex_loop
value-hex_loop zero i h = absurd (omega arith)
value-hex_loop (suc fuel) n h = ground (arith, char_at-hex n, value-hex_loop fuel (n / 16))

length-hex_loop : (fuel n k : ℕ) → n < 16 ^ suc k → length (hex_loop fuel n) ≤ suc k
unfolding hex_loop
length-hex_loop zero i k h = omega arith
length-hex_loop (suc fuel) n zero h = ground (arith, pow-suc 16 0)
length-hex_loop (suc fuel) n (suc k) h =
    ground (arith, pow-suc 16 (suc k), length-hex_loop fuel (n / 16) k)

length-sign : (negative : Bool) → length {A = ℕ} (if negative then b'-' ∷ [] else []) ≤ 1
length-sign negative = ground arith

Lacks-reverse : (c : ℕ) (xs : List ℕ) → Lacks c xs → Lacks c (reverse xs)
Lacks-reverse c [] h = tt
Lacks-reverse c (x ∷ xs) h =
    subst (Lacks c) (sym (reverse-cons x xs))
      (Lacks-append c (reverse xs) (x ∷ []) (Lacks-reverse c xs h.1) (h.0, tt))

length-reverse : (xs : List ℕ) → length (reverse xs) ≡ length xs
length-reverse [] = refl
length-reverse (x ∷ xs) =
    ap length (reverse-cons x xs)
    ∙ length-append (reverse xs) (x ∷ [])
    ∙ omega (arith, length-reverse xs)

read_plain :
    (cs : List ℕ) → Lacks b'-' cs → read_text cs ≡ pos (value 10 decimal_digit (reverse cs))
read_plain [] h = refl
read_plain (c ∷ cs) h = ground (arith, h.0)

read_digits :
    (ds : List ℕ) → Lacks b'-' ds → read_text (reverse ds) ≡ pos (value 10 decimal_digit ds)
read_digits ds h =
    read_plain (reverse ds) (Lacks-reverse b'-' ds h)
    ∙ ap (λ l. pos (value 10 decimal_digit l)) (reverse-reverse ds)

read_signed :
    (ds : List ℕ) → read_text (reverse (ds ++ b'-' ∷ [])) ≡ negated (value 10 decimal_digit ds)
read_signed ds =
    ap read_text (reverse-append ds (b'-' ∷ []))
    ∙ ap (λ l. negated (value 10 decimal_digit l)) (reverse-reverse ds)

abbrev all_digits : ℤ → List ℕ
all_digits v = convert_loop (suc (abs v)) v

-- The text of an integer, read as a sign and decimal digits, is that integer.
pub read_text-convert : (v : ℤ) → read_text (convert v) ≡ v
unfolding convert
read_text-convert (pos n) =
    ap (λ l. read_text (reverse l)) (append-nil (all_digits (pos n)))
    ∙ read_digits (all_digits (pos n)) (Lacks-convert_loop (suc n) (pos n))
    ∙ ap pos (value-convert_loop (suc n) (pos n) (omega arith))
read_text-convert (negsuc n) =
    read_signed (all_digits (negsuc n))
    ∙ ap negated (value-convert_loop (suc (suc n)) (negsuc n) (omega arith))

-- The text of an integer below 10 ^ (k + 1), in absolute value, has at most k + 2 characters.
pub length-convert : (v : ℤ) (k : ℕ) → abs v < 10 ^ suc k → length (convert v) ≤ suc (suc k)
unfolding convert
length-convert v k h =
    let ds = all_digits v in
    let sign : List ℕ = if is_negative v then b'-' ∷ [] else [] in
    omega (
      arith,
      length-reverse (ds ++ sign),
      length-append ds sign,
      length-convert_loop (suc (abs v)) v k h,
      length-sign (is_negative v),
    )

-- The hexadecimal text of a number, read back digit by digit from its end, is that number.
pub value-convert_hex : (n : ℕ) → value 16 hex_digit (reverse (convert_hex n)) ≡ n
unfolding convert_hex
value-convert_hex n =
    ap (value 16 hex_digit) (reverse-reverse (hex_loop (suc n) n))
    ∙ value-hex_loop (suc n) n (omega arith)

-- A number below 16 ^ (k + 1) has at most k + 1 hexadecimal digits.
pub length-convert_hex : (n k : ℕ) → n < 16 ^ suc k → length (convert_hex n) ≤ suc k
unfolding convert_hex
length-convert_hex n k h =
    omega (arith, length-reverse (hex_loop (suc n) n), length-hex_loop (suc n) n k h)
