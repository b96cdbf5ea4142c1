-- ===== src/Std/Text.antt =====
-- Literals as bytes, `isspace` in the C locale, and decimal output of `snprintf`.
use Prim.Native.Char.{code}
use Prim.Native.String.{String}
use native.Mathlib.Nat.{pow-suc}
use slack.Base.{
  ℕ, ◌^◌, ◌≤◌, ◌<◌, length, arith, zero, suc, ◌+◌, ◌/◌, ◌%◌, List, [], ◌∷◌, Bool, ◌==◌, ◌&&◌, ◌||◌,
  leb, if◌then◌else◌,
}

abbrev pub codes : String → List ℕ
codes String.[] = []
codes (String.◌∷◌ c s) = code c ∷ codes s

unfoldable pub is_space : ℕ → Bool
is_space c = c == 32 || (leb 9 c && leb c 13)

-- Without the leading spaces.
unfoldable pub skip_spaces : List ℕ → List ℕ
unfolding is_space
skip_spaces [] = []
skip_spaces (c ∷ cs) = if is_space c then skip_spaces cs else c ∷ cs

-- A byte in front of text whose trailing spaces are gone.
abbrev keep : ℕ → List ℕ → List ℕ
keep c [] = if is_space c then [] else c ∷ []
keep c (d ∷ ds) = c ∷ d ∷ ds

-- Without the trailing spaces.
unfoldable pub trim_end : List ℕ → List ℕ
unfolding is_space
trim_end [] = []
trim_end (c ∷ cs) = keep c (trim_end cs)

decimal_on : ℕ → ℕ → List ℕ → List ℕ
decimal_on zero n out = out
decimal_on (suc fuel) n out =
    let rest = decimal_on fuel (n / 10) ((48 + n % 10) ∷ out) in
    if n / 10 == 0 then (48 + n % 10) ∷ out else rest

-- `%d` and `%zd` of a number that is not negative; `suc n` rounds are enough.
unfoldable pub decimal : ℕ → List ℕ
unfolding decimal_on
decimal n = decimal_on (suc n) n []

length-decimal_on :
    (fuel n k : ℕ) (out : List ℕ)
    → n < 10 ^ suc k
    → length (decimal_on fuel n out) ≤ suc k + length out
unfolding decimal_on
length-decimal_on zero n k out h = omega arith
length-decimal_on (suc fuel) n zero out h = ground (arith, pow-suc 10 0)
length-decimal_on (suc fuel) n (suc k) out h =
    ground (arith, pow-suc 10 (suc k), length-decimal_on fuel (n / 10) k ((48 + n % 10) ∷ out))

-- A number below 10 ^ (k + 1) prints in at most k + 1 digits.
pub length-decimal : (n k : ℕ) → n < 10 ^ suc k → length (decimal n) ≤ suc k
unfolding decimal
length-decimal n k h = omega (arith, length-decimal_on (suc n) n k [] h)
