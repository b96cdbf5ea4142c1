-- ===== src/Net/Endian.antt =====
-- net/Endian.h: conversions between host and network byte order. The host is little-endian, and an
-- integer of `k` bytes is given by its bit pattern, a number below 256 ^ k.
use mathlib.Core.List.{reverse, reverse-cons, reverse-reverse}
use native.Mathlib.Nat.{pow-suc}
use slack.Base.{
  ℕ, zero, suc, ◌+◌, ◌*◌, ◌/◌, ◌%◌, ◌^◌, ◌<◌, ◌≡◌, List, [], ◌∷◌, ◌++◌, length, ap, arith, refl,
  ◌∙◌, length-append,
}

-- The `k` bytes of an integer in memory, lowest first.
unfoldable pub le_bytes : ℕ → ℕ → List ℕ
le_bytes zero x = []
le_bytes (suc k) x = x % 256 ∷ le_bytes k (x / 256)

unfoldable pub from_le : List ℕ → ℕ
from_le [] = 0
from_le (b ∷ bs) = b + 256 * from_le bs

-- `htobe16`, `htobe32`, `htobe64` and their inverses, by the number of bytes.
unfoldable pub swap_bytes : ℕ → ℕ → ℕ
swap_bytes k x = from_le (reverse (le_bytes k x))

-- What stands on the wire: the highest byte first.
unfoldable pub network_bytes : ℕ → ℕ → List ℕ
network_bytes k x = reverse (le_bytes k x)

abbrev pub IsBytes : List ℕ → Type 0
IsBytes [] = Unit {0}
IsBytes (b ∷ bs) = (b < 256) × IsBytes bs

IsBytes-append : (xs ys : List ℕ) → IsBytes xs → IsBytes ys → IsBytes (xs ++ ys)
IsBytes-append [] ys p q = q
IsBytes-append (x ∷ xs) ys p q = (p.0, IsBytes-append xs ys p.1 q)

IsBytes-reverse : (xs : List ℕ) → IsBytes xs → IsBytes (reverse xs)
IsBytes-reverse [] p = tt
IsBytes-reverse (x ∷ xs) p =
    rw (reverse-cons x xs) (IsBytes-append (reverse xs) (x ∷ []) (IsBytes-reverse xs p.1) (p.0, tt))

length-reverse : (xs : List ℕ) → length (reverse xs) ≡ length xs
length-reverse [] = refl
length-reverse (x ∷ xs) =
    ap length (reverse-cons x xs)
    ∙ omega (arith, length-append (reverse xs) (x ∷ []), length-reverse xs)

pub le_bytes-IsBytes : (k x : ℕ) → IsBytes (le_bytes k x)
unfolding le_bytes
le_bytes-IsBytes zero x = tt
le_bytes-IsBytes (suc k) x = (omega arith, le_bytes-IsBytes k (x / 256))

pub length-le_bytes : (k x : ℕ) → length (le_bytes k x) ≡ k
unfolding le_bytes
length-le_bytes zero x = refl
length-le_bytes (suc k) x = ap suc (length-le_bytes k (x / 256))

pub from_le-le_bytes : (k x : ℕ) → x < 256 ^ k → from_le (le_bytes k x) ≡ x
unfolding from_le le_bytes
from_le-le_bytes zero x h = omega (arith, h)
from_le-le_bytes (suc k) x h =
    omega (arith, from_le-le_bytes k (x / 256) (omega (arith, pow-suc 256 k, h)))

pub le_bytes-from_le :
    (k : ℕ) (bs : List ℕ) → IsBytes bs → length bs ≡ k → le_bytes k (from_le bs) ≡ bs
unfolding from_le le_bytes
le_bytes-from_le zero [] p e = refl
le_bytes-from_le zero (b ∷ bs) p e = absurd (omega arith)
le_bytes-from_le (suc k) [] p e = absurd (omega arith)
le_bytes-from_le (suc k) (b ∷ bs) p e =
    let q : (b + 256 * from_le bs) / 256 ≡ from_le bs = omega (arith, p.0) in
    let r : (b + 256 * from_le bs) % 256 ≡ b = omega (arith, p.0) in
    rw (q, r, le_bytes-from_le k bs p.1 (omega arith))

pub length-network_bytes : (k x : ℕ) → length (network_bytes k x) ≡ k
unfolding network_bytes
length-network_bytes k x = length-reverse (le_bytes k x) ∙ length-le_bytes k x

-- In memory a swapped integer reads as network bytes.
pub le_bytes-swap_bytes : (k x : ℕ) → le_bytes k (swap_bytes k x) ≡ network_bytes k x
unfolding swap_bytes network_bytes
le_bytes-swap_bytes k x =
    le_bytes-from_le k (reverse (le_bytes k x)) (IsBytes-reverse _ (le_bytes-IsBytes k x))
      (length-network_bytes k x)

-- Network bytes read from memory and swapped give the integer back.
pub swap_bytes-network_bytes :
    (k x : ℕ) → x < 256 ^ k → swap_bytes k (from_le (network_bytes k x)) ≡ x
unfolding swap_bytes network_bytes
swap_bytes-network_bytes k x h =
    ap (λ l. from_le (reverse l)) (le_bytes-swap_bytes k x)
    ∙ ap from_le (reverse-reverse (le_bytes k x))
    ∙ from_le-le_bytes k x h
