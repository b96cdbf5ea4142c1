-- ===== src/Std/StringMap.antt =====
-- `std::map<string, string>`: entries in the order of their keys.
use Prim.Native.Nat.{compare, Ordering}
use slack.Base.{ℕ, ◌≡◌, List, [], ◌∷◌, Option, some, none, if◌then◌else◌, refl, arith}
use slack.Std.Scan.{same, same_refl, same_eq}

-- `string::compare`: bytes as unsigned numbers, a prefix first.
unfoldable pub order : List ℕ → List ℕ → Ordering
order [] [] = Ordering.eq
order [] (y ∷ ys) = Ordering.lt
order (x ∷ xs) [] = Ordering.gt
order (x ∷ xs) (y ∷ ys) = elim (compare x y) [
  | Ordering.lt ↦ Ordering.lt
  | Ordering.eq ↦ order xs ys
  | Ordering.gt ↦ Ordering.gt
]

abbrev pub StringMap : Type 0
StringMap = List (List ℕ × List ℕ)

-- `find`, and the value found.
unfoldable pub lookup : List ℕ → StringMap → Option (List ℕ)
lookup k [] = none
lookup k ((j, v) ∷ m) = elim (order k j) [ Ordering.eq ↦ some v | _ ↦ lookup k m ]

-- `m[k] = v`.
unfoldable pub insert : List ℕ → List ℕ → StringMap → StringMap
insert k v [] = (k, v) ∷ []
insert k v ((j, w) ∷ m) = elim (order k j) [
  | Ordering.lt ↦ (k, v) ∷ (j, w) ∷ m
  | Ordering.eq ↦ (j, v) ∷ m
  | Ordering.gt ↦ (j, w) ∷ insert k v m
]

order_refl : (k : List ℕ) → order k k ≡ Ordering.eq
unfolding order
order_refl [] = refl
order_refl (x ∷ xs) = ground (arith, order_refl xs)

order_eq : (j k : List ℕ) → order j k ≡ Ordering.eq → j ≡ k
unfolding order
order_eq [] [] h = refl
order_eq [] (y ∷ ys) h = cc
order_eq (x ∷ xs) [] h = cc
order_eq (x ∷ xs) (y ∷ ys) h = ground (arith, order_eq xs ys)

pub lookup-insert :
    (k j v : List ℕ) (m : StringMap)
    → lookup j (insert k v m) ≡ (if same j k then some v else lookup j m)
unfolding lookup insert
lookup-insert k j v [] = ground (arith, order_refl j, order_eq j k, same_refl k, same_eq j k)
lookup-insert k j v ((i, w) ∷ m) = ground (
  arith,
  order_refl j,
  order_eq j k,
  same_refl k,
  same_eq j k,
  order_eq k i,
  order_eq j i,
  order_refl i,
  lookup-insert k j v m,
)
