-- ===== src/Std/Scan.antt =====
-- `std::search`, `std::find` and comparison of byte strings.
use slack.Base.{
  ℕ, zero, suc, ◌+◌, ◌≤◌, ◌<◌, ◌≡◌, ◌≢◌, List, [], ◌∷◌, ◌++◌, Bool, true, false, ◌==◌, ◌&&◌,
  if◌then◌else◌, length, drop, arith, refl, sym, ap, Bool-cases, inl, inr, ◌∙◌,
}

abbrev pub crlf : List ℕ
crlf = 13 ∷ 10 ∷ []

abbrev pub starts_with : List ℕ → List ℕ → Bool
starts_with xs [] = true
starts_with [] (y ∷ ys) = false
starts_with (x ∷ xs) (y ∷ ys) = x == y && starts_with xs ys

-- `std::search`: where the first occurrence of `ys` begins, or the end of the range.
unfoldable pub search : List ℕ → List ℕ → ℕ
search [] ys = 0
search (x ∷ xs) ys = if starts_with (x ∷ xs) ys then 0 else suc (search xs ys)

-- `std::find`: where the first byte equal to `c` stands, or the end of the range.
unfoldable pub find_byte : List ℕ → ℕ → ℕ
find_byte [] c = 0
find_byte (x ∷ xs) c = if x == c then 0 else suc (find_byte xs c)

-- `operator==` of strings.
unfoldable pub same : List ℕ → List ℕ → Bool
same [] [] = true
same [] (y ∷ ys) = false
same (x ∷ xs) [] = false
same (x ∷ xs) (y ∷ ys) = x == y && same xs ys

pub same_refl : (xs : List ℕ) → same xs xs ≡ true
unfolding same
same_refl [] = refl
same_refl (x ∷ xs) = ground (arith, same_refl xs)

pub same_eq : (xs ys : List ℕ) → same xs ys ≡ true → xs ≡ ys
unfolding same
same_eq [] [] h = refl
same_eq [] (y ∷ ys) h = cc
same_eq (x ∷ xs) [] h = cc
same_eq (x ∷ xs) (y ∷ ys) h = ground (arith, same_eq xs ys)

-- No byte of the string is `c`.
abbrev pub Lacks : ℕ → List ℕ → Type 0
Lacks c [] = Unit {0}
Lacks c (x ∷ xs) = (x ≢ c) × Lacks c xs

pub Lacks-append : (c : ℕ) (xs ys : List ℕ) → Lacks c xs → Lacks c ys → Lacks c (xs ++ ys)
Lacks-append c [] ys h k = k
Lacks-append c (x ∷ xs) ys h k = (h.0, Lacks-append c xs ys h.1 k)

pub find_byte_le : (xs : List ℕ) (c : ℕ) → find_byte xs c ≤ length xs
unfolding find_byte
find_byte_le [] c = omega arith
find_byte_le (x ∷ xs) c = ground (arith, find_byte_le xs c)

pub find_byte-append :
    (xs ys : List ℕ) (c : ℕ) → Lacks c xs → find_byte (xs ++ c ∷ ys) c ≡ length xs
unfolding find_byte
find_byte-append [] ys c h = ground arith
find_byte-append (x ∷ xs) ys c h = ground (arith, find_byte-append xs ys c h.1)

pub find_byte_none : (xs : List ℕ) (c : ℕ) → Lacks c xs → find_byte xs c ≡ length xs
unfolding find_byte
find_byte_none [] c h = refl
find_byte_none (x ∷ xs) c h = ground (arith, find_byte_none xs c h.1)

starts_with-append :
    (xs zs ys : List ℕ) → length ys ≤ length xs → starts_with (xs ++ zs) ys ≡ starts_with xs ys
starts_with-append xs zs [] h = refl
starts_with-append [] zs (y ∷ ys) h = absurd (omega arith)
starts_with-append (x ∷ xs) zs (y ∷ ys) h =
    ap (λ t. x == y && t) (starts_with-append xs zs ys (omega arith))

starts_with-length : (xs ys : List ℕ) → starts_with xs ys ≡ true → length ys ≤ length xs
starts_with-length xs [] h = omega arith
starts_with-length [] (y ∷ ys) h = cc
starts_with-length (x ∷ xs) (y ∷ ys) h = ground (arith, starts_with-length xs ys)

search_hit : (x : ℕ) (xs ys : List ℕ) → starts_with (x ∷ xs) ys ≡ true → search (x ∷ xs) ys ≡ 0
unfolding search
search_hit x xs ys h = rw h

search_miss :
    (x : ℕ) (xs ys : List ℕ)
    → starts_with (x ∷ xs) ys ≡ false
    → search (x ∷ xs) ys ≡ suc (search xs ys)
unfolding search
search_miss x xs ys h = rw h

pub search_le : (xs ys : List ℕ) → search xs ys ≤ length xs
search_le [] ys = unfold search in omega arith
search_le (x ∷ xs) ys = elim (Bool-cases (starts_with (x ∷ xs) ys)) [
  | inl hit ↦ omega (arith, search_hit x xs ys hit)
  | inr miss ↦ omega (arith, search_miss x xs ys miss, search_le xs ys)
]

-- A match lies wholly within the range.
pub search_room : (xs ys : List ℕ) → search xs ys < length xs → search xs ys + length ys ≤ length xs
search_room [] ys h = absurd (omega arith)
search_room (x ∷ xs) ys h = elim (Bool-cases (starts_with (x ∷ xs) ys)) [
  | inl hit ↦ omega (arith, search_hit x xs ys hit, starts_with-length (x ∷ xs) ys hit)
  | inr miss ↦
      let e = search_miss x xs ys miss in omega (arith, e, search_room xs ys (omega (arith, e, h)))
]

pub search_found :
    (xs ys : List ℕ) → search xs ys < length xs → starts_with (drop (search xs ys) xs) ys ≡ true
search_found [] ys h = absurd (omega arith)
search_found (x ∷ xs) ys h = elim (Bool-cases (starts_with (x ∷ xs) ys)) [
  | inl hit ↦ rw (search_hit x xs ys hit) hit
  | inr miss ↦ let e = search_miss x xs ys miss in rw e (search_found xs ys (omega (arith, e, h)))
]

pub search_first : (xs ys : List ℕ) (i : ℕ) → i < search xs ys → starts_with (drop i xs) ys ≡ false
search_first [] ys i h = absurd (unfold search in omega arith)
search_first (x ∷ xs) ys i h = elim (Bool-cases (starts_with (x ∷ xs) ys)) [
  | inl hit ↦ absurd (omega (arith, search_hit x xs ys hit))
  | inr miss ↦ go i (omega (arith, search_miss x xs ys miss)) miss (search_first xs ys)
]
  where
    go :
        (j : ℕ)
        → j < suc (search xs ys)
        → starts_with (x ∷ xs) ys ≡ false
        → ((k : ℕ) → k < search xs ys → starts_with (drop k xs) ys ≡ false)
        → starts_with (drop j (x ∷ xs)) ys ≡ false
    go zero l m r = m
    go (suc j) l m r = r j (omega arith)

-- More bytes behind the range do not move a match.
pub search-append :
    (xs zs ys : List ℕ) → search xs ys < length xs → search (xs ++ zs) ys ≡ search xs ys
search-append [] zs ys h = absurd (omega arith)
search-append (x ∷ xs) zs ys h = elim (Bool-cases (starts_with (x ∷ xs) ys)) [
  | inl hit ↦
      search_hit x (xs ++ zs) ys
        (starts_with-append (x ∷ xs) zs ys (starts_with-length (x ∷ xs) ys hit) ∙ hit)
      ∙ sym (search_hit x xs ys hit)
  | inr miss ↦
      let e = search_miss x xs ys miss in
      let k : search xs ys < length xs = omega (arith, e, h) in
      search_miss x (xs ++ zs) ys
        (starts_with-append (x ∷ xs) zs ys (omega (arith, search_room xs ys k)) ∙ miss)
      ∙ ap suc (search-append xs zs ys k)
      ∙ sym e
]

-- The first line end behind a line without carriage returns.
pub search_line :
    (line rest : List ℕ) → Lacks 13 line → search (line ++ crlf ++ rest) crlf ≡ length line
search_line [] rest h = search_hit 13 (10 ∷ rest) crlf refl
search_line (x ∷ line) rest h =
    search_miss x (line ++ crlf ++ rest) crlf (ground arith) ∙ ap suc (search_line line rest h.1)
