-- ===== src/Net/EventLoopThreadPool.antt =====
-- `getNextLoop`, `getLoopForHash` and `getAllLoops` of net/EventLoopThreadPool.cc, in the base loop's
-- thread. A loop is known by a number.
use slack.Base.{
  ℕ, zero, suc, ◌+◌, ◌%◌, ◌≡◌, List, [], ◌∷◌, ◌++◌, Bool, true, false, Option, some, if◌then◌else◌,
  leb, length, length-append, get_elem?, assert, ◌>>=◌, ◌>>◌, arith, refl, append_assoc, ap, ◌∙◌,
  sym,
}

pub record LoopPool : Type 0 where
  pub base_loop : ℕ
  pub started : Bool
  pub next : ℕ
  pub loops : List ℕ

-- `getNextLoop`; `loops_[next_]` out of range is undefined, here `none`.
unfoldable pub take_turn : LoopPool → List ℕ → Option (ℕ × LoopPool)
take_turn p [] = some (p.base_loop, p)
take_turn p (l ∷ ls) = do
  loop ← get_elem? (l ∷ ls) p.next
  some (loop, record p { next = if leb (length (l ∷ ls)) (p.next + 1) then 0 else p.next + 1 })

unfoldable pub get_next_loop : LoopPool → Option (ℕ × LoopPool)
get_next_loop p = do assert p.started; take_turn p p.loops

unfoldable pub hash_turn : LoopPool → ℕ → List ℕ → Option ℕ
hash_turn p hash_code [] = some p.base_loop
hash_turn p hash_code (l ∷ ls) = get_elem? (l ∷ ls) (hash_code % length (l ∷ ls))

unfoldable pub get_loop_for_hash : LoopPool → ℕ → Option ℕ
get_loop_for_hash p hash_code = hash_turn p hash_code p.loops

abbrev or_base : ℕ → List ℕ → List ℕ
or_base base [] = base ∷ []
or_base base (l ∷ ls) = l ∷ ls

unfoldable pub get_all_loops : LoopPool → Option (List ℕ)
get_all_loops p = do assert p.started; some (or_base p.base_loop p.loops)

-- The loops that so many calls hand out, one after the other.
unfoldable pub next_loops : ℕ → LoopPool → Option (List ℕ × LoopPool)
next_loops zero p = some ([], p)
next_loops (suc n) p = do (l, p') ← get_next_loop p; (ls, p'') ← next_loops n p'; some (l ∷ ls, p'')

get_elem?-length :
    (ys : List ℕ) (x : ℕ) (xs : List ℕ) → get_elem? (ys ++ x ∷ xs) (length ys) ≡ some x
get_elem?-length [] x xs = refl
get_elem?-length (y ∷ ys) x xs = get_elem?-length ys x xs

turn :
    (p : LoopPool) (ys : List ℕ) (x : ℕ) (xs : List ℕ)
    → p.started ≡ true
    → p.next ≡ length ys
    → p.loops ≡ ys ++ x ∷ xs
    → get_next_loop p
      ≡ some (
        x,
        record p {
          next = if leb (length (ys ++ x ∷ xs)) (length ys + 1) then 0 else length ys + 1;
        },
      )
unfolding get_next_loop take_turn
turn p [] x xs s n e = rw (s, e, n) refl
turn p (y ∷ ys) x xs s n e = rw (s, e, n, get_elem?-length ys x xs) refl

turns :
    (p : LoopPool) (ys xs : List ℕ) (x : ℕ)
    → p.started ≡ true
    → p.next ≡ length ys
    → p.loops ≡ ys ++ x ∷ xs
    → next_loops (length (x ∷ xs)) p ≡ some (x ∷ xs, record p { next = 0 })
unfolding next_loops
turns p ys [] x s n e =
    let last : leb (length (ys ++ x ∷ [])) (length ys + 1) ≡ true =
      ground (arith, length-append ys (x ∷ [])) in
    rw (turn p ys x [] s n e, last) refl
turns p ys (x' ∷ xs) x s n e =
    let more : leb (length (ys ++ x ∷ x' ∷ xs)) (length ys + 1) ≡ false =
      ground (arith, length-append ys (x ∷ x' ∷ xs)) in
    rw (turn p ys x (x' ∷ xs) s n e, more)
      (ap (λ o. o >>= λ (r : List ℕ × LoopPool). some (x ∷ r.0, r.1))
        (turns (record p { next = length ys + 1 }) (ys ++ (x ∷ [])) xs x' s
          (omega (arith, length-append ys (x ∷ [])))
          (e ∙ sym (append_assoc ys (x ∷ []) (x' ∷ xs)))))

full_round :
    (p : LoopPool) (ls : List ℕ)
    → p.started ≡ true
    → p.next ≡ 0
    → p.loops ≡ ls
    → next_loops (length ls) p ≡ some (ls, p)
unfolding next_loops
full_round p [] s n e = refl
full_round p (x ∷ xs) s n e =
    turns p [] xs x s n e ∙ ap (λ k. some (x ∷ xs, record p { next = k })) (sym n)

-- As many calls of `getNextLoop` as there are loops, from the first one on, hand out every loop once, in
-- order, and leave the pool where it was, ready for the next round.
pub next_loops-length :
    (p : LoopPool)
    → p.started ≡ true
    → p.next ≡ 0
    → next_loops (length p.loops) p ≡ some (p.loops, p)
next_loops-length p s n = full_round p p.loops s n refl
