-- ===== src/Net/TimerQueue/Expiry.antt =====
-- `getExpired` of net/TimerQueue.cc: the timers that are due leave both sets.
use slack.Base.{
  ℕ, ◌≡◌, List, [], ◌∷◌, ◌++◌, true, Option, some, none, assert, ◌==◌, length, arith, refl, sym, ap,
  ◌∙◌, Bool-cases, inl, inr, Returns, Returns->>=, subst,
}
use slack.Net.TimerQueue.{
  Timer, TimerQueue, KeySet, find_at, Entry, same_key, erase_key, erase_all, get_expired, until,
  beyond, starts_after,
}
use slack.Net.TimerQueue.Timers.{
  entries, has_key, Distinct, at_same, key_gone, due, later, due-later, until-due, beyond-later,
}
use slack.Net.TimerQueue.Represents.{Represents, or_else, sizes-Represents}

-- A set has the keys of these timers.
record Keys (k : KeySet) (ts : List Timer) : Type 0 where
  size_eq : k.size ≡ length ts
  has_eq : (a s : ℕ) → k.has a s ≡ has_key a s ts

-- Pointers to these timers are good.
abbrev pub Found : List Timer → List Timer → Type 0
Found heap [] = Unit {0}
Found heap (t ∷ ts) = (find_at t.address heap ≡ some t) × Found heap ts

erase_key-Keys :
    (k : KeySet) (t : Timer) (ts : List Timer)
    → find_at t.address ts ≡ none
    → Keys k (t ∷ ts)
    → (k.has t.address t.sequence ≡ true) × Keys (erase_key t.address t.sequence k) ts
erase_key-Keys k t ts h c =
    let there : k.has t.address t.sequence ≡ true = c.has_eq t.address t.sequence ∙ ground arith in
    (
      there,
      rw there (record {
        size_eq = omega (arith, c.size_eq);
        has_eq = λ a s. ground (
          arith,
          c.has_eq a s,
          λ (e : same_key t.address t.sequence a s ≡ true). key_gone a s t ts e h,
        );
      }),
    )

erase_all_lem :
    (xs ts : List Timer) (q : TimerQueue)
    → Distinct (xs ++ ts)
    → Found q.heap xs
    → Keys q.active_timers (xs ++ ts)
    → Returns
        (erase_all q (entries xs))
        (λ q'. (k : KeySet) × (q' ≡ record q { active_timers = k }) × Keys k ts)
unfolding erase_all
erase_all_lem [] ts q d f c = (q.active_timers, refl, c)
erase_all_lem (x ∷ xs) ts q d f c =
    let (there, c') = erase_key-Keys q.active_timers x (xs ++ ts) d.0 c in
    let q' = record q { active_timers = erase_key x.address x.sequence q.active_timers } in
    rw f.0 (
      Returns->>= (assert (q.active_timers.has x.address x.sequence)) (λ u. Unit {0})
        (λ u. erase_all q' (entries xs)) _ (rw there tt) (λ u v. erase_all_lem xs ts q' d.1 f.1 c'))

pub find_at-append :
    (a : ℕ) (xs ys : List Timer) → find_at a (xs ++ ys) ≡ or_else (find_at a xs) (find_at a ys)
find_at-append a [] ys = refl
find_at-append a (x ∷ xs) ys = ground (arith, find_at-append a xs ys)

Distinct-append : (xs ys : List Timer) → Distinct (xs ++ ys) → Distinct xs × Distinct ys
Distinct-append [] ys d = (tt, d)
Distinct-append (x ∷ xs) ys d =
    let (dx, dy) = Distinct-append xs ys d.1 in
    ((ground (arith, d.0, find_at-append x.address xs ys), dx), dy)

apart :
    (a : ℕ) (xs ys : List Timer) (t : Timer)
    → Distinct (xs ++ ys)
    → find_at a xs ≡ some t
    → find_at a ys ≡ none
apart a [] ys t d h = cc
apart a (x ∷ xs) ys t d h = elim (Bool-cases (x.address == a)) [
  | inl e ↦ ground (arith, at_same a x.address (xs ++ ys) e d.0, find_at-append a xs ys)
  | inr e ↦ apart a xs ys t d.1 (ground arith)
]

or_else_comm :
    (o p : Option Timer) → ((t : Timer) → o ≡ some t → p ≡ none) → or_else o p ≡ or_else p o
or_else_comm none none h = refl
or_else_comm none (some u) h = refl
or_else_comm (some t) none h = refl
or_else_comm (some t) (some u) h = absurd (ground (arith, h t refl))

pub or_else-none : (o : Option Timer) → or_else o none ≡ o
or_else-none none = refl
or_else-none (some t) = refl

pub heap-Found :
    (heap xs : List Timer)
    → ((a : ℕ) (t : Timer) → find_at a xs ≡ some t → find_at a heap ≡ some t)
    → Distinct xs
    → Found heap xs
heap-Found heap [] h d = tt
heap-Found heap (x ∷ xs) h d = (
  h x.address x (ground arith),
  heap-Found heap xs
      (λ a t e. elim (Bool-cases (x.address == a)) [
        | inl s ↦ absurd (ground (arith, at_same a x.address xs s d.0))
        | inr s ↦ h a t (ground arith)
      ])
      d.1,
)

starts_after-beyond : (now : ℕ) (es : List Entry) → starts_after now (beyond now es) ≡ true
starts_after-beyond now [] = refl
starts_after-beyond now (e ∷ es) = ground (arith, starts_after-beyond now es)

-- Where a timer is, if the first timers are held.
heap_parts :
    {q : TimerQueue} {ts : List Timer} (xs ys : List Timer)
    → Represents q ts []
    → xs ++ ys ≡ ts
    → (a : ℕ) → find_at a q.heap ≡ or_else (find_at a xs) (find_at a ys)
heap_parts {ts = ts} xs ys r whole a =
    r.heap_eq a ∙ or_else-none (find_at a ts) ∙ ap (find_at a) (sym whole) ∙ find_at-append a xs ys

parted-Represents :
    {q : TimerQueue} {ts : List Timer} (xs ys : List Timer) (k : KeySet)
    → Represents q ts []
    → xs ++ ys ≡ ts
    → Keys k ys
    → Represents (record q { timers = entries ys; active_timers = k }) ys xs
parted-Represents xs ys k r whole c =
    let d = subst Distinct (sym whole) r.distinct in
    let (dx, dy) = Distinct-append xs ys d in
    record {
      timers_eq = refl;
      size_eq = c.size_eq;
      has_eq = c.has_eq;
      heap_eq = λ a.
          heap_parts xs ys r whole a
          ∙ or_else_comm (find_at a xs) (find_at a ys) (λ t e. apart a xs ys t d e);
      distinct = dy;
      distinct_held = dx;
      disjoint = λ a t e. apart a xs ys t d e;
    }

-- From a queue whose timers all wait, the assertions hold; the timers that are due are
-- returned in order and are then held, and the later ones wait.
pub get_expired_lem :
    {q : TimerQueue} {ts : List Timer} (now : ℕ)
    → Represents q ts []
    → Returns (get_expired q now) (λ r.
      (r.0 ≡ entries (due now ts)) × Represents r.1 (later now ts) (due now ts) × (r.1.ran ≡ q.ran))
unfolding get_expired
get_expired_lem {q} {ts} now r =
    let xs = due now ts in
    let ys = later now ts in
    let whole : xs ++ ys ≡ ts = due-later now ts in
    let d = subst Distinct (sym whole) r.distinct in
    let all : Keys q.active_timers ts = record { size_eq = r.size_eq; has_eq = r.has_eq } in
    let keys = subst (Keys q.active_timers) (sym whole) all in
    let untils : until now q.timers ≡ entries xs = ap (until now) r.timers_eq ∙ until-due now ts in
    let beyonds : beyond now q.timers ≡ entries ys =
      ap (beyond now) r.timers_eq ∙ beyond-later now ts in
    let q0 = record q { timers = entries ys } in
    let found =
      heap-Found q.heap xs
        (λ a t e. heap_parts xs ys r whole a ∙ ap (λ o. or_else o (find_at a ys)) e)
        (Distinct-append xs ys d).0 in
    rw (sizes-Represents r, starts_after-beyond now q.timers, untils, beyonds)
      (Returns->>= (erase_all q0 (entries xs)) _ _ _ (erase_all_lem xs ys q0 d found keys)
        (λ q' (k, e, c).
          let r' = subst (λ p. Represents p ys xs) (sym e) (parted-Represents xs ys k r whole c) in
          rw (sizes-Represents r') (refl, r', ap (λ p. p.ran) e)))
