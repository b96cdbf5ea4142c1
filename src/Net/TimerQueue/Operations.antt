-- ===== src/Net/TimerQueue/Operations.antt =====
-- Timers that are made, cancelled, taken out when they are due, restarted and deleted, in net/TimerQueue.cc.
use slack.Base.{
  ℕ, ◌≡◌, List, [], ◌∷◌, true, Option, some, none, ◌==◌, arith, refl, sym, ap, ◌∙◌, Bool-cases, inl,
  inr, Returns, subst,
}
use slack.Net.TimerQueue.{
  Timer, TimerQueue, find_at, remove_at, has_entry, erase_entry, erase_key, cancel_active, restart,
  restarted,
}
use slack.Net.TimerQueue.Timers.{
  has_key, at_same, has_entry-some, has_key-some, find_at-remove_at, remove_at-Distinct,
  length-remove_at, has_key-remove_at, entries-remove_at,
}
use slack.Net.TimerQueue.Represents.{Represents, or_else, held_none}

-- `new` gives an address where no timer is.
pub made-Represents :
    {q : TimerQueue} {ts held : List Timer} (t : Timer) (n : ℕ)
    → Represents q ts held
    → find_at t.address q.heap ≡ none
    → Represents (record q { heap = t ∷ q.heap; created = n }) ts (t ∷ held)
made-Represents {q} {ts} {held} t n r free = record {
  timers_eq = r.timers_eq;
  size_eq = r.size_eq;
  has_eq = r.has_eq;
  heap_eq = λ a. elim (Bool-cases (t.address == a)) [
    | inl e ↦ ground (arith, r.heap_eq a, at_same a t.address q.heap e free)
    | inr e ↦ ground (arith, r.heap_eq a)
  ];
  distinct = r.distinct;
  distinct_held = (ground (arith, r.heap_eq t.address), r.distinct_held);
  disjoint = λ a u h. elim (Bool-cases (t.address == a)) [
    | inl e ↦ ground (arith, r.heap_eq a, at_same a t.address q.heap e free)
    | inr e ↦ ground (arith, r.disjoint a u)
  ];
}

pub deleted-Represents :
    {q : TimerQueue} {ts held : List Timer} {t : Timer}
    → Represents q ts (t ∷ held)
    → Represents (record q { heap = remove_at t.address q.heap }) ts held
deleted-Represents {q} {ts} {held} {t} r = record {
  timers_eq = r.timers_eq;
  size_eq = r.size_eq;
  has_eq = r.has_eq;
  heap_eq = λ a. elim (Bool-cases (t.address == a)) [
    | inl e ↦ ground (
      arith,
      r.heap_eq a,
      find_at-remove_at a t.address q.heap,
      at_same a t.address ts e (held_none r),
      at_same a t.address held e r.distinct_held.0,
    )
    | inr e ↦ ground (arith, r.heap_eq a, find_at-remove_at a t.address q.heap)
  ];
  distinct = r.distinct;
  distinct_held = r.distinct_held.1;
  disjoint = λ a u h. elim (Bool-cases (t.address == a)) [
    | inl e ↦ at_same a t.address ts e (held_none r)
    | inr e ↦ r.disjoint a u (ground arith)
  ];
}

pub restart-Represents :
    {q : TimerQueue} {ts held : List Timer} {t : Timer} (now : ℕ)
    → Represents q ts (t ∷ held)
    → Represents (restart q t now) ts (restarted t now ∷ held)
unfolding restart
restart-Represents {q} {ts} {held} {t} now r = record {
  timers_eq = r.timers_eq;
  size_eq = r.size_eq;
  has_eq = r.has_eq;
  heap_eq = λ a. elim (Bool-cases (t.address == a)) [
    | inl e ↦ ground (arith, at_same a t.address ts e (held_none r))
    | inr e ↦ ground (arith, r.heap_eq a, find_at-remove_at a t.address q.heap)
  ];
  distinct = r.distinct;
  distinct_held = r.distinct_held;
  disjoint = λ a u h. elim (Bool-cases (t.address == a)) [
    | inl e ↦ at_same a t.address ts e (held_none r)
    | inr e ↦ r.disjoint a u (ground arith)
  ];
}

abbrev cancelled : TimerQueue → ℕ → ℕ → Timer → TimerQueue
cancelled q a s t = record q {
  timers = erase_entry (t.expiration, a) q.timers;
  heap = remove_at a q.heap;
  active_timers = erase_key a s q.active_timers;
}

-- A timer that waits is among the active ones.
has_key-find_at :
    (a : ℕ) (ts : List Timer) (t : Timer) → find_at a ts ≡ some t → has_key a t.sequence ts ≡ true
has_key-find_at a [] t h = cc
has_key-find_at a (u ∷ us) t h = ground (arith, has_key-find_at a us t)

known :
    {q : TimerQueue} {ts held : List Timer} {a : ℕ} {t : Timer}
    → Represents q ts held
    → find_at a ts ≡ some t
    → q.active_timers.has a t.sequence ≡ true
known {ts = ts} {a = a} {t = t} r f = r.has_eq a t.sequence ∙ has_key-find_at a ts t f

no_clash :
    (o p : Option Timer) (t : Timer) → ((u : Timer) → o ≡ some u → p ≡ none) → p ≡ some t → o ≡ none
no_clash none p t d f = refl
no_clash (some u) p t d f = absurd (ground (arith, d u refl))

held_gone :
    (b a : ℕ) (t : Timer) (ts held : List Timer)
    → (b == a) ≡ true
    → ((c : ℕ) (u : Timer) → find_at c held ≡ some u → find_at c ts ≡ none)
    → find_at a ts ≡ some t
    → find_at b held ≡ none
held_gone b a t ts held e d f =
    let same : b ≡ a = ground arith in
    ap (λ x. find_at x held) same ∙ no_clash (find_at a held) (find_at a ts) t (d a) f

cancelled-Represents :
    {q : TimerQueue} {ts held : List Timer} (a : ℕ) (t : Timer)
    → Represents q ts held
    → find_at a ts ≡ some t
    → Represents (cancelled q a t.sequence t) (remove_at a ts) held
cancelled-Represents {q} {ts} {held} a t r f = record {
  timers_eq =
      ap (erase_entry (t.expiration, a)) r.timers_eq ∙ entries-remove_at a ts t r.distinct f;
  size_eq = ground (arith, known r f, r.size_eq, length-remove_at a ts t r.distinct f);
  has_eq =
      λ b s. ground (arith, known r f, r.has_eq b s, has_key-remove_at a b s ts t r.distinct f);
  heap_eq = λ b. elim (Bool-cases (b == a)) [
    | inl e ↦ ground (
      arith,
      find_at-remove_at b a q.heap,
      find_at-remove_at b a ts,
      held_gone b a t ts held e r.disjoint f,
    )
    | inr e ↦ ground (arith, find_at-remove_at b a q.heap, find_at-remove_at b a ts, r.heap_eq b)
  ];
  distinct = remove_at-Distinct a ts r.distinct;
  distinct_held = r.distinct_held;
  disjoint = λ b u h. ground (arith, find_at-remove_at b a ts, r.disjoint b u);
}

waiting_entry :
    {q : TimerQueue} {ts held : List Timer} (a : ℕ) (t : Timer)
    → Represents q ts held
    → find_at a ts ≡ some t
    → has_entry (t.expiration, a) q.timers ≡ true
waiting_entry {ts = ts} a t r f =
    ap (has_entry (t.expiration, a)) r.timers_eq ∙ has_entry-some a ts t f

cancel_active_lem :
    {q : TimerQueue} {ts held : List Timer} (a : ℕ) (t : Timer)
    → Represents q ts held
    → find_at a ts ≡ some t
    → cancel_active q a t.sequence ≡ some (cancelled q a t.sequence t)
unfolding cancel_active
cancel_active_lem {q} {ts} {held} a t r f =
    let live : find_at a q.heap ≡ some t = r.heap_eq a ∙ ap (λ o. or_else o (find_at a held)) f in
    rw (live, waiting_entry a t r f) refl

-- A timer that the timers have under a key is cancelled, whole.
pub cancel_active-Represents :
    {q : TimerQueue} {ts held : List Timer} (a s : ℕ)
    → Represents q ts held
    → q.active_timers.has a s ≡ true
    → Returns (cancel_active q a s) (λ q'.
      Represents q' (remove_at a ts) held
      × (q'.canceling_timers ≡ q.canceling_timers)
      × (q'.armed ≡ q.armed)
      × (q'.ran ≡ q.ran)
      × (q'.calling_expired ≡ q.calling_expired)
      × (q'.created ≡ q.created))
cancel_active-Represents {q} {ts} {held} a s r h =
    let (t, f, e) = has_key-some a s ts r.distinct (sym (r.has_eq a s) ∙ h) in
    subst
      (λ n. Returns (cancel_active q a n) (λ q'.
        Represents q' (remove_at a ts) held
        × (q'.canceling_timers ≡ q.canceling_timers)
        × (q'.armed ≡ q.armed)
        × (q'.ran ≡ q.ran)
        × (q'.calling_expired ≡ q.calling_expired)
        × (q'.created ≡ q.created)))
      e
      (rw (cancel_active_lem a t r f) (cancelled-Represents a t r f, refl, refl, refl, refl, refl))
