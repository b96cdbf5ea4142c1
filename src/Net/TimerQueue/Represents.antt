-- ===== src/Net/TimerQueue/Represents.antt =====
-- The queue of net/TimerQueue.cc against a list of timers: those that wait, in order, and those that an
-- operation holds.
use slack.Base.{
  ℕ, ◌≡◌, List, ◌∷◌, true, false, Option, some, none, ◌==◌, length, arith, refl, sym, ap, ◌∙◌,
  Bool-cases, inl, inr,
}
use slack.Net.TimerQueue.{
  Timer, TimerQueue, find_at, has_entry, insert_entry, insert_key, same_sizes, is_earliest, insert,
}
use slack.Net.TimerQueue.Timers.{
  entry, entries, has_key, Distinct, insert_timer, at_same, length-entries, has_key-none,
  has_entry-none, entries-insert_timer, length-insert_timer, has_key-insert_timer,
  find_at-insert_timer, insert_timer-Distinct,
}

abbrev pub or_else : Option Timer → Option Timer → Option Timer
or_else none o = o
or_else (some t) o = some t

-- `ts` wait, and `held` are alive but in no set; there are no other timers.
pub record Represents (q : TimerQueue) (ts held : List Timer) : Type 0 where
  pub timers_eq : q.timers ≡ entries ts
  pub size_eq : q.active_timers.size ≡ length ts
  pub has_eq : (a s : ℕ) → q.active_timers.has a s ≡ has_key a s ts
  pub heap_eq : (a : ℕ) → find_at a q.heap ≡ or_else (find_at a ts) (find_at a held)
  pub distinct : Distinct ts
  pub distinct_held : Distinct held
  pub disjoint : (a : ℕ) (t : Timer) → find_at a held ≡ some t → find_at a ts ≡ none

pub sizes-Represents :
    {q : TimerQueue} {ts held : List Timer} → Represents q ts held → same_sizes q ≡ true
sizes-Represents {q} {ts} r =
    ground (arith, r.timers_eq, r.size_eq, length-entries ts, ap length r.timers_eq)

find_at_self : (t : Timer) (ts : List Timer) → find_at t.address (t ∷ ts) ≡ some t
find_at_self t ts = ground arith

pub held_none :
    {q : TimerQueue} {ts held : List Timer} {t : Timer}
    → Represents q ts (t ∷ held)
    → find_at t.address ts ≡ none
held_none {held = held} {t = t} r = r.disjoint t.address t (find_at_self t held)

-- A pointer to a timer that is held is good.
pub held_some :
    {q : TimerQueue} {ts held : List Timer} {t : Timer}
    → Represents q ts (t ∷ held)
    → find_at t.address q.heap ≡ some t
held_some {held = held} {t = t} r =
    r.heap_eq t.address
    ∙ ap (λ o. or_else o (find_at t.address (t ∷ held))) (held_none r)
    ∙ find_at_self t held

pub key_absent :
    {q : TimerQueue} {ts held : List Timer} {t : Timer}
    → Represents q ts (t ∷ held)
    → q.active_timers.has t.address t.sequence ≡ false
key_absent {ts = ts} {t = t} r =
    r.has_eq t.address t.sequence ∙ has_key-none t.address t.sequence ts (held_none r)

abbrev pub inserted : TimerQueue → Timer → TimerQueue
inserted q t = record q {
  timers = insert_entry (entry t) q.timers;
  active_timers = insert_key t.address t.sequence q.active_timers;
}

pub inserted-Represents :
    {q : TimerQueue} {ts held : List Timer} {t : Timer}
    → Represents q ts (t ∷ held)
    → Represents (inserted q t) (insert_timer t ts) held
inserted-Represents {q} {ts} {held} {t} r = record {
  timers_eq =
      ap (insert_entry (entry t)) r.timers_eq ∙ sym (entries-insert_timer t ts (held_none r));
  size_eq = ground (arith, key_absent r, r.size_eq, length-insert_timer t ts);
  has_eq = λ a s. ground (arith, key_absent r, r.has_eq a s, has_key-insert_timer a s t ts);
  heap_eq = λ a. elim (Bool-cases (t.address == a)) [
    | inl e ↦ ground (
      arith,
      r.heap_eq a,
      at_same a t.address ts e (held_none r),
      find_at-insert_timer a t ts (held_none r),
    )
    | inr e ↦ ground (arith, r.heap_eq a, find_at-insert_timer a t ts (held_none r))
  ];
  distinct = insert_timer-Distinct t ts (held_none r) r.distinct;
  distinct_held = r.distinct_held.1;
  disjoint = λ a u h. elim (Bool-cases (t.address == a)) [
    | inl e ↦ absurd (ground (arith, at_same a t.address held e r.distinct_held.0))
    | inr e ↦ find_at-insert_timer a t ts (held_none r) ∙ ground (arith, r.disjoint a u)
  ];
}

no_entry :
    {q : TimerQueue} {ts held : List Timer} {t : Timer}
    → Represents q ts (t ∷ held)
    → has_entry (entry t) q.timers ≡ false
no_entry {ts = ts} {t = t} r =
    ap (has_entry (entry t)) r.timers_eq ∙ has_entry-none t.expiration t.address ts (held_none r)

pub insert_lem :
    {q : TimerQueue} {ts held : List Timer} {t : Timer}
    → Represents q ts (t ∷ held)
    → insert q t.address ≡ some (is_earliest t.expiration q.timers, inserted q t)
unfolding insert
insert_lem {q} {ts} {held} {t} r =
    rw
      (
        sizes-Represents r,
        held_some r,
        no_entry r,
        sizes-Represents (inserted-Represents r),
        key_absent r,
      )
      refl
