-- ===== src/Net/TimerQueue/Handle.antt =====
-- `addTimer` and `cancel` of net/TimerQueue.cc, called in the loop's thread.
use slack.Base.{
  ℕ, ◌+◌, ◌≡◌, List, ◌∷◌, Bool, true, false, not, ◌&&◌, ◌||◌, Option, some, none, if◌then◌else◌,
  ◌==◌, arith, refl, ap, ◌∙◌, Bool-cases, inl, inr, Returns, Returns->>=, Returns-mono,
}
use slack.Net.TimerQueue.{
  Timer, TimerQueue, find_at, remove_at, insert_key, is_earliest, add_timer_in_loop, cancel_active,
  cancel_in_loop, Command, add, cancel, add_timer, obey, reset_timerfd, alarm,
}
use slack.Net.TimerQueue.Timers.{entries, has_key, insert_timer, find_at-insert_timer}
use slack.Net.TimerQueue.Represents.{
  Represents, sizes-Represents, held_none, inserted, inserted-Represents, insert_lem, or_else,
}
use slack.Net.TimerQueue.Operations.{made-Represents, cancel_active-Represents}
use slack.Net.TimerQueue.Order.{NoneBefore, Sorted, is_armed}

-- What no command changes, and the cancellations it keeps.
pub record Keeps (q q' : TimerQueue) : Type 0 where
  pub ran_eq : q'.ran ≡ q.ran
  pub calling_eq : q'.calling_expired ≡ q.calling_expired
  pub keeps_key : (a s : ℕ) → q.canceling_timers.has a s ≡ true → q'.canceling_timers.has a s ≡ true

-- The list of timers is in order, and each has a valid time.
pub record Ordered (ts : List Timer) : Type 0 where
  pub sorted : Sorted ts
  pub valid : NoneBefore 1 ts

abbrev pub made : (List Timer → ℕ) → TimerQueue → ℕ → ℕ → Bool → Timer
made alloc q when interval repeat = record {
  address = alloc q.heap;
  expiration = when;
  interval = interval;
  repeat = repeat;
  sequence = q.created + 1;
}

-- A record of what a command did.
pub record Done (q q' : TimerQueue) (ts ts' held : List Timer) : Type 0 where
  pub represents : Represents q' ts' held
  pub keeps : Keeps q q'
  pub armed_after : is_armed (entries ts') q'.armed ≡ true

self : (t : Timer) (o : Option Timer) → (if t.address == t.address then some t else o) ≡ some t
self t o = ground arith

find_at-inserted :
    {q : TimerQueue} {ts held : List Timer} {t : Timer}
    → Represents q ts (t ∷ held)
    → find_at t.address (inserted q t).heap ≡ some t
find_at-inserted {q} {ts} {held} {t} r =
    let r' = inserted-Represents r in
    r'.heap_eq t.address
    ∙ ap (λ o. or_else o (find_at t.address held))
        (find_at-insert_timer t.address t ts (held_none r) ∙ self t (find_at t.address ts))

add_timer_in_loop_lem :
    {q : TimerQueue} {ts held : List Timer} {t : Timer}
    → Represents q ts (t ∷ held)
    → add_timer_in_loop q t.address
      ≡ some (
          if is_earliest t.expiration q.timers
          then reset_timerfd (inserted q t) t.expiration
          else inserted q t)
unfolding add_timer_in_loop
add_timer_in_loop_lem {q} {ts} {held} {t} r = rw (insert_lem r, find_at-inserted r) refl

pub armed-Represents :
    {q : TimerQueue} {ts held : List Timer} (b : Bool) (w : ℕ)
    → Represents q ts held
    → Represents (if b then reset_timerfd q w else q) ts held
armed-Represents true w r = record {
  timers_eq = r.timers_eq;
  size_eq = r.size_eq;
  has_eq = r.has_eq;
  heap_eq = r.heap_eq;
  distinct = r.distinct;
  distinct_held = r.distinct_held;
  disjoint = r.disjoint;
}
armed-Represents false w r = r

armed-Keeps :
    {q q' : TimerQueue} (b : Bool) (w : ℕ)
    → Keeps q q'
    → Keeps q (if b then reset_timerfd q' w else q')
armed-Keeps true w k = record {
  ran_eq = k.ran_eq;
  calling_eq = k.calling_eq;
  keeps_key = k.keeps_key;
}
armed-Keeps false w k = k

-- A cancellation that finds its timer deletes it; another one is noted while expired timers are called.
abbrev pub CancelDone : TimerQueue → List Timer → List Timer → ℕ → ℕ → TimerQueue → Type 0
CancelDone q ts held a s q' =
    Represents q' (if has_key a s ts then remove_at a ts else ts) held
    × Keeps q q'
    × (q'.armed ≡ q.armed)
    × ((q.calling_expired && not (has_key a s ts)) || q.canceling_timers.has a s
        ≡ q'.canceling_timers.has a s)

abbrev noted : TimerQueue → ℕ → ℕ → TimerQueue
noted q a s =
    if q.calling_expired
    then record q { canceling_timers = insert_key a s q.canceling_timers }
    else q

noted-Keeps :
    (b : Bool) (q : TimerQueue) (a s : ℕ)
    → Keeps q (if b then record q { canceling_timers = insert_key a s q.canceling_timers } else q)
noted-Keeps true q a s = record {
  ran_eq = refl;
  calling_eq = refl;
  keeps_key = λ b t h. ground arith;
}
noted-Keeps false q a s = record { ran_eq = refl; calling_eq = refl; keeps_key = λ b t h. h }

noted-Represents :
    {q : TimerQueue} {ts held : List Timer} (b : Bool) (a s : ℕ)
    → Represents q ts held
    → Represents
        (if b then record q { canceling_timers = insert_key a s q.canceling_timers } else q)
        ts
        held
noted-Represents true a s r = record {
  timers_eq = r.timers_eq;
  size_eq = r.size_eq;
  has_eq = r.has_eq;
  heap_eq = r.heap_eq;
  distinct = r.distinct;
  distinct_held = r.distinct_held;
  disjoint = r.disjoint;
}
noted-Represents false a s r = r

noted-has :
    (q : TimerQueue) (a s : ℕ)
    → q.calling_expired || q.canceling_timers.has a s ≡ (noted q a s).canceling_timers.has a s
noted-has q a s = ground arith

choose_true :
    (b : Bool) (o p : Option TimerQueue) (P : TimerQueue → Type 0)
    → b ≡ true
    → Returns o P
    → Returns (if b then o else p) P
choose_true b o p P e h = rw e h

choose_false :
    (b : Bool) (o p : Option TimerQueue) (P : TimerQueue → Type 0)
    → b ≡ false
    → Returns p P
    → Returns (if b then o else p) P
choose_false b o p P e h = rw e h

found_or_noted :
    {q : TimerQueue} {ts held : List Timer} (a s : ℕ)
    → Represents q ts held
    → Returns
        (if q.active_timers.has a s then cancel_active q a s else some (noted q a s))
        (CancelDone q ts held a s)
found_or_noted {q} {ts} {held} a s r = elim (Bool-cases (has_key a s ts)) [
  | inl e ↦ choose_true _ _ _ _ (r.has_eq a s ∙ e) (
      Returns-mono (cancel_active q a s) _ _ (cancel_active-Represents a s r (r.has_eq a s ∙ e))
        (λ q' (r', c, m, n, l, d). rw e (
          r',
          record { ran_eq = n; calling_eq = l; keeps_key = λ b t h. ap (λ k. k.has b t) c ∙ h },
          m,
          ground (arith, ap (λ k. k.has a s) c),
        )))
  | inr e ↦ choose_false _ _ _ _ (r.has_eq a s ∙ e) (
      rw e (
        noted-Represents q.calling_expired a s r,
        noted-Keeps q.calling_expired q a s,
        ground arith,
        ground (arith, noted-has q a s),
      ))
]

-- A pointer and a sequence cancel the one timer that waits under them, and it is deleted. Where none waits,
-- the queue notes them while expired timers are called, and nothing else happens.
pub cancel_in_loop_lem :
    {q : TimerQueue} {ts held : List Timer} (a s : ℕ)
    → Represents q ts held
    → Returns (cancel_in_loop q a s) (CancelDone q ts held a s)
unfolding cancel_in_loop
cancel_in_loop_lem {q} {ts} {held} a s r = rw (sizes-Represents r) (
    Returns->>= (if q.active_timers.has a s then cancel_active q a s else some (noted q a s))
      (CancelDone q ts held a s) _ _ (found_or_noted a s r) (λ q' d. rw (sizes-Represents d.0) d))

-- The timers that wait after a command.
abbrev pub obeyed : (List Timer → ℕ) → TimerQueue → List Timer → Command → List Timer
obeyed alloc q ts (add when interval repeat) = insert_timer (made alloc q when interval repeat) ts
obeyed alloc q ts (cancel a s) = if has_key a s ts then remove_at a ts else ts

module _ (alloc : List Timer → ℕ) (alloc_free : (h : List Timer) → find_at (alloc h) h ≡ none) where
  pub add_timer_lem :
      {q : TimerQueue} {ts held : List Timer} (when interval : ℕ) (repeat : Bool)
      → Represents q ts held
      → Returns (add_timer alloc q when interval repeat) (λ q'.
        Represents q' (insert_timer (made alloc q when interval repeat) ts) held
        × Keeps q q'
        × (q'.armed ≡ (
            if is_earliest when (entries ts)
            then some (alarm when (q.clock q.settings))
            else q.armed)))
  unfolding add_timer
  add_timer_lem {q} {ts} {held} when interval repeat r =
      let t = made alloc q when interval repeat in
      let r' = made-Represents t (q.created + 1) r (alloc_free q.heap) in
      rw (add_timer_in_loop_lem r') (
        armed-Represents (is_earliest when q.timers) when (inserted-Represents r'),
        armed-Keeps (is_earliest when q.timers) when
            (record { ran_eq = refl; calling_eq = refl; keeps_key = λ a s h. h }),
        ground (arith, ap (is_earliest when) r.timers_eq),
      )

  pub obey-Represents :
      {q : TimerQueue} {ts held : List Timer} (c : Command)
      → Represents q ts held
      → Returns (obey alloc q c) (λ q'. Represents q' (obeyed alloc q ts c) held × Keeps q q')
  unfolding obey
  obey-Represents {q} (add when interval repeat) r =
      Returns-mono (add_timer alloc q when interval repeat) _ _
        (add_timer_lem when interval repeat r) (λ q' d. (d.0, d.1))
  obey-Represents {q} (cancel a s) r =
      Returns-mono (cancel_in_loop q a s) _ _ (cancel_in_loop_lem a s r) (λ q' d. (d.0, d.1))
