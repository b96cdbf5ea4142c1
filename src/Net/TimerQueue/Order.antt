-- ===== src/Net/TimerQueue/Order.antt =====
-- The order of the timers in net/TimerQueue.cc, and the time that the timerfd is set for.
use slack.Base.{
  ℕ, suc, ◌≤◌, ◌<◌, ◌≡◌, List, [], ◌∷◌, Bool, true, false, Option, some, none, if◌then◌else◌, leb,
  ◌+◌, ◌||◌, ◌==◌, arith, refl, Bool-cases, inl, inr,
}
use slack.Net.TimerQueue.{
  Timer, Entry, remove_at, entry_lt, is_earliest, alarm, how_much_time_from_now,
}
use slack.Net.TimerQueue.Timers.{entry, entries, insert_timer, later}

-- No timer expires before `w`.
abbrev pub NoneBefore : ℕ → List Timer → Type 0
NoneBefore w [] = Unit {0}
NoneBefore w (t ∷ ts) = (w ≤ t.expiration) × NoneBefore w ts

abbrev pub Sorted : List Timer → Type 0
Sorted [] = Unit {0}
Sorted (t ∷ ts) = NoneBefore t.expiration ts × Sorted ts

-- A timerfd goes off no later than at `when`, or than 100 microseconds after it was set.
abbrev pub in_time : ℕ × ℕ → ℕ → Bool
in_time (at, goes_off) when = leb goes_off when || leb goes_off (at + 100)

pub alarm-in_time : (when now : ℕ) → in_time (alarm when now) when ≡ true
unfolding alarm how_much_time_from_now
alarm-in_time when now = ground arith

-- The timerfd goes off no later than the first timer is due, or than 100 microseconds after it was set.
abbrev pub is_armed : List Entry → Option (ℕ × ℕ) → Bool
is_armed [] o = true
is_armed (e ∷ es) none = false
is_armed (e ∷ es) (some w) = in_time w e.0

NoneBefore-weaken : (v w : ℕ) (ts : List Timer) → v ≤ w → NoneBefore w ts → NoneBefore v ts
NoneBefore-weaken v w [] h n = tt
NoneBefore-weaken v w (t ∷ ts) h n = (omega (arith, n.0), NoneBefore-weaken v w ts h n.1)

NoneBefore-insert_timer :
    (w : ℕ) (t : Timer) (ts : List Timer)
    → w ≤ t.expiration
    → NoneBefore w ts
    → NoneBefore w (insert_timer t ts)
NoneBefore-insert_timer w t [] h n = (h, tt)
NoneBefore-insert_timer w t (u ∷ us) h n = elim (Bool-cases (entry_lt (entry t) (entry u))) [
  | inl e ↦ rw e (h, n)
  | inr e ↦ rw e (n.0, NoneBefore-insert_timer w t us h n.1)
]

pub insert_timer-Sorted : (t : Timer) (ts : List Timer) → Sorted ts → Sorted (insert_timer t ts)
insert_timer-Sorted t [] s = (tt, tt)
insert_timer-Sorted t (u ∷ us) s = elim (Bool-cases (entry_lt (entry t) (entry u))) [
  | inl e ↦
      let le : t.expiration ≤ u.expiration = ground arith in
      rw e ((le, NoneBefore-weaken t.expiration u.expiration us le s.0), s)
  | inr e ↦
      rw e
        (NoneBefore-insert_timer u.expiration t us (ground arith) s.0, insert_timer-Sorted t us s.1)
]

NoneBefore-remove_at : (w a : ℕ) (ts : List Timer) → NoneBefore w ts → NoneBefore w (remove_at a ts)
NoneBefore-remove_at w a [] n = tt
NoneBefore-remove_at w a (t ∷ ts) n = elim (Bool-cases (t.address == a)) [
  | inl e ↦ rw e (NoneBefore-remove_at w a ts n.1)
  | inr e ↦ rw e (n.0, NoneBefore-remove_at w a ts n.1)
]

pub remove_at-Sorted : (a : ℕ) (ts : List Timer) → Sorted ts → Sorted (remove_at a ts)
remove_at-Sorted a [] s = tt
remove_at-Sorted a (t ∷ ts) s = elim (Bool-cases (t.address == a)) [
  | inl e ↦ rw e (remove_at-Sorted a ts s.1)
  | inr e ↦ rw e (NoneBefore-remove_at t.expiration a ts s.0, remove_at-Sorted a ts s.1)
]

pub later-Sorted : (now : ℕ) (ts : List Timer) → Sorted ts → Sorted (later now ts)
later-Sorted now [] s = tt
later-Sorted now (t ∷ ts) s = elim (Bool-cases (leb t.expiration now)) [
  | inl e ↦ rw e (later-Sorted now ts s.1)
  | inr e ↦ rw e s
]

-- In order, all timers behind those that are due expire later.
pub NoneBefore-later : (now : ℕ) (ts : List Timer) → Sorted ts → NoneBefore (suc now) (later now ts)
NoneBefore-later now [] s = tt
NoneBefore-later now (t ∷ ts) s = elim (Bool-cases (leb t.expiration now)) [
  | inl e ↦ rw e (NoneBefore-later now ts s.1)
  | inr e ↦
      let after : suc now ≤ t.expiration = ground arith in
      rw e (after, NoneBefore-weaken (suc now) t.expiration ts after s.0)
]

pub NoneBefore-insert_valid :
    (t : Timer) (ts : List Timer)
    → 0 < t.expiration
    → NoneBefore 1 ts
    → NoneBefore 1 (insert_timer t ts)
NoneBefore-insert_valid t ts h n = NoneBefore-insert_timer 1 t ts (omega arith) n

pub NoneBefore-remove_valid :
    (a : ℕ) (ts : List Timer) → NoneBefore 1 ts → NoneBefore 1 (remove_at a ts)
NoneBefore-remove_valid a ts n = NoneBefore-remove_at 1 a ts n

pub later-valid : (now : ℕ) (ts : List Timer) → NoneBefore 1 ts → NoneBefore 1 (later now ts)
later-valid now [] n = tt
later-valid now (t ∷ ts) n = elim (Bool-cases (leb t.expiration now)) [
  | inl e ↦ rw e (later-valid now ts n.1)
  | inr e ↦ rw e n
]

-- The timerfd is set early enough for all of these.
is_armed-NoneBefore :
    (w : ℕ) (v : ℕ × ℕ) (ts : List Timer)
    → NoneBefore w ts
    → in_time v w ≡ true
    → is_armed (entries ts) (some v) ≡ true
is_armed-NoneBefore w v [] n h = refl
is_armed-NoneBefore w v (t ∷ ts) n h =
    let le : w ≤ t.expiration = omega (arith, n.0) in ground (arith, h)

-- Taking a timer away leaves the timerfd set early enough.
pub is_armed-remove_at :
    (a : ℕ) (o : Option (ℕ × ℕ)) (ts : List Timer)
    → Sorted ts
    → is_armed (entries ts) o ≡ true
    → is_armed (entries (remove_at a ts)) o ≡ true
is_armed-remove_at a o [] s h = refl
is_armed-remove_at a none (t ∷ ts) s h = cc
is_armed-remove_at a (some v) (t ∷ ts) s h = elim (Bool-cases (t.address == a)) [
  | inl e ↦ rw e (
      is_armed-NoneBefore t.expiration v (remove_at a ts)
        (NoneBefore-remove_at t.expiration a ts s.0) (ground arith))
  | inr e ↦ rw e h
]

-- A timer that comes first sets it anew, and another one leaves it as it is.
pub is_armed-insert_timer :
    (t : Timer) (now : ℕ) (o : Option (ℕ × ℕ)) (ts : List Timer)
    → is_armed (entries ts) o ≡ true
    → is_armed
        (entries (insert_timer t ts))
        (if is_earliest t.expiration (entries ts) then some (alarm t.expiration now) else o)
      ≡ true
is_armed-insert_timer t now o [] h = alarm-in_time t.expiration now
is_armed-insert_timer t now none (u ∷ us) h = cc
is_armed-insert_timer t now (some v) (u ∷ us) h = ground (arith, h, alarm-in_time t.expiration now)
