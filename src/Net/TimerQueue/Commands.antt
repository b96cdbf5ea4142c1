-- ===== src/Net/TimerQueue/Commands.antt =====
-- The commands of callbacks in net/TimerQueue.cc, and the callbacks of the timers that are due.
use slack.Base.{
  ℕ, ◌<◌, ◌≡◌, List, [], ◌∷◌, ◌++◌, Bool, true, false, Option, some, none, if◌then◌else◌, refl, sym,
  ap, ◌∙◌, Returns, Returns->>=, Returns-mono, append_assoc, append-nil,
}
use slack.Net.TimerQueue.{
  Timer, TimerQueue, KeySet, find_at, remove_at, Command, add, cancel, obey, obey_all, run_all,
}
use slack.Net.TimerQueue.Timers.{entries, insert_timer, has_key}
use slack.Net.TimerQueue.Represents.{Represents, or_else}
use slack.Net.TimerQueue.Expiry.{Found}
use slack.Net.TimerQueue.Order.{
  insert_timer-Sorted, remove_at-Sorted, NoneBefore-insert_valid, NoneBefore-remove_valid,
}
use slack.Net.TimerQueue.Handle.{Keeps, Ordered, obeyed, obey-Represents}

-- The time of a timer that is added is valid.
abbrev pub IsTimely : Command → Type 0
IsTimely (add when interval repeat) = 0 < when
IsTimely (cancel a s) = Unit {0}

abbrev pub AreTimely : List Command → Type 0
AreTimely [] = Unit {0}
AreTimely (c ∷ cs) = IsTimely c × AreTimely cs

abbrev pub sequences : List Timer → List ℕ
sequences [] = []
sequences (t ∷ ts) = t.sequence ∷ sequences ts

remove_if :
    (b : Bool) (a : ℕ) (ts : List Timer) → Ordered ts → Ordered (if b then remove_at a ts else ts)
remove_if true a ts o = record {
  sorted = remove_at-Sorted a ts o.sorted;
  valid = NoneBefore-remove_valid a ts o.valid;
}
remove_if false a ts o = o

pub insert_timer-Ordered :
    (t : Timer) (ts : List Timer) → 0 < t.expiration → Ordered ts → Ordered (insert_timer t ts)
insert_timer-Ordered t ts h o = record {
  sorted = insert_timer-Sorted t ts o.sorted;
  valid = NoneBefore-insert_valid t ts h o.valid;
}

pub obeyed-Ordered :
    (alloc : List Timer → ℕ) (q : TimerQueue) (ts : List Timer) (c : Command)
    → IsTimely c
    → Ordered ts
    → Ordered (obeyed alloc q ts c)
obeyed-Ordered alloc q ts (add when interval repeat) h o = insert_timer-Ordered _ ts h o
obeyed-Ordered alloc q ts (cancel a s) h o = remove_if (has_key a s ts) a ts o

Keeps-refl : (q : TimerQueue) → Keeps q q
Keeps-refl q = record { ran_eq = refl; calling_eq = refl; keeps_key = λ a s h. h }

pub Keeps-trans : {p q r : TimerQueue} → Keeps p q → Keeps q r → Keeps p r
Keeps-trans k l = record {
  ran_eq = l.ran_eq ∙ k.ran_eq;
  calling_eq = l.calling_eq ∙ k.calling_eq;
  keeps_key = λ a s h. l.keeps_key a s (k.keeps_key a s h);
}

-- What commands lead to, with some timers held.
pub record After (q : TimerQueue) (held : List Timer) (q' : TimerQueue) : Type 0 where
  pub ts' : List Timer
  pub represents : Represents q' ts' held
  pub ordered : Ordered ts'
  pub keeps : Keeps q q'

pub with_fields :
    {ts held : List Timer} (q : TimerQueue) (ran : List ℕ) (armed : Option (ℕ × ℕ)) (calling : Bool)
    (k : KeySet)
    → Represents q ts held
    → Represents
        (record q { ran = ran; armed = armed; calling_expired = calling; canceling_timers = k })
        ts
        held
with_fields q ran armed calling k r = record {
  timers_eq = r.timers_eq;
  size_eq = r.size_eq;
  has_eq = r.has_eq;
  heap_eq = r.heap_eq;
  distinct = r.distinct;
  distinct_held = r.distinct_held;
  disjoint = r.disjoint;
}

pub found_held :
    {q : TimerQueue} {ts held : List Timer} (t : Timer)
    → Represents q ts held
    → find_at t.address held ≡ some t
    → find_at t.address q.heap ≡ some t
found_held {held = held} t r f =
    r.heap_eq t.address
    ∙ ap (λ o. or_else o (find_at t.address held)) (r.disjoint t.address t f)
    ∙ f

-- A callback, and the rest of a round.
pub After-run :
    {p p' : TimerQueue} {held : List Timer} (q : TimerQueue) (x : Timer) (xs : List Timer)
    → After (record q { ran = q.ran ++ (x.sequence ∷ []) }) held p
    → After (record p { ran = p.ran ++ sequences xs }) held p'
    → After (record q { ran = q.ran ++ sequences (x ∷ xs) }) held p'
After-run q x xs a b = record {
  ts' = b.ts';
  represents = b.represents;
  ordered = b.ordered;
  keeps = record {
    ran_eq =
        b.keeps.ran_eq
        ∙ ap (λ l. l ++ sequences xs) a.keeps.ran_eq
        ∙ append_assoc q.ran (x.sequence ∷ []) (sequences xs);
    calling_eq = b.keeps.calling_eq ∙ a.keeps.calling_eq;
    keeps_key = λ c s h. b.keeps.keeps_key c s (a.keeps.keeps_key c s h);
  };
}

module _ (alloc : List Timer → ℕ) (alloc_free : (h : List Timer) → find_at (alloc h) h ≡ none) where
  pub obey_all_lem :
      (cs : List Command) (q : TimerQueue) (ts held : List Timer)
      → AreTimely cs
      → Represents q ts held
      → Ordered ts
      → Returns (obey_all alloc q cs) (After q held)
  unfolding obey_all
  obey_all_lem [] q ts held v r o = record {
    ts' = ts;
    represents = r;
    ordered = o;
    keeps = Keeps-refl q;
  }
  obey_all_lem (c ∷ cs) q ts held v r o =
      Returns->>= (obey alloc q c) _ _ _ (obey-Represents alloc alloc_free c r) (λ p (r', k).
        Returns-mono (obey_all alloc p cs) _ _
          (obey_all_lem cs p _ held v.1 r' (obeyed-Ordered alloc q ts c v.0 o))
          (λ p' a. record {
            ts' = a.ts';
            represents = a.represents;
            ordered = a.ordered;
            keeps = Keeps-trans k a.keeps;
          }))

  module _ (callback : TimerQueue → Timer → List Command)
      (timely : (q : TimerQueue) (t : Timer) → AreTimely (callback q t)) where
    pub run_all_lem :
        (xs : List Timer) (q : TimerQueue) (ts held : List Timer)
        → Found held xs
        → Represents q ts held
        → Ordered ts
        → Returns
            (run_all alloc callback q (entries xs))
            (λ q'. After (record q { ran = q.ran ++ sequences xs }) held q')
    unfolding run_all
    run_all_lem [] q ts held f r o = record {
      ts' = ts;
      represents = r;
      ordered = o;
      keeps = record { ran_eq = sym (append-nil q.ran); calling_eq = refl; keeps_key = λ a s h. h };
    }
    run_all_lem (x ∷ xs) q ts held f r o =
        let called = record q { ran = q.ran ++ (x.sequence ∷ []) } in
        let r0 : Represents called ts held =
          with_fields q (q.ran ++ (x.sequence ∷ [])) q.armed q.calling_expired q.canceling_timers
            r in
        rw (found_held x r f.0) (
          Returns->>= (obey_all alloc called (callback q x)) _ _ _
            (obey_all_lem (callback q x) called ts held (timely q x) r0 o)
            (λ p a.
              Returns-mono (run_all alloc callback p (entries xs)) _ _
                (run_all_lem xs p a.ts' held f.1 a.represents a.ordered)
                (λ p' b. After-run q x xs a b)))
