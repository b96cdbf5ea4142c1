-- ===== src/Net/TimerQueue/Round.antt =====
-- `handleRead` of net/TimerQueue.cc: the expired timers are called, and those that repeat are restarted.
use slack.Base.{
  ℕ, ◌<◌, ◌≡◌, List, ◌++◌, true, false, none, ap, ◌∙◌, Returns, Returns->>=, Returns-mono,
}
use slack.Net.TimerQueue.{
  Timer, TimerQueue, no_keys, find_at, Entry, Command, run_all, reset, get_expired, handle_read,
}
use slack.Net.TimerQueue.Timers.{entries, due, later}
use slack.Net.TimerQueue.Represents.{Represents}
use slack.Net.TimerQueue.Expiry.{Found, heap-Found, get_expired_lem}
use slack.Net.TimerQueue.Order.{later-Sorted, later-valid}
use slack.Net.TimerQueue.Handle.{Ordered}
use slack.Net.TimerQueue.Commands.{AreTimely, sequences, with_fields, run_all_lem}
use slack.Net.TimerQueue.Restart.{restarts, IsQueue, end_lem}

-- The queue when the first callback is called.
abbrev pub at_calls : TimerQueue → TimerQueue
at_calls q = record q { calling_expired = true; canceling_timers = no_keys }

pub record Begun (q : TimerQueue) (ts : List Timer) (now : ℕ) (r : List Entry × TimerQueue)
    : Type 0 where
  pub entries_eq : r.0 ≡ entries (due now ts)
  pub represents : Represents (at_calls r.1) (later now ts) (due now ts)
  pub ordered : Ordered (later now ts)
  pub found : Found (due now ts) (due now ts)
  pub ran_eq : r.1.ran ≡ q.ran

pub begin_lem :
    (q : TimerQueue) (ts : List Timer) (now : ℕ)
    → IsQueue q ts
    → Returns (get_expired (record q { armed = none }) now) (Begun q ts now)
begin_lem q ts now w =
    Returns-mono (get_expired (record q { armed = none }) now) _ _
      (get_expired_lem now
        (with_fields q q.ran none q.calling_expired q.canceling_timers w.represents))
      (λ r (e, p, n). record {
        entries_eq = e;
        represents = with_fields r.1 r.1.ran r.1.armed true no_keys p;
        ordered = record {
          sorted = later-Sorted now ts w.ordered.sorted;
          valid = later-valid now ts w.ordered.valid;
        };
        found = heap-Found (due now ts) (due now ts) (λ a t f. f) p.distinct_held;
        ran_eq = n;
      })

module _ (alloc : List Timer → ℕ) (alloc_free : (h : List Timer) → find_at (alloc h) h ≡ none)
    (callback : TimerQueue → Timer → List Command)
    (timely : (q : TimerQueue) (t : Timer) → AreTimely (callback q t)) where
  -- `handleRead` returns, with any callbacks that add timers of valid times and cancel timers, where
  -- `new` gives addresses that no timer has: no assertion fails and no timer is used after its deletion. It calls every
  -- timer that is due, in order and once, and no other; after it, the sets and the timers that are alive agree again, and
  -- the timerfd goes off no later than the first timer is due, or than 100 microseconds after it was set.
  pub handle_read_lem :
      (q : TimerQueue) (ts : List Timer) (now : ℕ)
      → 0 < now
      → IsQueue q ts
      → Returns
          (handle_read alloc callback q now)
          (λ q'. ((ts' : List Timer) × IsQueue q' ts') × (q'.ran ≡ q.ran ++ sequences (due now ts)))
  unfolding handle_read
  handle_read_lem q ts now h w =
      let xs = due now ts in
      Returns->>= (get_expired (record q { armed = none }) now) _ _ _ (begin_lem q ts now w) (λ r b.
        rw b.entries_eq (
          Returns->>= (run_all alloc callback (at_calls r.1) (entries xs)) _ _ _
            (run_all_lem alloc alloc_free callback timely xs (at_calls r.1) (later now ts) xs
              b.found b.represents b.ordered)
            (λ p a.
              Returns-mono (reset (record p { calling_expired = false }) (entries xs) now) _ _
                (end_lem now h a.represents a.ordered)
                (λ p' (v, m). (
                  (restarts now p.canceling_timers xs a.ts', v),
                  m ∙ a.keeps.ran_eq ∙ ap (λ l. l ++ sequences xs) b.ran_eq,
                )))))
