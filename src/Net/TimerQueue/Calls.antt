-- ===== src/Net/TimerQueue/Calls.antt =====
-- Calls of net/TimerQueue.cc from outside a round, and the time that the timerfd is set for.
use slack.Base.{
  ℕ, ◌+◌, ◌-◌, ◌*◌, ◌<◌, ◌≡◌, List, Bool, true, false, Option, none, if◌then◌else◌, ltb, arith,
  Returns, Returns-mono,
}
use slack.Net.TimerQueue.{
  Timer, TimerQueue, find_at, remove_at, add, cancel, cancel_in_loop, add_timer,
  how_much_time_from_now,
}
use slack.Net.TimerQueue.Timers.{entries, insert_timer, has_key}
use slack.Net.TimerQueue.Order.{is_armed, is_armed-remove_at, is_armed-insert_timer}
use slack.Net.TimerQueue.Handle.{made, add_timer_lem, cancel_in_loop_lem}
use slack.Net.TimerQueue.Commands.{obeyed-Ordered}
use slack.Net.TimerQueue.Restart.{IsQueue}

is_armed-remove_if :
    (b : Bool) (a : ℕ) (o : Option (ℕ × ℕ)) {q : TimerQueue} (ts : List Timer)
    → IsQueue q ts
    → is_armed (entries (if b then remove_at a ts else ts)) q.armed ≡ true
is_armed-remove_if true a o {q} ts w = is_armed-remove_at a q.armed ts w.ordered.sorted w.armed_eq
is_armed-remove_if false a o ts w = w.armed_eq

-- `cancel` outside a round returns. It deletes the timer that waits under the pointer and the sequence, if there is one, and leaves
-- the others as they are; the sets and the timers that are alive agree, and the timerfd goes off no later than the first
-- timer is due, or than 100 microseconds after it was set.
pub cancel_in_loop-IsQueue :
    (q : TimerQueue) (ts : List Timer) (a s : ℕ)
    → IsQueue q ts
    → Returns
        (cancel_in_loop q a s)
        (λ q'. IsQueue q' (if has_key a s ts then remove_at a ts else ts))
cancel_in_loop-IsQueue q ts a s w =
    Returns-mono (cancel_in_loop q a s) _ _ (cancel_in_loop_lem a s w.represents)
      (λ q' (r, k, m, y). record {
        represents = r;
        ordered = obeyed-Ordered (λ h. 0) q ts (cancel a s) tt w.ordered;
        armed_eq = rw m (is_armed-remove_if (has_key a s ts) a q.armed ts w);
      })

-- `addTimer` with a valid time, outside a round and where `new` gives an address that no timer has, returns. The new timer
-- is put in its place among the others; the sets and the timers that are alive agree, and the timerfd goes off no
-- later than the first timer is due, or than 100 microseconds after it was set.
pub add_timer-IsQueue :
    (alloc : List Timer → ℕ) (alloc_free : (h : List Timer) → find_at (alloc h) h ≡ none)
    (q : TimerQueue) (ts : List Timer) (when interval : ℕ) (repeat : Bool)
    → 0 < when
    → IsQueue q ts
    → Returns
        (add_timer alloc q when interval repeat)
        (λ q'. IsQueue q' (insert_timer (made alloc q when interval repeat) ts))
add_timer-IsQueue alloc alloc_free q ts when interval repeat h w =
    Returns-mono (add_timer alloc q when interval repeat) _ _
      (add_timer_lem alloc alloc_free when interval repeat w.represents)
      (λ q' (r, k, m). record {
        represents = r;
        ordered = obeyed-Ordered alloc q ts (add when interval repeat) h w.ordered;
        armed_eq = rw m (
            is_armed-insert_timer (made alloc q when interval repeat) (q.clock q.settings) q.armed
              ts w.armed_eq);
      })

-- The time for the timerfd is well formed (fewer than 10 ^ 9 nanoseconds next to the seconds) and is never 0, which would
-- disarm it: it is the time left, or 100 microseconds where less is left.
pub how_much_time_from_now_lem :
    (when now : ℕ)
    → (0 < (how_much_time_from_now when now).0 * 1000000000 + (how_much_time_from_now when now).1)
      × ((how_much_time_from_now when now).1 < 1000000000)
      × ((how_much_time_from_now when now).0 * 1000000000 + (how_much_time_from_now when now).1
          ≡ 1000 * (if ltb when (now + 100) then 100 else when - now))
unfolding how_much_time_from_now
how_much_time_from_now_lem when now = (ground arith, ground arith, ground arith)
