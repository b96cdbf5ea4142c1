-- ===== src/Net/EventLoop/Steps.antt =====
-- The steps of a loop of net/EventLoop.cc and of other threads, in any order.
use slack.Base.{ℕ, ◌<◌, ◌≡◌, List, [], ◌∷◌, some}
use slack.Net.EventLoop.{
  EventLoop, Phase, polling, handling, swapping, calling, stopped, handle_read, queue_here,
  queue_there, quit_there, wake_there, quit_here, start_loop, begin_events, begin_pending,
  swap_pending, call_next, end_round,
}

-- User code runs in the loop's thread while events are handled and functors are called.
abbrev pub RunsUser : Phase → Type 0
RunsUser polling = ⊥
RunsUser handling = Unit {0}
RunsUser swapping = ⊥
RunsUser calling = Unit {0}
RunsUser stopped = ⊥

-- One step of the loop's thread, or of another one.
pub data Step (s : EventLoop) : EventLoop → Type 0 where
  starts : {t : EventLoop} → s.phase ≡ stopped → start_loop s ≡ some t → Step s t
  polls : s.phase ≡ polling → Step s (begin_events s)
  reads : s.phase ≡ handling → Step s (handle_read s)
  queues : (f : ℕ) → RunsUser s.phase → Step s (queue_here s f)
  quits : RunsUser s.phase → Step s (quit_here s)
  handled : s.phase ≡ handling → Step s (begin_pending s)
  swaps : s.phase ≡ swapping → Step s (swap_pending s)
  calls : (f : ℕ) (fs : List ℕ) → s.phase ≡ calling → s.left ≡ f ∷ fs → Step s (call_next s f fs)
  ends : s.phase ≡ calling → s.left ≡ [] → Step s (end_round s)
  queues_there : (f : ℕ) → Step s (queue_there s f)
  quits_there : Step s (quit_there s)
  wakes_there : 0 < s.callers → Step s (wake_there s)

pub data Steps (s : EventLoop) : EventLoop → Type 0 where
  done : Steps s s
  more : {t u : EventLoop} → Steps s t → Step t u → Steps s u
