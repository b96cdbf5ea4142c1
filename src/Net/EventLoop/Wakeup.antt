-- ===== src/Net/EventLoop/Wakeup.antt =====
-- The functors of net/EventLoop.cc under every interleaving with other threads.
use slack.Base.{◌+◌, ◌<◌, ◌≡◌, ◌++◌, true, ◌||◌, refl}
use slack.Net.EventLoop.{EventLoop, polling, new_loop}
use slack.Net.EventLoop.Steps.{
  Step, Steps, done, more, starts, polls, reads, queues, quits, handled, swaps, calls, ends,
  queues_there, quits_there, wakes_there,
}
use slack.Net.EventLoop.Invariant.{
  Inv, is_cons, handle_read-Inv, begin_events-Inv, begin_pending-Inv, swap_pending-Inv,
  call_next-Inv, end_round-Inv, start_loop-Inv, queue_here-Inv, queue_there-Inv, quit_there-Inv,
  quit_here-Inv, wake_there-Inv,
}

Step-Inv : {s t : EventLoop} → Step s t → Inv s → Inv t
Step-Inv (starts p e) i = start_loop-Inv p e i
Step-Inv (polls p) i = begin_events-Inv p i
Step-Inv (reads p) i = handle_read-Inv p i
Step-Inv (queues f r) i = queue_here-Inv f r i
Step-Inv (quits r) i = quit_here-Inv r i
Step-Inv (handled p) i = begin_pending-Inv p i
Step-Inv (swaps p) i = swap_pending-Inv p i
Step-Inv (calls f fs p l) i = call_next-Inv f fs p l i
Step-Inv (ends p l) i = end_round-Inv p l i
Step-Inv (queues_there f) i = queue_there-Inv f i
Step-Inv quits_there i = quit_there-Inv i
Step-Inv (wakes_there h) i = wake_there-Inv h i

Steps-Inv : {t : EventLoop} → Steps new_loop t → Inv t
Steps-Inv done = record { flag = refl; woken = λ e. cc; order = refl; vector = refl }
Steps-Inv (more s st) = Step-Inv st (Steps-Inv s)

-- However the loop and other threads take turns, where the loop's own thread queues functors and quits
-- only from its events and functors, no wake-up is lost: where the loop is about to poll
-- while a functor waits or it was told to quit, the eventfd is readable, or the thread that called is
-- still about to write to it.
pub Steps-polling :
    (t : EventLoop)
    → Steps new_loop t
    → t.phase ≡ polling
    → (is_cons t.pending || t.quit) ≡ true
    → 0 < t.wakeups + t.callers
Steps-polling t s p e = (Steps-Inv s).woken (rw p e)

-- However the loop and other threads take turns, where the loop's own thread queues functors and quits
-- only from its events and functors: every functor that was queued has been called, is in
-- the vector that `doPendingFunctors` works through, or still waits, in the order of the calls of
-- `queueInLoop`, and is there once.
pub Steps-queued : (t : EventLoop) → Steps new_loop t → t.queued ≡ t.ran ++ (t.left ++ t.pending)
Steps-queued t s = (Steps-Inv s).order
