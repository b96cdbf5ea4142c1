-- ===== src/Net/Tests/EventLoop.antt =====
-- The theorems on the event loop at concrete inputs.
use slack.Base.{◌+◌, ◌<◌, ◌≡◌, [], ◌∷◌, ◌++◌, true, refl}
use slack.Net.EventLoop.{
  EventLoop, polling, new_loop, start_loop, queue_here, queue_there, begin_events, begin_pending,
  swap_pending, call_next, end_round,
}
use slack.Net.EventLoop.Steps.{
  Steps, done, more, starts, polls, queues, handled, swaps, calls, ends, queues_there,
}
use slack.Net.EventLoop.Wakeup.{Steps-polling, Steps-queued}

-- A loop in its first round: an event queues 1, another thread queues 2, both are called, and the other thread
-- queues 3.
abbrev started : EventLoop
started = record new_loop { looping = true; phase = polling }

abbrev swapped : EventLoop
unfolding queue_here queue_there begin_events begin_pending swap_pending
swapped = swap_pending (begin_pending (queue_there (queue_here (begin_events started) 1) 2))

abbrev waiting : EventLoop
unfolding queue_there call_next end_round swapped
waiting = queue_there (end_round (call_next (call_next swapped 1 (2 ∷ [])) 2 [])) 3

waits : Steps new_loop waiting
unfolding queue_here queue_there begin_events begin_pending swap_pending call_next end_round
    start_loop
waits =
    more
      (more
        (more
          (more
            (more
              (more
                (more
                  (more (more (more done (starts {t = started} refl refl)) (polls refl))
                    (queues 1 tt))
                  (queues_there 2))
                (handled refl))
              (swaps refl))
            (calls 1 (2 ∷ []) refl refl))
          (calls 2 [] refl refl))
        (ends refl refl))
      (queues_there 3)

Steps-polling_example : 0 < waiting.wakeups + waiting.callers
unfolding waiting
Steps-polling_example = Steps-polling waiting waits refl refl

Steps-queued_example : waiting.queued ≡ waiting.ran ++ (waiting.left ++ waiting.pending)
Steps-queued_example = Steps-queued waiting waits
