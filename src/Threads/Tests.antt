-- ===== src/Threads/Tests.antt =====
-- The theorems on base/BoundedBlockingQueue.h and ThreadPool.cc at concrete inputs.
use slack.Base.{
  ◌∷◌, Option, some, none, ◌+◌, ◌==◌, ◌||◌, true, leb, [], ◌-◌, ◌≤◌, ◌≡◌, ◌++◌, arith, refl, length,
}
use slack.Threads.ThreadPool
use slack.Threads.ThreadPool.{ThreadPool}
use slack.Threads.ThreadPool.Steps as PoolSteps
use slack.Threads.BoundedBlockingQueue.{Queue, new_queue, put, take}
use slack.Threads.BoundedBlockingQueue.Steps.{
  Steps, done, more, puts, takes, Steps-order, Steps-takers, Steps-putters,
}

-- Two threads are blocked in `take`, and one of them is woken for the element 7.
abbrev taking : Queue
taking = record (new_queue 1) {
  queue = 7 ∷ [];
  accepted = 7 ∷ [];
  blocked_takers = 1;
  woken_takers = 1;
}

taking-Steps : Steps (new_queue 1) taking
unfolding put take
taking-Steps = more (more (more done takes) takes) (puts 7 refl)

-- Two threads are blocked in `put`, and one of them is woken for the place that 7 has left.
abbrev putting : Queue
putting = record (new_queue 1) {
  queue = [];
  accepted = 7 ∷ [];
  taken = 7 ∷ [];
  blocked_putters = 1;
  woken_putters = 1;
}

putting-Steps : Steps (new_queue 1) putting
unfolding put take
putting-Steps =
    more (more (more (more done (puts {p = _} 7 refl)) (puts {p = _} 8 refl)) (puts {p = _} 9 refl))
      takes

Steps-order_example :
    (length taking.queue ≤ taking.capacity) × (taking.accepted ≡ taking.taken ++ taking.queue)
Steps-order_example = Steps-order 1 taking taking-Steps

Steps-takers_example : length taking.queue ≤ taking.woken_takers
Steps-takers_example = Steps-takers 1 taking taking-Steps (omega arith)

Steps-putters_example : putting.capacity - length putting.queue ≤ putting.woken_putters
Steps-putters_example = Steps-putters 1 putting putting-Steps (omega arith)

-- One worker, a queue of one task, and a thread that is blocked in `run` when the pool is stopped.
abbrev one_worker : ThreadPool
one_worker = ThreadPool.new_pool 1 1

abbrev or_pool : ThreadPool → Option ThreadPool → ThreadPool
or_pool p none = p
or_pool p (some q) = q

abbrev with_task : ThreadPool
with_task = or_pool one_worker (ThreadPool.run one_worker 7)

abbrev with_runner : ThreadPool
with_runner = or_pool with_task (ThreadPool.run with_task 8)

abbrev left : ThreadPool
left = ThreadPool.test_running (ThreadPool.stop with_runner)

left-Steps : PoolSteps.Steps one_worker left
unfolding ThreadPool.run ThreadPool.stop
left-Steps =
    PoolSteps.more
      (PoolSteps.more
        (PoolSteps.more (PoolSteps.more PoolSteps.done (PoolSteps.runs 7 refl))
          (PoolSteps.runs 8 refl))
        PoolSteps.stops)
      (PoolSteps.tests (omega arith))

Steps-tasks_example :
    (left.accepted ≡ left.taken ++ left.queue)
    × (((left.max_queue_size == 0) || leb (length left.queue) left.max_queue_size) ≡ true)
    × (((left.blocked_takers == 0) || leb (length left.queue) left.woken_takers) ≡ true)
Steps-tasks_example = PoolSteps.Steps-tasks 1 1 left left-Steps

Steps-stopped_example :
    (left.blocked_takers ≡ 0)
    × (left.idle + left.entering + left.woken_takers + left.busy + left.finished ≡ 1)
unfolding ThreadPool.run ThreadPool.stop ThreadPool.test_running
Steps-stopped_example = PoolSteps.Steps-stopped 1 1 left left-Steps refl

finished-run_example :
    (ThreadPool.run left 9 ≡ some (record left { blocked_runners = left.blocked_runners + 1 }))
    × (left.idle + left.entering + left.blocked_takers + left.woken_takers + left.busy ≡ 0)
unfolding ThreadPool.run ThreadPool.stop ThreadPool.test_running
finished-run_example = PoolSteps.finished-run 1 1 left 9 left-Steps refl (omega arith) refl
