-- ===== src/Threads/ThreadPool.antt =====
-- base/ThreadPool.cc with at least one worker: each critical section is one call, and so is each test of `running_` outside
-- of them. A task is known by a number. Threads that wait on a condition are counted, first as blocked, then as woken.
pub mod Invariant
pub mod Steps
use slack.Base.{
  ℕ, ◌+◌, ◌-◌, List, [], ◌∷◌, ◌++◌, Bool, true, false, not, ◌&&◌, Option, some, if◌then◌else◌,
  assert, ◌>>=◌, ◌>>◌, ltb, leb, length,
}

-- A worker is about to test `running_` (`idle`), or to call `take` (`entering`), or waits there, or runs a task (`busy`), or has left its loop
-- (`finished`). A runner is a thread that calls `run`. `accepted` and `taken` record all tasks that went in and that came out.
pub record ThreadPool : Type 0 where
  pub queue : List ℕ
  pub max_queue_size : ℕ
  pub running : Bool
  pub idle : ℕ
  pub entering : ℕ
  pub blocked_takers : ℕ
  pub woken_takers : ℕ
  pub busy : ℕ
  pub finished : ℕ
  pub blocked_runners : ℕ
  pub woken_runners : ℕ
  pub accepted : List ℕ
  pub taken : List ℕ

-- The constructor, `setMaxQueueSize`, and `start` with so many threads.
abbrev pub new_pool : ℕ → ℕ → ThreadPool
new_pool max_queue_size threads = record {
  queue = [];
  max_queue_size = max_queue_size;
  running = true;
  idle = threads;
  entering = 0;
  blocked_takers = 0;
  woken_takers = 0;
  busy = 0;
  finished = 0;
  blocked_runners = 0;
  woken_runners = 0;
  accepted = [];
  taken = [];
}

abbrev pub is_full : ThreadPool → Bool
is_full p = ltb 0 p.max_queue_size && leb p.max_queue_size (length p.queue)

-- `notEmpty_.notify()` and `notFull_.notify()`
abbrev pub wake_taker : ThreadPool → ThreadPool
wake_taker p =
    if ltb 0 p.blocked_takers
    then record p { blocked_takers = p.blocked_takers - 1; woken_takers = p.woken_takers + 1 }
    else p

abbrev pub wake_runner : ThreadPool → ThreadPool
wake_runner p =
    if ltb 0 p.blocked_runners
    then record p { blocked_runners = p.blocked_runners - 1; woken_runners = p.woken_runners + 1 }
    else p

-- `run` from where it has the mutex.
unfoldable pub run : ThreadPool → ℕ → Option ThreadPool
run p t = if is_full p then some (record p { blocked_runners = p.blocked_runners + 1 }) else do
  assert (not (is_full p))
  some (wake_taker (record p { queue = p.queue ++ (t ∷ []); accepted = p.accepted ++ (t ∷ []) }))

unfoldable pub run_again : ThreadPool → ℕ → Option ThreadPool
unfolding run
run_again p t = run (record p { woken_runners = p.woken_runners - 1 }) t

-- `take` from where it has the mutex. Where the pool has been stopped, it returns without a task from an empty queue.
abbrev pub take_from : ThreadPool → List ℕ → ThreadPool
take_from p [] =
    if p.running
    then record p { blocked_takers = p.blocked_takers + 1 }
    else record p { idle = p.idle + 1 }
take_from p (t ∷ ts) =
    let q = record p { queue = ts; taken = p.taken ++ (t ∷ []); busy = p.busy + 1 } in
    if ltb 0 p.max_queue_size then wake_runner q else q

unfoldable pub take : ThreadPool → ThreadPool
take p = let q = record p { entering = p.entering - 1 } in take_from q q.queue

unfoldable pub take_again : ThreadPool → ThreadPool
take_again p = let q = record p { woken_takers = p.woken_takers - 1 } in take_from q q.queue

-- The test of the loop of `runInThread`, and the end of a task.
unfoldable pub test_running : ThreadPool → ThreadPool
test_running p =
    if p.running
    then record p { idle = p.idle - 1; entering = p.entering + 1 }
    else record p { idle = p.idle - 1; finished = p.finished + 1 }

unfoldable pub end_task : ThreadPool → ThreadPool
end_task p = record p { busy = p.busy - 1; idle = p.idle + 1 }

-- The critical section of `stop`.
unfoldable pub stop : ThreadPool → ThreadPool
stop p = record p {
  running = false;
  blocked_takers = 0;
  woken_takers = p.woken_takers + p.blocked_takers;
}
