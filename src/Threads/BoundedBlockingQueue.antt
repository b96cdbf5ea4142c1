-- ===== src/Threads/BoundedBlockingQueue.antt =====
-- base/BoundedBlockingQueue.h: each critical section is one call. A thread that waits on a condition
-- is counted, as blocked until it is woken, and then as woken until it has the mutex again.
pub mod Steps
use slack.Base.{
  ℕ, suc, ◌+◌, ◌-◌, List, [], ◌∷◌, ◌++◌, Bool, Option, some, none, if◌then◌else◌, assert, ◌>>=◌,
  ◌>>◌, ltb, ◌==◌, length,
}

-- `accepted` and `taken` record every element that went in and that came out.
pub record Queue : Type 0 where
  pub queue : List ℕ
  pub capacity : ℕ
  pub blocked_takers : ℕ
  pub woken_takers : ℕ
  pub blocked_putters : ℕ
  pub woken_putters : ℕ
  pub accepted : List ℕ
  pub taken : List ℕ

abbrev pub new_queue : ℕ → Queue
new_queue max_size = record {
  queue = [];
  capacity = max_size;
  blocked_takers = 0;
  woken_takers = 0;
  blocked_putters = 0;
  woken_putters = 0;
  accepted = [];
  taken = [];
}

-- `notEmpty_.notify()` and `notFull_.notify()` wake up one thread, if one is blocked.
abbrev pub notify_not_empty : Queue → Queue
notify_not_empty q =
    if ltb 0 q.blocked_takers
    then record q { blocked_takers = q.blocked_takers - 1; woken_takers = q.woken_takers + 1 }
    else q

abbrev pub notify_not_full : Queue → Queue
notify_not_full q =
    if ltb 0 q.blocked_putters
    then record q { blocked_putters = q.blocked_putters - 1; woken_putters = q.woken_putters + 1 }
    else q

abbrev pub full : Queue → Bool
full q = length q.queue == q.capacity

-- `put` from where it has the mutex: it waits, or goes on.
unfoldable pub put : Queue → ℕ → Option Queue
put q x = if full q then some (record q { blocked_putters = q.blocked_putters + 1 }) else do
  assert (ltb (length q.queue) q.capacity)
  some (
      notify_not_empty
        (record q { queue = q.queue ++ (x ∷ []); accepted = q.accepted ++ (x ∷ []) }))

-- `take` from where it has the mutex.
abbrev pub take_from : Queue → List ℕ → Queue
take_from q [] = record q { blocked_takers = q.blocked_takers + 1 }
take_from q (x ∷ xs) = notify_not_full (record q { queue = xs; taken = q.taken ++ (x ∷ []) })

unfoldable pub take : Queue → Queue
take q = take_from q q.queue

-- A woken thread has the mutex again, and goes on in its loop.
unfoldable pub put_again : Queue → ℕ → Option Queue
unfolding put
put_again q x = put (record q { woken_putters = q.woken_putters - 1 }) x

unfoldable pub take_again : Queue → Queue
unfolding take
take_again q = take (record q { woken_takers = q.woken_takers - 1 })
