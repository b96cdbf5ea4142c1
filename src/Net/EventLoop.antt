-- ===== src/Net/EventLoop.antt =====
-- net/EventLoop.cc: the rounds of a loop, the functors that wait for it, and its wake-ups. A functor is known
-- by a number. The eventfd is its counter.
pub mod Steps
pub mod Invariant
pub mod Wakeup
pub mod Pending
use slack.Base.{
  ℕ, suc, ◌+◌, ◌-◌, ◌≡◌, List, [], ◌∷◌, ◌++◌, Bool, true, false, not, ◌&&◌, ◌||◌, Option, some,
  none, if◌then◌else◌, assert, ◌>>=◌, ◌>>◌, ◌==◌,
}

-- Where the loop's thread stands.
pub data Phase : Type 0 where
  polling handling swapping calling stopped : Phase

-- `callers` counts the calls of other threads that have yet to write to the eventfd; `queued` and `ran`
-- record every functor put into the queue and every one called.
pub record EventLoop : Type 0 where
  pub phase : Phase
  pub looping : Bool
  pub quit : Bool
  pub event_handling : Bool
  pub calling_pending : Bool
  pub iteration : ℕ
  pub wakeups : ℕ
  pub callers : ℕ
  pub pending : List ℕ
  pub left : List ℕ
  pub queued : List ℕ
  pub ran : List ℕ

-- A new loop, not looping yet.
abbrev pub new_loop : EventLoop
new_loop = record {
  phase = stopped;
  looping = false;
  quit = false;
  event_handling = false;
  calling_pending = false;
  iteration = 0;
  wakeups = 0;
  callers = 0;
  pending = [];
  left = [];
  queued = [];
  ran = [];
}

-- `wakeup` adds one to the eventfd's counter, and `handleRead` takes all of it.
unfoldable pub wakeup : EventLoop → EventLoop
wakeup s = record s { wakeups = s.wakeups + 1 }

unfoldable pub handle_read : EventLoop → EventLoop
handle_read s = record s { wakeups = 0 }

-- The critical section of `queueInLoop`.
unfoldable pub push : EventLoop → ℕ → EventLoop
push s f = record s { pending = s.pending ++ (f ∷ []); queued = s.queued ++ (f ∷ []) }

-- `!isInLoopThread() || callingPendingFunctos_`
unfoldable pub must_wake : Bool → EventLoop → Bool
must_wake here s = not here || s.calling_pending

-- `queueInLoop` in the loop's thread, where no step of it is seen from the loop.
unfoldable pub queue_here : EventLoop → ℕ → EventLoop
unfolding push must_wake wakeup
queue_here s f = let s' = push s f in if must_wake true s' then wakeup s' else s'

-- `queueInLoop` and `quit` in another thread, up to the call of `wakeup`; then that call.
unfoldable pub queue_there : EventLoop → ℕ → EventLoop
unfolding push must_wake
queue_there s f =
    let s' = push s f in if must_wake false s' then record s' { callers = s'.callers + 1 } else s'

unfoldable pub quit_there : EventLoop → EventLoop
quit_there s = record s { quit = true; callers = s.callers + 1 }

unfoldable pub wake_there : EventLoop → EventLoop
unfolding wakeup
wake_there s = wakeup (record s { callers = s.callers - 1 })

unfoldable pub quit_here : EventLoop → EventLoop
quit_here s = record s { quit = true }

-- `loop()` up to its first test of `quit_`.
unfoldable pub start_loop : EventLoop → Option EventLoop
start_loop s = do
  assert (not s.looping)
  some (record s { looping = true; quit = false; phase = polling })

-- `poll` has returned: the channels that are active get their events.
unfoldable pub begin_events : EventLoop → EventLoop
begin_events s = record s { phase = handling; iteration = s.iteration + 1; event_handling = true }

-- `doPendingFunctors` up to its critical section, and that section.
unfoldable pub begin_pending : EventLoop → EventLoop
begin_pending s = record s { phase = swapping; event_handling = false; calling_pending = true }

unfoldable pub swap_pending : EventLoop → EventLoop
swap_pending s = record s { phase = calling; left = s.pending; pending = [] }

-- A functor of the local vector is called.
unfoldable pub call_next : EventLoop → ℕ → List ℕ → EventLoop
call_next s f fs = record s { left = fs; ran = s.ran ++ (f ∷ []) }

-- The end of `doPendingFunctors`, and the test of `quit_`.
unfoldable pub end_round : EventLoop → EventLoop
end_round s =
    let s' = record s { calling_pending = false } in
    if s.quit then record s' { phase = stopped; looping = false } else record s' { phase = polling }

-- The functors of a round, one after the other, in a section over what each of them queues.
module _ (queues : ℕ → List ℕ) where
  unfoldable pub queue_all : EventLoop → List ℕ → EventLoop
  queue_all s [] = s
  queue_all s (f ∷ fs) = queue_all (queue_here s f) fs

  unfoldable pub call_all : EventLoop → List ℕ → EventLoop
  call_all s [] = s
  call_all s (f ∷ fs) = call_all (queue_all (call_next s f fs) (queues f)) fs

  unfoldable pub do_pending_functors : EventLoop → EventLoop
  unfolding begin_pending swap_pending call_all
  do_pending_functors s =
      let t = swap_pending (begin_pending s) in
      record (call_all t t.left) { calling_pending = false }
