-- ===== src/Net/EventLoopThread.antt =====
-- net/EventLoopThread.cc: the new thread, and the one that has called `startLoop`. Each critical section is one call, and so is each part
-- of `threadFunc` between them.
pub mod Steps
use slack.Base.{
  ℕ, ◌≡◌, Bool, true, false, not, ◌||◌, Option, some, none, if◌then◌else◌, assert, ◌>>=◌, ◌>>◌,
  arith, refl, Bool-cases, inl, inr, subst,
}

-- Where the new thread stands: `callback_`, the section that sets `loop_`, `loop.loop()`, and the section that resets it.
pub data ThreadPhase : Type 0 where
  unstarted initialising publishing looping leaving ended : ThreadPhase

-- Where the caller of `startLoop` stands: about to look at `loop_`, asleep, or back with the loop.
pub data Caller : Type 0 where
  away looking asleep back : Caller

pub record EventLoopThread : Type 0 where
  pub thread : ThreadPhase
  pub caller : Caller
  pub loop_set : Bool
  pub initialised : Bool

abbrev pub new_thread : EventLoopThread
new_thread = record { thread = unstarted; caller = away; loop_set = false; initialised = false }

abbrev pub is_unstarted : ThreadPhase → Bool
is_unstarted unstarted = true
is_unstarted p = false

-- `startLoop` up to its critical section.
unfoldable pub start_loop : EventLoopThread → Option EventLoopThread
start_loop t = do
  assert (is_unstarted t.thread)
  some (record t { thread = initialising; caller = looking })

-- The test of its loop.
unfoldable pub look : EventLoopThread → EventLoopThread
look t = if t.loop_set then record t { caller = back } else record t { caller = asleep }

unfoldable pub run_callback : EventLoopThread → EventLoopThread
run_callback t = record t { thread = publishing; initialised = true }

-- `cond_.notify()`
abbrev pub woken : Caller → Caller
woken asleep = looking
woken c = c

unfoldable pub publish : EventLoopThread → EventLoopThread
publish t = record t { thread = looping; loop_set = true; caller = woken t.caller }

unfoldable pub leave_loop : EventLoopThread → EventLoopThread
leave_loop t = record t { thread = leaving }

unfoldable pub reset_loop : EventLoopThread → EventLoopThread
reset_loop t = record t { thread = ended; loop_set = false }
