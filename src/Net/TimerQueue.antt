-- ===== src/Net/TimerQueue.antt =====
-- net/TimerQueue.cc and Timer.cc: the timers of a loop, in the loop's thread. Times are microseconds, a
-- pointer is a number, and `none` is a failing `assert` or an access to a timer that was deleted.
pub mod Timers
pub mod Represents
pub mod Operations
pub mod Expiry
pub mod Order
pub mod Handle
pub mod Commands
pub mod Restart
pub mod Round
pub mod Cancel
pub mod Calls
use slack.Base.{
  ℕ, suc, ◌+◌, ◌-◌, ◌*◌, ◌/◌, ◌%◌, List, [], ◌∷◌, ◌++◌, Bool, true, false, not, ◌&&◌, ◌||◌, Option,
  some, none, if◌then◌else◌, assert, ◌>>=◌, ◌>>◌, ltb, leb, ◌==◌, length,
}

pub record Timer : Type 0 where
  pub address : ℕ
  pub expiration : ℕ
  pub interval : ℕ
  pub repeat : Bool
  pub sequence : ℕ

-- The timers that `new` made and `delete` has not taken, in no order.
abbrev pub find_at : ℕ → List Timer → Option Timer
find_at a [] = none
find_at a (t ∷ ts) = if t.address == a then some t else find_at a ts

abbrev pub remove_at : ℕ → List Timer → List Timer
remove_at a [] = []
remove_at a (t ∷ ts) = if t.address == a then remove_at a ts else t ∷ remove_at a ts

-- `std::set<Entry>`, in its order.
abbrev pub Entry : Type 0
Entry = ℕ × ℕ

abbrev pub entry_lt : Entry → Entry → Bool
entry_lt e f = ltb e.0 f.0 || ((e.0 == f.0) && ltb e.1 f.1)

abbrev pub has_entry : Entry → List Entry → Bool
has_entry e [] = false
has_entry e (f ∷ fs) = ((e.0 == f.0) && (e.1 == f.1)) || has_entry e fs

abbrev pub insert_entry : Entry → List Entry → List Entry
insert_entry e [] = e ∷ []
insert_entry e (f ∷ fs) =
    if entry_lt e f then e ∷ f ∷ fs else (if entry_lt f e then f ∷ insert_entry e fs else f ∷ fs)

abbrev pub erase_entry : Entry → List Entry → List Entry
erase_entry e [] = []
erase_entry e (f ∷ fs) = if (e.0 == f.0) && (e.1 == f.1) then fs else f ∷ erase_entry e fs

-- `std::set<ActiveTimer>`: how many pairs of a pointer and a sequence it has, and which.
pub record KeySet : Type 0 where
  pub size : ℕ
  pub has : ℕ → ℕ → Bool

abbrev pub no_keys : KeySet
no_keys = record { size = 0; has = λ a s. false }

abbrev pub same_key : ℕ → ℕ → ℕ → ℕ → Bool
same_key a s b r = (a == b) && (s == r)

abbrev pub insert_key : ℕ → ℕ → KeySet → KeySet
insert_key a s k =
    if k.has a s
    then k
    else record { size = suc k.size; has = λ b r. same_key a s b r || k.has b r }

abbrev pub erase_key : ℕ → ℕ → KeySet → KeySet
erase_key a s k =
    if k.has a s
    then record { size = k.size - 1; has = λ b r. not (same_key a s b r) && k.has b r }
    else k

-- `armed` has the time at which the timerfd was last set, and the one at which it then goes off, until it is read; `ran` has the sequence
-- of every timer whose callback was called. `clock` is what `Timestamp::now` answers each time that the timerfd is set, and `settings` counts those.
pub record TimerQueue : Type 0 where
  pub heap : List Timer
  pub created : ℕ
  pub timers : List Entry
  pub active_timers : KeySet
  pub calling_expired : Bool
  pub canceling_timers : KeySet
  pub clock : ℕ → ℕ
  pub settings : ℕ
  pub armed : Option (ℕ × ℕ)
  pub ran : List ℕ

abbrev pub new_queue : (ℕ → ℕ) → TimerQueue
new_queue clock = record {
  clock = clock;
  settings = 0;
  heap = [];
  created = 0;
  timers = [];
  active_timers = no_keys;
  calling_expired = false;
  canceling_timers = no_keys;
  armed = none;
  ran = [];
}

-- `howMuchTimeFromNow`: seconds and nanoseconds. A time in the past counts as one now.
unfoldable pub how_much_time_from_now : ℕ → ℕ → ℕ × ℕ
how_much_time_from_now when now =
    let microseconds = if ltb (when - now) 100 then 100 else when - now in
    (microseconds / 1000000, microseconds % 1000000 * 1000)

abbrev pub same_sizes : TimerQueue → Bool
same_sizes q = length q.timers == q.active_timers.size

abbrev pub is_earliest : ℕ → List Entry → Bool
is_earliest when [] = true
is_earliest when (e ∷ es) = ltb when e.0

unfoldable pub insert : TimerQueue → ℕ → Option (Bool × TimerQueue)
insert q a = do
  assert (same_sizes q)
  t ← find_at a q.heap
  assert (not (has_entry (t.expiration, a) q.timers))
  assert (not (q.active_timers.has a t.sequence))
  let q' = record q {
    timers = insert_entry (t.expiration, a) q.timers;
    active_timers = insert_key a t.sequence q.active_timers;
  }
  assert (same_sizes q')
  some (is_earliest t.expiration q.timers, q')

-- A timerfd that is set at `now`, and when it goes off, in microseconds: the time for it is relative.
unfoldable pub alarm : ℕ → ℕ → ℕ × ℕ
unfolding how_much_time_from_now
alarm when now =
    let t = how_much_time_from_now when now in (now, now + (t.0 * 1000000 + t.1 / 1000))

-- `resetTimerfd`
abbrev pub reset_timerfd : TimerQueue → ℕ → TimerQueue
reset_timerfd q expiration = record q {
  armed = some (alarm expiration (q.clock q.settings));
  settings = q.settings + 1;
}

unfoldable pub add_timer_in_loop : TimerQueue → ℕ → Option TimerQueue
unfolding insert
add_timer_in_loop q a = do
  r ← insert q a
  t ← find_at a r.1.heap
  some (if r.0 then reset_timerfd r.1 t.expiration else r.1)

-- A timer that was found is deleted.
unfoldable pub cancel_active : TimerQueue → ℕ → ℕ → Option TimerQueue
cancel_active q a s = do
  t ← find_at a q.heap
  assert (has_entry (t.expiration, a) q.timers)
  some (record q {
    timers = erase_entry (t.expiration, a) q.timers;
    heap = remove_at a q.heap;
    active_timers = erase_key a s q.active_timers;
  })

unfoldable pub cancel_in_loop : TimerQueue → ℕ → ℕ → Option TimerQueue
unfolding cancel_active
cancel_in_loop q a s = do
  assert (same_sizes q)
  let other =
      if q.calling_expired
      then record q { canceling_timers = insert_key a s q.canceling_timers }
      else q
  q' ← (if q.active_timers.has a s then cancel_active q a s else some other)
  assert (same_sizes q')
  some q'

-- The entries before `lower_bound` of the sentry (no pointer is UINTPTR_MAX or above), and the others.
abbrev pub until : ℕ → List Entry → List Entry
until now [] = []
until now (e ∷ es) = if leb e.0 now then e ∷ until now es else []

abbrev pub beyond : ℕ → List Entry → List Entry
beyond now [] = []
beyond now (e ∷ es) = if leb e.0 now then beyond now es else e ∷ es

abbrev pub starts_after : ℕ → List Entry → Bool
starts_after now [] = true
starts_after now (e ∷ es) = ltb now e.0

unfoldable pub erase_all : TimerQueue → List Entry → Option TimerQueue
erase_all q [] = some q
erase_all q (e ∷ es) = do
  t ← find_at e.1 q.heap
  assert (q.active_timers.has e.1 t.sequence)
  erase_all (record q { active_timers = erase_key e.1 t.sequence q.active_timers }) es

unfoldable pub get_expired : TimerQueue → ℕ → Option (List Entry × TimerQueue)
unfolding erase_all
get_expired q now = do
  assert (same_sizes q)
  assert (starts_after now (beyond now q.timers))
  q' ← erase_all (record q { timers = beyond now q.timers }) (until now q.timers)
  assert (same_sizes q')
  some (until now q.timers, q')

-- `Timer::restart`
abbrev pub restarted : Timer → ℕ → Timer
restarted t now = record t { expiration = if t.repeat then now + t.interval else 0 }

unfoldable pub restart : TimerQueue → Timer → ℕ → TimerQueue
restart q t now = record q { heap = restarted t now ∷ remove_at t.address q.heap }

unfoldable pub reset_one : TimerQueue → Entry → ℕ → Option TimerQueue
unfolding restart insert
reset_one q e now = do
  t ← find_at e.1 q.heap
  (if t.repeat && not (q.canceling_timers.has e.1 t.sequence)
      then (do r ← insert (restart q t now) e.1; some r.1)
      else some (record q { heap = remove_at e.1 q.heap }))

unfoldable pub reset_each : TimerQueue → List Entry → ℕ → Option TimerQueue
unfolding reset_one
reset_each q [] now = some q
reset_each q (e ∷ es) now = do q' ← reset_one q e now; reset_each q' es now

-- The end of `reset`. A time of 0 is not valid.
unfoldable pub arm : TimerQueue → List Entry → Option TimerQueue
arm q [] = some q
arm q (e ∷ es) = do
  t ← find_at e.1 q.heap
  some (if ltb 0 t.expiration then reset_timerfd q t.expiration else q)

unfoldable pub reset : TimerQueue → List Entry → ℕ → Option TimerQueue
unfolding reset_each arm
reset q expired now = do q' ← reset_each q expired now; arm q' q'.timers

-- What a callback asks of the queue: `addTimer`, and `cancel`.
pub data Command : Type 0 where
  add : ℕ → ℕ → Bool → Command
  cancel : ℕ → ℕ → Command

-- A section over `new`, which gives an address, and over the callbacks.
module _ (alloc : List Timer → ℕ) where
  unfoldable pub add_timer : TimerQueue → ℕ → ℕ → Bool → Option TimerQueue
  unfolding add_timer_in_loop
  add_timer q when interval repeat =
      let a = alloc q.heap in
      let t : Timer = record {
        address = a;
        expiration = when;
        interval = interval;
        repeat = repeat;
        sequence = q.created + 1;
      } in
      add_timer_in_loop (record q { heap = t ∷ q.heap; created = q.created + 1 }) a

  unfoldable pub obey : TimerQueue → Command → Option TimerQueue
  unfolding add_timer cancel_in_loop
  obey q (add when interval repeat) = add_timer q when interval repeat
  obey q (cancel a s) = cancel_in_loop q a s

  unfoldable pub obey_all : TimerQueue → List Command → Option TimerQueue
  unfolding obey
  obey_all q [] = some q
  obey_all q (c ∷ cs) = do q' ← obey q c; obey_all q' cs

  module _ (callback : TimerQueue → Timer → List Command) where
    unfoldable pub run_all : TimerQueue → List Entry → Option TimerQueue
    unfolding obey_all
    run_all q [] = some q
    run_all q (e ∷ es) = do
      t ← find_at e.1 q.heap
      let called = record q { ran = q.ran ++ (t.sequence ∷ []) }
      q' ← obey_all called (callback q t)
      run_all q' es

    unfoldable pub handle_read : TimerQueue → ℕ → Option TimerQueue
    unfolding get_expired run_all reset
    handle_read q now = do
      r ← get_expired (record q { armed = none }) now
      q' ← run_all (record r.1 { calling_expired = true; canceling_timers = no_keys }) r.0
      reset (record q' { calling_expired = false }) r.0 now
