-- ===== src/Net/Tests/Timers.antt =====
-- The theorems on the timers at concrete inputs.
use slack.Base.{
  ℕ, suc, ◌+◌, ◌≤◌, ◌≡◌, List, [], ◌∷◌, ◌++◌, true, false, some, none, arith, refl, sym, Returns,
}
use slack.Net.TimerQueue.{Timer, TimerQueue, new_queue, find_at, Command, add, cancel, handle_read}
use slack.Net.TimerQueue.Timers.{entries, has_key, due}
use slack.Net.TimerQueue.Expiry.{or_else-none}
use slack.Net.TimerQueue.Commands.{sequences}
use slack.Net.TimerQueue.Restart.{IsQueue}
use slack.Net.TimerQueue.Round.{handle_read_lem}
use slack.Net.TimerQueue.Cancel.{handle_read-cancels}

-- An address above all that are in use.
abbrev fresh_address : List Timer → ℕ
fresh_address [] = 1
fresh_address (t ∷ ts) = suc t.address + fresh_address ts

above_all : (a : ℕ) (ts : List Timer) → fresh_address ts ≤ a → find_at a ts ≡ none
above_all a [] h = refl
above_all a (t ∷ ts) h = ground (arith, above_all a ts)

fresh_address_free : (h : List Timer) → find_at (fresh_address h) h ≡ none
fresh_address_free h = above_all (fresh_address h) h (omega arith)

-- Two timers that are due at 70, one of which repeats, and a later one.
abbrev once : Timer
once = record { address = 5; expiration = 50; interval = 0; repeat = false; sequence = 1 }

abbrev often : Timer
often = record { address = 3; expiration = 60; interval = 10; repeat = true; sequence = 2 }

abbrev late : Timer
late = record { address = 9; expiration = 90; interval = 0; repeat = false; sequence = 3 }

abbrev three : List Timer
three = once ∷ often ∷ late ∷ []

abbrev three_timers : TimerQueue
three_timers = record (new_queue (λ n. 75)) {
  heap = three;
  created = 3;
  timers = entries three;
  active_timers = record { size = 3; has = λ a s. has_key a s three };
  armed = some (40, 140);
}

three_timers-IsQueue : IsQueue three_timers three
three_timers-IsQueue = record {
  represents = record {
    timers_eq = refl;
    size_eq = refl;
    has_eq = λ a s. refl;
    heap_eq = λ a. sym (or_else-none (find_at a three));
    distinct = (refl, (refl, (refl, tt)));
    distinct_held = tt;
    disjoint = λ a t h. cc;
  };
  ordered = record {
    sorted = ((omega arith, (omega arith, tt)), ((omega arith, tt), (tt, tt)));
    valid = (omega arith, (omega arith, (omega arith, tt)));
  };
  armed_eq = refl;
}

-- The first timer cancels the second one, and adds another one.
abbrev asks : TimerQueue → Timer → List Command
asks q t = cancel 3 2 ∷ add 80 0 false ∷ []

handle_read_lem_example : Returns (handle_read fresh_address asks three_timers 70) (λ q'.
    ((ts' : List Timer) × IsQueue q' ts') × (q'.ran ≡ three_timers.ran ++ sequences (due 70 three)))
handle_read_lem_example =
    handle_read_lem fresh_address fresh_address_free asks (λ q t. (tt, (omega arith, tt)))
      three_timers three 70 (omega arith) three_timers-IsQueue

handle_read-cancels_example : Returns (handle_read fresh_address asks three_timers 70) (λ q'.
    ((ts' : List Timer) × IsQueue q' ts' × (find_at 3 ts' ≡ none)) × (find_at 3 q'.heap ≡ none))
handle_read-cancels_example =
    handle_read-cancels fresh_address fresh_address_free asks (λ q t. (tt, (omega arith, tt)))
      three_timers three 70 3 often once (omega arith) three_timers-IsQueue refl refl (λ p. refl)
