-- ===== src/Net/EventLoopThread/Steps.antt =====
-- net/EventLoopThread.cc under every interleaving of the two threads.
use slack.Base.{
  ◌≡◌, ◌≢◌, Bool, true, false, some, if◌then◌else◌, arith, refl, sym, Bool-cases, inl, inr, subst,
  Safe, Safe-some,
}
use slack.Net.EventLoopThread.{
  ThreadPhase, unstarted, initialising, publishing, looping, leaving, ended, Caller, away, looking,
  asleep, back, EventLoopThread, new_thread, is_unstarted, start_loop, look, run_callback, woken,
  publish, leave_loop, reset_loop,
}

-- A part of one of the threads, or a spurious wake-up.
pub data Step (t : EventLoopThread) : EventLoopThread → Type 0 where
  starts : {u : EventLoopThread} → start_loop t ≡ some u → Step t u
  looks : t.caller ≡ looking → Step t (look t)
  wakes : t.caller ≡ asleep → Step t (record t { caller = looking })
  calls_back : t.thread ≡ initialising → Step t (run_callback t)
  publishes : t.thread ≡ publishing → Step t (publish t)
  leaves : t.thread ≡ looping → Step t (leave_loop t)
  resets : t.thread ≡ leaving → Step t (reset_loop t)

pub data Steps (t : EventLoopThread) : EventLoopThread → Type 0 where
  done : Steps t t
  more : {u v : EventLoopThread} → Steps t u → Step u v → Steps t v

-- What holds of each phase of the thread: whether `loop_` is set, and whether the callback has run.
abbrev Agrees : ThreadPhase → Bool → Bool → Type 0
Agrees unstarted set ran = set ≡ false
Agrees initialising set ran = set ≡ false
Agrees publishing set ran = (set ≡ false) × (ran ≡ true)
Agrees looping set ran = (set ≡ true) × (ran ≡ true)
Agrees leaving set ran = (set ≡ true) × (ran ≡ true)
Agrees ended set ran = (set ≡ false) × (ran ≡ true)

-- What holds of each place of the caller.
abbrev Waits : Caller → Bool → Bool → Type 0
Waits away set ran = Unit {0}
Waits looking set ran = Unit {0}
Waits asleep set ran = set ≡ false
Waits back set ran = ran ≡ true

record Inv (t : EventLoopThread) : Type 0 where
  thread_ok : Agrees t.thread t.loop_set t.initialised
  caller_ok : Waits t.caller t.loop_set t.initialised

at_phase :
    {t : EventLoopThread} {p : ThreadPhase}
    → t.thread ≡ p
    → Inv t
    → Agrees p t.loop_set t.initialised
at_phase {t} e i = subst (λ p. Agrees p t.loop_set t.initialised) e i.thread_ok

set_ran : (p : ThreadPhase) (set ran : Bool) → Agrees p set ran → set ≡ true → ran ≡ true
set_ran unstarted set ran h e = absurd (ground (arith, h, e))
set_ran initialising set ran h e = absurd (ground (arith, h, e))
set_ran publishing set ran h e = h.1
set_ran looping set ran h e = h.1
set_ran leaving set ran h e = h.1
set_ran ended set ran h e = h.1

ran_more : (c : Caller) (set ran : Bool) → Waits c set ran → Waits c set true
ran_more away set ran h = tt
ran_more looking set ran h = tt
ran_more asleep set ran h = h
ran_more back set ran h = refl

woken-Waits : (c : Caller) (set ran : Bool) → Waits c set ran → Waits (woken c) true ran
woken-Waits away set ran h = tt
woken-Waits looking set ran h = tt
woken-Waits asleep set ran h = tt
woken-Waits back set ran h = h

reset-Waits : (c : Caller) (set ran : Bool) → Waits c set ran → Waits c false ran
reset-Waits away set ran h = tt
reset-Waits looking set ran h = tt
reset-Waits asleep set ran h = refl
reset-Waits back set ran h = h

unstarted-false :
    (p : ThreadPhase) (set ran : Bool) → is_unstarted p ≡ true → Agrees p set ran → set ≡ false
unstarted-false unstarted set ran h k = k
unstarted-false initialising set ran h k = k
unstarted-false publishing set ran h k = k.0
unstarted-false ended set ran h k = k.0
unstarted-false looping set ran h k = absurd (cc)
unstarted-false leaving set ran h k = absurd (cc)

start_loop-Inv : (t : EventLoopThread) → Inv t → Safe (start_loop t) Inv
unfolding start_loop
start_loop-Inv t i = elim (Bool-cases (is_unstarted t.thread)) [
  | inl e ↦ rw e (record {
    thread_ok = unstarted-false t.thread t.loop_set t.initialised e i.thread_ok;
    caller_ok = tt;
  })
  | inr e ↦ rw e tt
]

look-Inv : (t : EventLoopThread) → Inv t → Inv (look t)
unfolding look
look-Inv t i = elim (Bool-cases t.loop_set) [
  | inl e ↦
      subst (λ b. Inv (if b then record t { caller = back } else record t { caller = asleep }))
        (sym e)
        (record {
          thread_ok = i.thread_ok;
          caller_ok = set_ran t.thread t.loop_set t.initialised i.thread_ok e;
        })
  | inr e ↦
      subst (λ b. Inv (if b then record t { caller = back } else record t { caller = asleep }))
        (sym e) (record { thread_ok = i.thread_ok; caller_ok = e })
]

Step-Inv : {t u : EventLoopThread} → Step t u → Inv t → Inv u
unfolding run_callback publish leave_loop reset_loop
Step-Inv {t = t} (starts e) i = Safe-some Inv (start_loop-Inv t i) e
Step-Inv {t = t} (looks e) i = look-Inv t i
Step-Inv {t = t} (wakes e) i = record { thread_ok = i.thread_ok; caller_ok = tt }
Step-Inv {t = t} (calls_back e) i = record {
  thread_ok = (at_phase e i, refl);
  caller_ok = ran_more t.caller t.loop_set t.initialised i.caller_ok;
}
Step-Inv {t = t} (publishes e) i = record {
  thread_ok = (refl, (at_phase e i).1);
  caller_ok = woken-Waits t.caller t.loop_set t.initialised i.caller_ok;
}
Step-Inv {t = t} (leaves e) i = record { thread_ok = at_phase e i; caller_ok = i.caller_ok }
Step-Inv {t = t} (resets e) i = record {
  thread_ok = (refl, (at_phase e i).1);
  caller_ok = reset-Waits t.caller t.loop_set t.initialised i.caller_ok;
}

Steps-Inv : {t : EventLoopThread} → Steps new_thread t → Inv t
Steps-Inv done = record { thread_ok = refl; caller_ok = tt }
Steps-Inv (more s x) = Step-Inv x (Steps-Inv s)

asleep-unset : {t : EventLoopThread} → t.caller ≡ asleep → Inv t → t.loop_set ≡ false
asleep-unset {t} e i = subst (λ c. Waits c t.loop_set t.initialised) e i.caller_ok

still_to_come :
    (p : ThreadPhase) (set ran : Bool)
    → Agrees p set ran
    → set ≡ false
    → (p ≢ looping) × (p ≢ leaving)
still_to_come unstarted set ran h e = (λ x. cc, λ x. cc)
still_to_come initialising set ran h e = (λ x. cc, λ x. cc)
still_to_come publishing set ran h e = (λ x. cc, λ x. cc)
still_to_come looping set ran h e = absurd (ground (arith, h.0, e))
still_to_come leaving set ran h e = absurd (ground (arith, h.0, e))
still_to_come ended set ran h e = (λ x. cc, λ x. cc)

-- What the caller may rely on where it stands: asleep, that the loop is not running; back, that the callback has run.
abbrev pub Promise : Caller → EventLoopThread → Type 0
Promise away t = Unit {0}
Promise looking t = Unit {0}
Promise asleep t = (t.loop_set ≡ false) × (t.thread ≢ looping) × (t.thread ≢ leaving)
Promise back t = t.initialised ≡ true

promised :
    (t : EventLoopThread) (c : Caller)
    → Agrees t.thread t.loop_set t.initialised
    → Waits c t.loop_set t.initialised
    → Promise c t
promised t away h w = tt
promised t looking h w = tt
promised t asleep h w =
    let (p, q) = still_to_come t.thread t.loop_set t.initialised h w in (w, p, q)
promised t back h w = w

-- However the new thread and the caller of `startLoop` take turns, with spurious wake-ups: where `startLoop` has returned, the callback has run; and
-- where its caller sleeps, `loop_` is not set and the loop is not running.
pub Steps-Promise : (t : EventLoopThread) → Steps new_thread t → Promise t.caller t
Steps-Promise t s = let i = Steps-Inv s in promised t t.caller i.thread_ok i.caller_ok

-- Where the loop runs while the caller has yet to look, and then ends before it does: the caller sleeps, the thread has
-- ended, and only a spurious wake-up is a step from there.
pub look-asleep :
    (t v : EventLoopThread)
    → Steps new_thread t
    → t.thread ≡ looping
    → t.caller ≡ looking
    → Step (look (reset_loop (leave_loop t))) v
    → v ≡ record (look (reset_loop (leave_loop t))) { caller = looking }
unfolding look reset_loop leave_loop start_loop
look-asleep t v s e c (starts f) = absurd (cc)
look-asleep t v s e c (looks f) = absurd (cc)
look-asleep t v s e c (wakes f) = refl
look-asleep t v s e c (calls_back f) = absurd (cc)
look-asleep t v s e c (publishes f) = absurd (cc)
look-asleep t v s e c (leaves f) = absurd (cc)
look-asleep t v s e c (resets f) = absurd (cc)
