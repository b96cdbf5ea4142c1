-- ===== src/Threads/ThreadPool/Steps.antt =====
-- base/ThreadPool.cc under every interleaving of its workers, of threads that run tasks, and of `stop`.
use slack.Base.{
  ℕ, ◌+◌, ◌-◌, ◌≤◌, ◌<◌, ◌≡◌, ◌++◌, true, false, ◌||◌, Option, some, arith, refl, Bool-cases, inl,
  inr, length, ltb, leb, ◌==◌, subst, Returns,
}
use slack.Threads.ThreadPool.{
  ThreadPool, new_pool, is_full, run, run_again, take, take_again, test_running, end_task, stop,
}
use slack.Threads.ThreadPool.Invariant.{Inv, push-Inv, take-Inv, take_again-Inv, test_running-Inv}

-- A part of some thread, or a spurious wake-up.
pub data Step (p : ThreadPool) : ThreadPool → Type 0 where
  runs : {q : ThreadPool} (t : ℕ) → run p t ≡ some q → Step p q
  runs_again : {q : ThreadPool} (t : ℕ) → 0 < p.woken_runners → run_again p t ≡ some q → Step p q
  tests : 0 < p.idle → Step p (test_running p)
  takes : 0 < p.entering → Step p (take p)
  takes_again : 0 < p.woken_takers → Step p (take_again p)
  ends : 0 < p.busy → Step p (end_task p)
  stops : Step p (stop p)
  wakes_taker :
      0 < p.blocked_takers
      → Step p
          (record p { blocked_takers = p.blocked_takers - 1; woken_takers = p.woken_takers + 1 })
  wakes_runner :
      0 < p.blocked_runners
      → Step p (record p {
        blocked_runners = p.blocked_runners - 1;
        woken_runners = p.woken_runners + 1;
      })

pub data Steps (p : ThreadPool) : ThreadPool → Type 0 where
  done : Steps p p
  more : {q r : ThreadPool} → Steps p q → Step q r → Steps p r

returned :
    {n : ℕ} {o : Option ThreadPool} {p : ThreadPool} → o ≡ some p → Returns o (Inv n) → Inv n p
returned {n} e r = subst (λ o. Returns o (Inv n)) e r

Step-Inv : {n : ℕ} {p q : ThreadPool} → Step p q → Inv n p → Inv n q
unfolding run_again end_task stop
Step-Inv {p = p} (runs t e) i = returned e (push-Inv p p.woken_runners t i (omega arith))
Step-Inv {p = p} (runs_again t h e) i =
    returned e (push-Inv p (p.woken_runners - 1) t i (omega arith))
Step-Inv {p = p} (tests h) i = test_running-Inv p i h
Step-Inv {p = p} (takes h) i = take-Inv p i h
Step-Inv {p = p} (takes_again h) i = take_again-Inv p i h
Step-Inv {p = p} (ends h) i = record {
  bounded = i.bounded;
  order = i.order;
  takers = i.takers;
  runners = i.runners;
  limits = ground (arith, i.limits);
  stopped = i.stopped;
  all_there = omega (arith, i.all_there);
}
Step-Inv {p = p} stops i = record {
  bounded = i.bounded;
  order = i.order;
  takers = refl;
  runners = i.runners;
  limits = ground (arith, i.limits);
  stopped = refl;
  all_there = omega (arith, i.all_there);
}
Step-Inv {p = p} (wakes_taker h) i = record {
  bounded = i.bounded;
  order = i.order;
  takers = ground (arith, i.takers);
  runners = i.runners;
  limits = ground (arith, i.limits);
  stopped = ground (arith, i.stopped);
  all_there = omega (arith, i.all_there);
}
Step-Inv {p = p} (wakes_runner h) i = record {
  bounded = i.bounded;
  order = i.order;
  takers = i.takers;
  runners = ground (arith, i.runners);
  limits = ground (arith, i.limits);
  stopped = i.stopped;
  all_there = i.all_there;
}

Steps-Inv : {max n : ℕ} {p : ThreadPool} → Steps (new_pool max n) p → Inv n p
Steps-Inv {max} done = record {
  bounded = ground arith;
  order = refl;
  takers = refl;
  runners = refl;
  limits = ground arith;
  stopped = refl;
  all_there = omega arith;
}
Steps-Inv (more s t) = Step-Inv t (Steps-Inv s)

-- However the workers, the threads that run tasks and `stop` take turns, with spurious wake-ups: the tasks that went in are those that were
-- taken out, in that order, and then those in the queue, which is never longer than a limit that is set; and a worker that waits for a task
-- sleeps only where for each task in the queue another worker is woken.
pub Steps-tasks :
    (max threads : ℕ) (p : ThreadPool)
    → Steps (new_pool max threads) p
    → (p.accepted ≡ p.taken ++ p.queue)
      × (((p.max_queue_size == 0) || leb (length p.queue) p.max_queue_size) ≡ true)
      × (((p.blocked_takers == 0) || leb (length p.queue) p.woken_takers) ≡ true)
Steps-tasks max threads p s = let i = Steps-Inv s in (i.order, i.bounded, i.takers)

-- However they take turns: once the pool was stopped, no worker sleeps any more, so that every worker still has a part to do, or
-- has finished.
pub Steps-stopped :
    (max threads : ℕ) (p : ThreadPool)
    → Steps (new_pool max threads) p
    → p.running ≡ false
    → (p.blocked_takers ≡ 0)
      × (p.idle + p.entering + p.woken_takers + p.busy + p.finished ≡ threads)
Steps-stopped max threads p s r =
    let i = Steps-Inv s in
    let awake : p.blocked_takers ≡ 0 = ground (arith, i.stopped, r) in
    (awake, omega (arith, i.all_there))

-- Where all workers have finished while a thread is blocked in `run`, and none there is woken: every further `run` blocks as well, and no worker is
-- left to wake any of them, but for spurious wake-ups.
pub finished-run :
    (max threads : ℕ) (p : ThreadPool) (t : ℕ)
    → Steps (new_pool max threads) p
    → p.finished ≡ threads
    → 0 < p.blocked_runners
    → p.woken_runners ≡ 0
    → (run p t ≡ some (record p { blocked_runners = p.blocked_runners + 1 }))
      × (p.idle + p.entering + p.blocked_takers + p.woken_takers + p.busy ≡ 0)
unfolding run
finished-run max threads p t s f b w =
    let i = Steps-Inv s in
    let at_limit : p.max_queue_size ≤ length p.queue = ground (arith, i.runners, b, w) in
    elim (Bool-cases (ltb 0 p.max_queue_size)) [
      | inl m ↦
          let full : is_full p ≡ true = ground (arith, m, at_limit) in
          (rw full refl, omega (arith, i.all_there))
      | inr m ↦ absurd (ground (arith, i.limits, m, b))
    ]
