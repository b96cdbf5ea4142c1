-- ===== src/Threads/ThreadPool/Invariant.antt =====
-- What every part of base/ThreadPool.cc preserves.
use slack.Base.{
  ℕ, suc, ◌+◌, ◌-◌, ◌≤◌, ◌<◌, ◌≡◌, List, [], ◌∷◌, ◌++◌, true, ◌||◌, if◌then◌else◌, arith, refl, sym,
  ap, ◌∙◌, append_assoc, Bool-cases, inl, inr, length, length-append, ltb, leb, ◌==◌, subst,
  Returns,
}
use slack.Threads.ThreadPool.{ThreadPool, is_full, run, take_from, take, take_again, test_running}

abbrev pub workers : ThreadPool → ℕ
workers p = p.idle + p.entering + p.blocked_takers + p.woken_takers + p.busy + p.finished

pub record Inv (n : ℕ) (p : ThreadPool) : Type 0 where
  pub bounded : ((p.max_queue_size == 0) || leb (length p.queue) p.max_queue_size) ≡ true
  pub order : p.accepted ≡ p.taken ++ p.queue
  pub takers : ((p.blocked_takers == 0) || leb (length p.queue) p.woken_takers) ≡ true
  pub runners :
      ((p.blocked_runners == 0) || leb (p.max_queue_size - length p.queue) p.woken_runners) ≡ true
  pub limits : (ltb 0 p.max_queue_size || (p.blocked_runners == 0)) ≡ true
  pub stopped : (p.running || (p.blocked_takers == 0)) ≡ true
  pub all_there : workers p ≡ n

pub push-Inv :
    {n : ℕ} (p : ThreadPool) (w t : ℕ)
    → Inv n p
    → p.woken_runners ≤ suc w
    → Returns (run (record p { woken_runners = w }) t) (Inv n)
unfolding run
push-Inv p w t i h =
    let longer = length-append p.queue (t ∷ []) in
    let order = ap (λ l. l ++ (t ∷ [])) i.order ∙ append_assoc p.taken p.queue (t ∷ []) in
    elim (Bool-cases (is_full p)) [
      | inl e ↦ rw e (record {
        bounded = i.bounded;
        order = i.order;
        takers = i.takers;
        runners = ground (arith, i.bounded, e);
        limits = ground (arith, e);
        stopped = i.stopped;
        all_there = i.all_there;
      })
      | inr e ↦ elim (Bool-cases (ltb 0 p.blocked_takers)) [
        | inl f ↦
            rw (e, f)
              (record {
                bounded = ground (arith, i.bounded, e, longer);
                order = order;
                takers = ground (arith, i.takers, longer, f);
                runners = ground (arith, i.runners, longer, h);
                limits = ground (arith, i.limits);
                stopped = ground (arith, i.stopped, f);
                all_there = ground (arith, i.all_there, f);
              })
        | inr f ↦
            rw (e, f)
              (record {
                bounded = ground (arith, i.bounded, e, longer);
                order = order;
                takers = ground (arith, f);
                runners = ground (arith, i.runners, longer, h);
                limits = ground (arith, i.limits);
                stopped = i.stopped;
                all_there = i.all_there;
              })
      ]
    ]

-- A worker has the mutex, and is not counted.
record Pre (n : ℕ) (p : ThreadPool) : Type 0 where
  bounded : ((p.max_queue_size == 0) || leb (length p.queue) p.max_queue_size) ≡ true
  order : p.accepted ≡ p.taken ++ p.queue
  takers : ((p.blocked_takers == 0) || leb (length p.queue) (p.woken_takers + 1)) ≡ true
  runners :
      ((p.blocked_runners == 0) || leb (p.max_queue_size - length p.queue) p.woken_runners) ≡ true
  limits : (ltb 0 p.max_queue_size || (p.blocked_runners == 0)) ≡ true
  stopped : (p.running || (p.blocked_takers == 0)) ≡ true
  all_there : workers p + 1 ≡ n

take_from-Inv :
    {n : ℕ} (p : ThreadPool) (ts : List ℕ) → p.queue ≡ ts → Pre n p → Inv n (take_from p ts)
take_from-Inv {n} p [] e i = elim (Bool-cases p.running) [
  | inl r ↦
      let waits : ThreadPool = record p { blocked_takers = p.blocked_takers + 1 } in
      subst (λ b. Inv n (if b then waits else record p { idle = p.idle + 1 })) (sym r)
        (record {
          bounded = i.bounded;
          order = i.order;
          takers = ground (arith, ap length e);
          runners = i.runners;
          limits = ground (arith, i.limits);
          stopped = ground (arith, r);
          all_there = ground (arith, i.all_there);
        })
  | inr r ↦
      let leaves : ThreadPool = record p { idle = p.idle + 1 } in
      subst (λ b. Inv n (if b then record p { blocked_takers = p.blocked_takers + 1 } else leaves))
        (sym r)
        (record {
          bounded = i.bounded;
          order = i.order;
          takers = ground (arith, ap length e);
          runners = i.runners;
          limits = ground (arith, i.limits);
          stopped = i.stopped;
          all_there = ground (arith, i.all_there);
        })
]
take_from-Inv p (t ∷ ts) e i =
    let order = i.order ∙ ap (λ l. p.taken ++ l) e ∙ sym (append_assoc p.taken (t ∷ []) ts) in
    let shorter = ap length e in
    elim (Bool-cases (ltb 0 p.max_queue_size)) [
      | inl m ↦ elim (Bool-cases (ltb 0 p.blocked_runners)) [
        | inl f ↦
            rw (m, f)
              (record {
                bounded = ground (arith, i.bounded, shorter);
                order = order;
                takers = ground (arith, i.takers, shorter);
                runners = ground (arith, i.runners, shorter);
                limits = ground (arith, i.limits);
                stopped = i.stopped;
                all_there = ground (arith, i.all_there);
              })
        | inr f ↦
            rw (m, f)
              (record {
                bounded = ground (arith, i.bounded, shorter);
                order = order;
                takers = ground (arith, i.takers, shorter);
                runners = ground (arith, i.runners, shorter, f);
                limits = ground (arith, i.limits);
                stopped = i.stopped;
                all_there = ground (arith, i.all_there);
              })
      ]
      | inr m ↦ rw m (record {
        bounded = ground (arith, i.bounded, shorter);
        order = order;
        takers = ground (arith, i.takers, shorter);
        runners = ground (arith, i.runners, shorter, m);
        limits = ground (arith, i.limits);
        stopped = i.stopped;
        all_there = ground (arith, i.all_there);
      })
    ]

pub take-Inv : {n : ℕ} (p : ThreadPool) → Inv n p → 0 < p.entering → Inv n (take p)
unfolding take
take-Inv p i h =
    take_from-Inv (record p { entering = p.entering - 1 }) p.queue refl
      (record {
        bounded = i.bounded;
        order = i.order;
        takers = ground (arith, i.takers);
        runners = i.runners;
        limits = ground (arith, i.limits);
        stopped = i.stopped;
        all_there = omega (arith, i.all_there);
      })

pub take_again-Inv : {n : ℕ} (p : ThreadPool) → Inv n p → 0 < p.woken_takers → Inv n (take_again p)
unfolding take_again
take_again-Inv p i h =
    take_from-Inv (record p { woken_takers = p.woken_takers - 1 }) p.queue refl
      (record {
        bounded = i.bounded;
        order = i.order;
        takers = ground (arith, i.takers);
        runners = i.runners;
        limits = ground (arith, i.limits);
        stopped = i.stopped;
        all_there = omega (arith, i.all_there);
      })

pub test_running-Inv : {n : ℕ} (p : ThreadPool) → Inv n p → 0 < p.idle → Inv n (test_running p)
unfolding test_running
test_running-Inv {n} p i h = elim (Bool-cases p.running) [
  | inl r ↦
      let enters : ThreadPool = record p { idle = p.idle - 1; entering = p.entering + 1 } in
      subst
        (λ b.
          Inv n (if b then enters else record p { idle = p.idle - 1; finished = p.finished + 1 }))
        (sym r)
        (record {
          bounded = i.bounded;
          order = i.order;
          takers = i.takers;
          runners = i.runners;
          limits = ground (arith, i.limits);
          stopped = i.stopped;
          all_there = omega (arith, i.all_there);
        })
  | inr r ↦
      let leaves : ThreadPool = record p { idle = p.idle - 1; finished = p.finished + 1 } in
      subst
        (λ b.
          Inv n (if b then record p { idle = p.idle - 1; entering = p.entering + 1 } else leaves))
        (sym r)
        (record {
          bounded = i.bounded;
          order = i.order;
          takers = i.takers;
          runners = i.runners;
          limits = ground (arith, i.limits);
          stopped = i.stopped;
          all_there = omega (arith, i.all_there);
        })
]
