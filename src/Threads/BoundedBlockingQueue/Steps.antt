-- ===== src/Threads/BoundedBlockingQueue/Steps.antt =====
-- base/BoundedBlockingQueue.h under every interleaving of threads that put and take.
use slack.Base.{
  ℕ, suc, ◌+◌, ◌-◌, ◌≤◌, ◌<◌, ◌≡◌, List, [], ◌∷◌, ◌++◌, true, ◌||◌, Option, some, none, arith, refl,
  sym, ap, ◌∙◌, append_assoc, Bool-cases, inl, inr, length, length-append, leb, ltb, ◌==◌, subst,
  Returns,
}
use slack.Threads.BoundedBlockingQueue.{
  Queue, new_queue, put, take, take_from, put_again, take_again, notify_not_empty, notify_not_full,
}

-- A critical section of some thread, or a spurious wake-up.
pub data Step (q : Queue) : Queue → Type 0 where
  puts : {p : Queue} (x : ℕ) → put q x ≡ some p → Step q p
  puts_again : {p : Queue} (x : ℕ) → 0 < q.woken_putters → put_again q x ≡ some p → Step q p
  takes : Step q (take q)
  takes_again : 0 < q.woken_takers → Step q (take_again q)
  wakes_taker :
      0 < q.blocked_takers
      → Step q
          (record q { blocked_takers = q.blocked_takers - 1; woken_takers = q.woken_takers + 1 })
  wakes_putter :
      0 < q.blocked_putters
      → Step q (record q {
        blocked_putters = q.blocked_putters - 1;
        woken_putters = q.woken_putters + 1;
      })

pub data Steps (q : Queue) : Queue → Type 0 where
  done : Steps q q
  more : {p r : Queue} → Steps q p → Step p r → Steps q r

-- Where threads are blocked, enough others are woken for all elements, and for all free places.
pub record Inv (q : Queue) : Type 0 where
  pub bounded : length q.queue ≤ q.capacity
  pub order : q.accepted ≡ q.taken ++ q.queue
  pub takers : ((q.blocked_takers == 0) || leb (length q.queue) q.woken_takers) ≡ true
  pub putters :
      ((q.blocked_putters == 0) || leb (q.capacity - length q.queue) q.woken_putters) ≡ true

grown : (q : Queue) (x : ℕ) → length (q.queue ++ (x ∷ [])) ≡ length q.queue + 1
grown q x = length-append q.queue (x ∷ [])

notify_not_empty-Inv :
    (q : Queue)
    → length q.queue ≤ q.capacity
    → q.accepted ≡ q.taken ++ q.queue
    → ((q.blocked_takers == 0) || leb (length q.queue) (q.woken_takers + 1)) ≡ true
    → ((q.blocked_putters == 0) || leb (q.capacity - length q.queue) q.woken_putters) ≡ true
    → Inv (notify_not_empty q)
notify_not_empty-Inv q b o t p = elim (Bool-cases (ltb 0 q.blocked_takers)) [
  | inl e ↦ rw e (record { bounded = b; order = o; takers = ground arith; putters = p })
  | inr e ↦ rw e (record { bounded = b; order = o; takers = ground arith; putters = p })
]

notify_not_full-Inv :
    (q : Queue)
    → length q.queue ≤ q.capacity
    → q.accepted ≡ q.taken ++ q.queue
    → ((q.blocked_takers == 0) || leb (length q.queue) q.woken_takers) ≡ true
    → ((q.blocked_putters == 0) || leb (q.capacity - length q.queue) (q.woken_putters + 1)) ≡ true
    → Inv (notify_not_full q)
notify_not_full-Inv q b o t p = elim (Bool-cases (ltb 0 q.blocked_putters)) [
  | inl e ↦ rw e (record { bounded = b; order = o; takers = t; putters = ground arith })
  | inr e ↦ rw e (record { bounded = b; order = o; takers = t; putters = ground arith })
]

-- `put` by a thread that calls it, or by one that was woken: its assertion holds.
put-Inv :
    (q : Queue) (w x : ℕ)
    → Inv q
    → q.woken_putters ≤ suc w
    → Returns (put (record q { woken_putters = w }) x) Inv
unfolding put
put-Inv q w x i h = elim (Bool-cases (length q.queue == q.capacity)) [
  | inl e ↦
      rw e
        (record { bounded = i.bounded; order = i.order; takers = i.takers; putters = ground arith })
  | inr e ↦
      let room : ltb (length q.queue) q.capacity ≡ true = ground (arith, i.bounded) in
      rw (e, room)
        (notify_not_empty-Inv
          (record q {
            woken_putters = w;
            queue = q.queue ++ (x ∷ []);
            accepted = q.accepted ++ (x ∷ []);
          })
          (ground (arith, grown q x))
          (ap (λ l. l ++ (x ∷ [])) i.order ∙ append_assoc q.taken q.queue (x ∷ []))
          (ground (arith, grown q x, i.takers)) (ground (arith, grown q x, i.putters)))
]

take_from-Inv :
    (q : Queue) (w : ℕ) (l : List ℕ)
    → q.queue ≡ l
    → Inv q
    → q.woken_takers ≤ suc w
    → Inv (take_from (record q { woken_takers = w }) l)
take_from-Inv q w [] e i h = record {
  bounded = i.bounded;
  order = i.order;
  takers = ground (arith, ap length e);
  putters = i.putters;
}
take_from-Inv q w (x ∷ xs) e i h =
    notify_not_full-Inv (record q { woken_takers = w; queue = xs; taken = q.taken ++ (x ∷ []) })
      (omega (arith, ap length e, i.bounded))
      (i.order ∙ ap (λ l. q.taken ++ l) e ∙ sym (append_assoc q.taken (x ∷ []) xs))
      (ground (arith, ap length e, i.takers)) (ground (arith, ap length e, i.putters))

take-Inv :
    (q : Queue) (w : ℕ)
    → Inv q
    → q.woken_takers ≤ suc w
    → Inv (take (record q { woken_takers = w }))
unfolding take
take-Inv q w i h = take_from-Inv q w q.queue refl i h

Returns-to : {o : Option Queue} {p : Queue} → o ≡ some p → Returns o Inv → Inv p
Returns-to {o} {p} e r = subst (λ m. Returns m Inv) e r

Step-Inv : {q p : Queue} → Step q p → Inv q → Inv p
unfolding put_again take_again
Step-Inv {q} (puts x e) i = Returns-to e (put-Inv q q.woken_putters x i (omega arith))
Step-Inv {q} (puts_again x h e) i = Returns-to e (put-Inv q (q.woken_putters - 1) x i (omega arith))
Step-Inv {q} takes i = take-Inv q q.woken_takers i (omega arith)
Step-Inv {q} (takes_again h) i = take-Inv q (q.woken_takers - 1) i (omega arith)
Step-Inv (wakes_taker h) i = record {
  bounded = i.bounded;
  order = i.order;
  takers = ground (arith, i.takers);
  putters = i.putters;
}
Step-Inv (wakes_putter h) i = record {
  bounded = i.bounded;
  order = i.order;
  takers = i.takers;
  putters = ground (arith, i.putters);
}

Steps-Inv : {n : ℕ} {q : Queue} → Steps (new_queue n) q → Inv q
Steps-Inv done = record { bounded = omega arith; order = refl; takers = refl; putters = refl }
Steps-Inv (more s t) = Step-Inv t (Steps-Inv s)

-- However threads take turns, with spurious wake-ups among their steps, the queue is never longer than its capacity, and what was put in
-- is what was taken out, in that order, and then what is still in the queue.
pub Steps-order :
    (n : ℕ) (q : Queue)
    → Steps (new_queue n) q
    → (length q.queue ≤ q.capacity) × (q.accepted ≡ q.taken ++ q.queue)
Steps-order n q s = let i = Steps-Inv s in (i.bounded, i.order)

-- However threads take turns, with spurious wake-ups among their steps, while a thread is blocked in `take` there is
-- for each element in the queue another one that is woken and has yet to look: no element is left for sleepers.
pub Steps-takers :
    (n : ℕ) (q : Queue)
    → Steps (new_queue n) q
    → 0 < q.blocked_takers
    → length q.queue ≤ q.woken_takers
Steps-takers n q s h = let i = Steps-Inv s in ground (arith, i.takers)

-- However threads take turns, with spurious wake-ups among their steps, while a thread is blocked in `put` there is
-- for each free place another one that is woken and has yet to look.
pub Steps-putters :
    (n : ℕ) (q : Queue)
    → Steps (new_queue n) q
    → 0 < q.blocked_putters
    → q.capacity - length q.queue ≤ q.woken_putters
Steps-putters n q s h = let i = Steps-Inv s in ground (arith, i.putters)

returns-Step :
    {q : Queue} (o : Option Queue)
    → ((p : Queue) → o ≡ some p → Step q p)
    → Returns o Inv
    → Returns o (Step q)
returns-Step none f r = r
returns-Step (some p) f r = f p refl

-- However threads took turns before, the assertion of `put` holds, for a new call and for a thread that was woken.
pub Steps-put :
    (n : ℕ) (q : Queue) (x : ℕ)
    → Steps (new_queue n) q
    → 0 < q.woken_putters
    → Returns (put q x) (Step q) × Returns (put_again q x) (Step q)
unfolding put_again
Steps-put n q x s h =
    let i = Steps-Inv s in
    (
      returns-Step (put q x) (λ p e. puts x e) (put-Inv q q.woken_putters x i (omega arith)),
      returns-Step (put_again q x) (λ p e. puts_again x h e)
          (put-Inv q (q.woken_putters - 1) x i (omega arith)),
    )
