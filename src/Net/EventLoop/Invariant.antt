-- ===== src/Net/EventLoop/Invariant.antt =====
-- What every step on a loop of net/EventLoop.cc preserves.
use slack.Base.{
  ℕ, ◌+◌, ◌<◌, ◌≡◌, List, [], ◌∷◌, ◌++◌, Bool, true, false, not, ◌||◌, some, arith, refl, sym, ap,
  ◌∙◌, append_assoc, append-nil, Bool-cases, inl, inr, subst,
}
use slack.Net.EventLoop.{
  EventLoop, Phase, polling, handling, swapping, calling, stopped, handle_read, queue_here,
  queue_there, quit_there, wake_there, quit_here, start_loop, begin_events, begin_pending,
  swap_pending, call_next, end_round,
}
use slack.Net.EventLoop.Steps.{RunsUser}

abbrev pub is_cons : List ℕ → Bool
is_cons [] = false
is_cons (f ∷ fs) = true

abbrev is_calling : Phase → Bool
is_calling swapping = true
is_calling calling = true
is_calling p = false

-- What has to be seen soon, by phase: at the poll a functor or a wish to quit, after the swap a functor.
abbrev due_in : Phase → EventLoop → Bool
due_in polling s = is_cons s.pending || s.quit
due_in handling s = false
due_in swapping s = false
due_in calling s = is_cons s.pending
due_in stopped s = is_cons s.pending

abbrev pub is_due : EventLoop → Bool
is_due s = due_in s.phase s

-- Outside `doPendingFunctors` the local vector is empty.
abbrev is_empty : Phase → List ℕ → Bool
is_empty calling fs = true
is_empty p fs = not (is_cons fs)

pub record Inv (s : EventLoop) : Type 0 where
  pub flag : s.calling_pending ≡ is_calling s.phase
  pub woken : is_due s ≡ true → 0 < s.wakeups + s.callers
  pub order : s.queued ≡ s.ran ++ (s.left ++ s.pending)
  pub vector : is_empty s.phase s.left ≡ true

is_cons-snoc : (fs : List ℕ) (f : ℕ) → is_cons (fs ++ (f ∷ [])) ≡ true
is_cons-snoc [] f = refl
is_cons-snoc (g ∷ fs) f = refl

no_items : (fs : List ℕ) → not (is_cons fs) ≡ true → fs ≡ []
no_items [] e = refl
no_items (f ∷ fs) e = cc

-- A functor at the end of the queue is one at the end of all that were queued.
pushed :
    (s : EventLoop) (f : ℕ)
    → s.queued ≡ s.ran ++ (s.left ++ s.pending)
    → s.queued ++ (f ∷ []) ≡ s.ran ++ (s.left ++ (s.pending ++ (f ∷ [])))
pushed s f e =
    ap (λ l. l ++ (f ∷ [])) e
    ∙ append_assoc s.ran (s.left ++ s.pending) (f ∷ [])
    ∙ ap (λ l. s.ran ++ l) (append_assoc s.left s.pending (f ∷ []))

-- While events are handled nothing is due.
quiet : (p : Phase) (s : EventLoop) → RunsUser p → false ≡ is_calling p → due_in p s ≡ true → ⊥
quiet polling s r c e = r
quiet handling s r c e = cc
quiet swapping s r c e = r
quiet calling s r c e = cc
quiet stopped s r c e = r

-- A wish to quit from within the loop is seen at the end of the round.
wishes :
    (p : Phase) (s : EventLoop) → RunsUser p → due_in p (quit_here s) ≡ true → due_in p s ≡ true
unfolding quit_here
wishes polling s r e = absurd r
wishes handling s r e = e
wishes swapping s r e = absurd r
wishes calling s r e = e
wishes stopped s r e = absurd r

pub handle_read-Inv : {s : EventLoop} → s.phase ≡ handling → Inv s → Inv (handle_read s)
unfolding handle_read
handle_read-Inv p i = record {
  flag = i.flag;
  woken = rw p (λ e. cc);
  order = i.order;
  vector = i.vector;
}

pub begin_events-Inv : {s : EventLoop} → s.phase ≡ polling → Inv s → Inv (begin_events s)
unfolding begin_events
begin_events-Inv {s} p i = record {
  flag = i.flag ∙ rw p refl;
  woken = λ e. cc;
  order = i.order;
  vector = rw p at i.vector;
}

pub begin_pending-Inv : {s : EventLoop} → s.phase ≡ handling → Inv s → Inv (begin_pending s)
unfolding begin_pending
begin_pending-Inv {s} p i = record {
  flag = refl;
  woken = λ e. cc;
  order = i.order;
  vector = rw p at i.vector;
}

pub swap_pending-Inv : {s : EventLoop} → s.phase ≡ swapping → Inv s → Inv (swap_pending s)
unfolding swap_pending
swap_pending-Inv {s} p i = record {
  flag = i.flag ∙ rw p refl;
  woken = λ e. cc;
  order = i.order ∙ rw (no_items s.left (rw p at i.vector), append-nil s.pending) refl;
  vector = refl;
}

pub call_next-Inv :
    {s : EventLoop} (f : ℕ) (fs : List ℕ)
    → s.phase ≡ calling
    → s.left ≡ f ∷ fs
    → Inv s
    → Inv (call_next s f fs)
unfolding call_next
call_next-Inv {s} f fs p l i = record {
  flag = i.flag;
  woken = λ e. i.woken (rw p (rw p at e));
  order = i.order ∙ rw l (sym (append_assoc s.ran (f ∷ []) (fs ++ s.pending)));
  vector = rw p refl;
}

pub end_round-Inv : {s : EventLoop} → s.phase ≡ calling → s.left ≡ [] → Inv s → Inv (end_round s)
unfolding end_round
end_round-Inv {s} p l i = elim (Bool-cases s.quit) [
  | inl q ↦
      rw q
        (record { flag = refl; woken = λ e. i.woken (rw p e); order = i.order; vector = rw l refl })
  | inr q ↦ rw q (record {
    flag = refl;
    woken = λ e. i.woken (rw p (ground arith));
    order = i.order;
    vector = rw l refl;
  })
]

pub start_loop-Inv : {s t : EventLoop} → s.phase ≡ stopped → start_loop s ≡ some t → Inv s → Inv t
unfolding start_loop
start_loop-Inv {s} {t} p e i = elim (Bool-cases s.looping) [
  | inl l ↦ cc
  | inr l ↦
      let u = record s { looping = true; quit = false; phase = polling } in
      let same : u ≡ t = ground arith in
      subst Inv same (record {
        flag = i.flag ∙ rw p refl;
        woken = λ h. i.woken (rw p (ground arith));
        order = i.order;
        vector = rw p at i.vector;
      })
]

pub queue_here-Inv : {s : EventLoop} (f : ℕ) → RunsUser s.phase → Inv s → Inv (queue_here s f)
unfolding queue_here
queue_here-Inv {s} f r i = elim (Bool-cases s.calling_pending) [
  | inl c ↦ rw c (record {
    flag = sym c ∙ i.flag;
    woken = λ e. omega arith;
    order = pushed s f i.order;
    vector = i.vector;
  })
  | inr c ↦ rw c (record {
    flag = sym c ∙ i.flag;
    woken = λ e. absurd (quiet s.phase _ r (sym c ∙ i.flag) e);
    order = pushed s f i.order;
    vector = i.vector;
  })
]

pub queue_there-Inv : {s : EventLoop} (f : ℕ) → Inv s → Inv (queue_there s f)
unfolding queue_there
queue_there-Inv {s} f i = record {
  flag = i.flag;
  woken = λ e. omega arith;
  order = pushed s f i.order;
  vector = i.vector;
}

pub quit_there-Inv : {s : EventLoop} → Inv s → Inv (quit_there s)
unfolding quit_there
quit_there-Inv {s} i = record {
  flag = i.flag;
  woken = λ e. omega arith;
  order = i.order;
  vector = i.vector;
}

pub quit_here-Inv : {s : EventLoop} → RunsUser s.phase → Inv s → Inv (quit_here s)
unfolding quit_here
quit_here-Inv {s} r i = record {
  flag = i.flag;
  woken = λ e. i.woken (wishes s.phase s r e);
  order = i.order;
  vector = i.vector;
}

pub wake_there-Inv : {s : EventLoop} → 0 < s.callers → Inv s → Inv (wake_there s)
unfolding wake_there
wake_there-Inv {s} h i = record {
  flag = i.flag;
  woken = λ e. omega arith;
  order = i.order;
  vector = i.vector;
}
