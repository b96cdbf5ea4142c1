-- ===== src/Net/EventLoop/Pending.antt =====
-- `doPendingFunctors` of net/EventLoop.cc as a whole.
use slack.Base.{
  ℕ, ◌+◌, ◌≡◌, List, [], ◌∷◌, ◌++◌, true, arith, refl, sym, ap, ◌∙◌, append_assoc, append-nil,
  length, length-append,
}
use slack.Net.EventLoop.{
  EventLoop, queue_here, begin_pending, swap_pending, call_next, queue_all, call_all,
  do_pending_functors,
}

-- What the functors of a list queue, in order.
abbrev pub queued_by : (ℕ → List ℕ) → List ℕ → List ℕ
queued_by queues [] = []
queued_by queues (f ∷ fs) = queues f ++ queued_by queues fs

-- A state in which functors were called and others queued, each with a wake-up.
record Called (s : EventLoop) (fs gs : List ℕ) (t : EventLoop) : Type 0 where
  flag : t.calling_pending ≡ true
  ran_eq : t.ran ≡ s.ran ++ fs
  pending_eq : t.pending ≡ s.pending ++ gs
  wakeups_eq : t.wakeups ≡ s.wakeups + length gs

same-Called : (s : EventLoop) → s.calling_pending ≡ true → Called s [] [] s
same-Called s c = record {
  flag = c;
  ran_eq = sym (append-nil s.ran);
  pending_eq = sym (append-nil s.pending);
  wakeups_eq = omega arith;
}

Called-trans :
    {s t u : EventLoop} (fs gs fs' gs' : List ℕ)
    → Called s fs gs t
    → Called t fs' gs' u
    → Called s (fs ++ fs') (gs ++ gs') u
Called-trans {s} fs gs fs' gs' p q = record {
  flag = q.flag;
  ran_eq = q.ran_eq ∙ ap (λ l. l ++ fs') p.ran_eq ∙ append_assoc s.ran fs fs';
  pending_eq = q.pending_eq ∙ ap (λ l. l ++ gs') p.pending_eq ∙ append_assoc s.pending gs gs';
  wakeups_eq = omega (arith, p.wakeups_eq, q.wakeups_eq, length-append gs gs');
}

queue_here_lem :
    (s : EventLoop) (f : ℕ) → s.calling_pending ≡ true → Called s [] (f ∷ []) (queue_here s f)
unfolding queue_here
queue_here_lem s f c =
    rw c (record {
      flag = refl;
      ran_eq = sym (append-nil s.ran);
      pending_eq = refl;
      wakeups_eq = refl;
    })

module _ (queues : ℕ → List ℕ) where
  queue_all_lem :
      (s : EventLoop) (gs : List ℕ)
      → s.calling_pending ≡ true
      → Called s [] gs (queue_all queues s gs)
  unfolding queue_all
  queue_all_lem s [] c = same-Called s c
  queue_all_lem s (g ∷ gs) c =
      let one = queue_here_lem s g c in
      Called-trans [] (g ∷ []) [] gs one (queue_all_lem (queue_here s g) gs one.flag)

  call_all_lem :
      (s : EventLoop) (fs : List ℕ)
      → s.calling_pending ≡ true
      → Called s fs (queued_by queues fs) (call_all queues s fs)
  unfolding call_all call_next
  call_all_lem s [] c = same-Called s c
  call_all_lem s (f ∷ fs) c =
      let called : Called s (f ∷ []) [] (call_next s f fs) = record {
        flag = c;
        ran_eq = refl;
        pending_eq = sym (append-nil s.pending);
        wakeups_eq = omega arith;
      } in
      let made = queue_all_lem (call_next s f fs) (queues f) c in
      let one = Called-trans (f ∷ []) [] [] (queues f) called made in
      Called-trans (f ∷ []) (queues f) fs (queued_by queues fs) one
        (call_all_lem (queue_all queues (call_next s f fs) (queues f)) fs made.flag)

  -- One call of `doPendingFunctors` calls the functors that wait, in order, and those only: what these
  -- queue, in order, waits for the next round, and each of it has written to the eventfd.
  pub do_pending_functors_lem :
      (s : EventLoop)
      → ((do_pending_functors queues s).ran ≡ s.ran ++ s.pending)
        × ((do_pending_functors queues s).pending ≡ queued_by queues s.pending)
        × ((do_pending_functors queues s).wakeups ≡ s.wakeups + length (queued_by queues s.pending))
  unfolding do_pending_functors begin_pending swap_pending
  do_pending_functors_lem s =
      let r = call_all_lem (swap_pending (begin_pending s)) s.pending refl in
      (r.ran_eq, r.pending_eq, r.wakeups_eq)
