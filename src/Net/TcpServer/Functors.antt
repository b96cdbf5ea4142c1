-- ===== src/Net/TcpServer/Functors.antt =====
-- The functors of net/TcpServer.cc: what each of them makes of a connection that is in the hands of a loop.
use slack.Base.{
  ℕ, ◌≡◌, List, true, false, Option, some, none, ◌==◌, arith, refl, ap, ◌∙◌, Bool-cases, inl, inr,
  Returns, Returns->>=, Returns-assert, Returns-then, Returns-else,
}
use slack.Net.Channel
use slack.Net.Channel.{is_none_event, disable_all, none_event}
use slack.Net.TcpConnection.{
  TcpConnection, is_open, is_connecting, is_connected, connect_established, connect_destroyed,
  handle_close,
}
use slack.Net.TcpServer.{
  Task, establish, remove, destroy, TcpServer, map_to, count_of, set_connection, queue_in_loop,
  remove_in_loop, run_task, run_in_loop, close_connection,
}
use slack.Net.TcpServer.Update.{task_id, mine-snoc, eq_refl, map_to_same, IsDecimal}
use slack.Net.TcpServer.Invariant.{
  Stage, opening, live, closing, closed, dead, next_task, Fits, entry, Fine, in_use, Inv, release,
  set_connection-Inv, queue_in_loop-Inv, map_to-Inv,
}

established : (c : TcpConnection) → Fits opening c → Returns (connect_established c) (Fits live)
unfolding connect_established is_connecting is_open
established c h = Returns-assert _ _ (ap is_connecting h) refl

handle_close-Fits : (c : TcpConnection) → Fits live c → Returns (handle_close c) (Fits closing)
unfolding handle_close disable_all
handle_close-Fits c h = Returns-assert _ _ h (refl, refl)

connect_destroyed-dead :
    (c : TcpConnection) → Fits closed c → Returns (connect_destroyed c) (Fits dead)
unfolding connect_destroyed is_connected Channel.remove
connect_destroyed-dead c (h, k) = ground (arith, h, k)

-- The connection in hand gets another state.
set_connection-Fine :
    {s : TcpServer} {i : ℕ} (st st' : Stage) (c : TcpConnection)
    → Fine false s i st
    → entry st i ≡ entry st' i
    → Fits st' c
    → Fine false (set_connection s i c) i st'
set_connection-Fine {s} {i} st st' c f e h = record {
  tasks_ok = λ l. f.tasks_ok l;
  state_ok = rw (eq_refl i) h;
  map_ok = rw (eq_refl i) (f.map_ok ∙ e);
}

-- A connection that waits for nothing need not be held.
let_go :
    {s : TcpServer} {i : ℕ} (st : Stage)
    → ((l b : ℕ) → next_task st i l b ≡ none)
    → Fine false s i st
    → Fine true s i st
let_go {s} {i} st h f = record {
  tasks_ok = λ l. rw (h (s.conns i).loop s.base_loop) (f.tasks_ok l);
  state_ok = f.state_ok;
  map_ok = f.map_ok;
}

-- The functor in hand goes into the queue where it belongs.
queue_in_loop-Fine :
    {s : TcpServer} (l : ℕ) (t : Task) (st : Stage)
    → next_task st (task_id t) (s.conns (task_id t)).loop s.base_loop ≡ some (l, t)
    → Fine false s (task_id t) st
    → Fine true (queue_in_loop s l t) (task_id t) st
queue_in_loop-Fine {s} l t st e f = record {
  tasks_ok = λ m. rw e (elim (Bool-cases (l == m)) [
    | inl h ↦
        rw h (mine-snoc (task_id t) (s.pending l) t ∙ rw (eq_refl (task_id t), f.tasks_ok l) refl)
    | inr h ↦ rw h (f.tasks_ok m)
  ]);
  state_ok = f.state_ok;
  map_ok = f.map_ok;
}

abbrev loop_of : Option (ℕ × Task) → ℕ
loop_of none = 0
loop_of (some (l, t)) = l

module _ {decimal : ℕ → List ℕ} (d : IsDecimal decimal) where
  queue_lem :
      (s : TcpServer) (l : ℕ) (t : Task) (st : Stage)
      → in_use s (task_id t) ≡ true
      → Inv decimal s (task_id t)
      → next_task st (task_id t) (s.conns (task_id t)).loop s.base_loop ≡ some (l, t)
      → Fine false s (task_id t) st
      → Inv decimal (queue_in_loop s l t) 0
  queue_lem s l t st u v e f =
      release (task_id t) st (queue_in_loop-Inv l t u v) (queue_in_loop-Fine l t st e f)

  remove_in_loop_lem :
      (s : TcpServer) (here i : ℕ)
      → in_use s i ≡ true
      → Inv decimal s i
      → Fine false s i closing
      → (here == s.base_loop) ≡ true
      → Returns (remove_in_loop s here i) (λ t. Inv decimal t 0)
  unfolding remove_in_loop
  remove_in_loop_lem s here i u v f h =
      let erased : TcpServer = record s {
        connections = map_to s.connections (s.conns i).name none;
      } in
      let fine : Fine false erased i closed = record {
        tasks_ok = λ l. f.tasks_ok l;
        state_ok = f.state_ok;
        map_ok = map_to_same s.connections (s.conns i).name none;
      } in
      Returns-assert _ _ h (
        Returns-assert _ _ (ap (λ o. count_of o == 1) f.map_ok) (
          queue_lem erased (s.conns i).loop (destroy i) closed u (map_to-Inv i none d u v) refl
            fine))

  establish_lem :
      (s : TcpServer) (here i : ℕ)
      → in_use s i ≡ true
      → Inv decimal s i
      → Fine false s i opening
      → (here == (s.conns i).loop) ≡ true
      → Returns (run_task s here (establish i)) (λ t. Inv decimal t 0)
  unfolding run_task
  establish_lem s here i u v f h = Returns-assert _ _ h (
      Returns->>= (connect_established (s.conns i).connection) _ _ _
        (established (s.conns i).connection f.state_ok)
        (λ c k.
          release i live (set_connection-Inv i c v)
            (let_go live (λ l b. refl) (set_connection-Fine opening live c f refl k))))

  destroy_lem :
      (s : TcpServer) (here i : ℕ)
      → in_use s i ≡ true
      → Inv decimal s i
      → Fine false s i closed
      → (here == (s.conns i).loop) ≡ true
      → Returns (run_task s here (destroy i)) (λ t. Inv decimal t 0)
  unfolding run_task
  destroy_lem s here i u v f h = Returns-assert _ _ h (
      Returns->>= (connect_destroyed (s.conns i).connection) _ _ _
        (connect_destroyed-dead (s.conns i).connection f.state_ok)
        (λ c k.
          release i dead (set_connection-Inv i c v)
            (let_go dead (λ l b. refl) (set_connection-Fine closed dead c f refl k))))

  -- A functor in hand, called in the loop where it belongs.
  pub run_task_lem :
      (s : TcpServer) (here l : ℕ) (t : Task) (st : Stage)
      → in_use s (task_id t) ≡ true
      → Inv decimal s (task_id t)
      → next_task st (task_id t) (s.conns (task_id t)).loop s.base_loop ≡ some (l, t)
      → Fine false s (task_id t) st
      → (here == l) ≡ true
      → Returns (run_task s here t) (λ t. Inv decimal t 0)
  unfolding run_task
  run_task_lem s here l (establish i) opening u v e f h =
      establish_lem s here i u v f (ap (λ m. here == m) (ap loop_of e) ∙ h)
  run_task_lem s here l (remove i) closing u v e f h =
      remove_in_loop_lem s here i u v f (ap (λ m. here == m) (ap loop_of e) ∙ h)
  run_task_lem s here l (destroy i) closed u v e f h =
      destroy_lem s here i u v f (ap (λ m. here == m) (ap loop_of e) ∙ h)
  run_task_lem s here l (remove i) opening u v e f h = absurd (cc)
  run_task_lem s here l (destroy i) opening u v e f h = absurd (cc)
  run_task_lem s here l (establish i) closing u v e f h = absurd (cc)
  run_task_lem s here l (destroy i) closing u v e f h = absurd (cc)
  run_task_lem s here l (establish i) closed u v e f h = absurd (cc)
  run_task_lem s here l (remove i) closed u v e f h = absurd (cc)
  run_task_lem s here l t live u v e f h = absurd (cc)
  run_task_lem s here l t dead u v e f h = absurd (cc)

  pub run_in_loop_lem :
      (s : TcpServer) (here l : ℕ) (t : Task) (st : Stage)
      → in_use s (task_id t) ≡ true
      → Inv decimal s (task_id t)
      → next_task st (task_id t) (s.conns (task_id t)).loop s.base_loop ≡ some (l, t)
      → Fine false s (task_id t) st
      → Returns (run_in_loop s here l t) (λ t. Inv decimal t 0)
  unfolding run_in_loop
  run_in_loop_lem s here l t st u v e f = elim (Bool-cases (here == l)) [
    | inl h ↦ Returns-then _ _ _ h (run_task_lem s here l t st u v e f h)
    | inr h ↦ Returns-else _ _ _ h (queue_lem s l t st u v e f)
  ]

  -- A connection that is open closes, in its loop.
  pub close_connection_lem :
      (s : TcpServer) (i : ℕ)
      → in_use s i ≡ true
      → Inv decimal s i
      → Fine false s i live
      → Returns (close_connection s (s.conns i).loop i) (λ t. Inv decimal t 0)
  unfolding close_connection
  close_connection_lem s i u v f = Returns-assert _ _ (eq_refl (s.conns i).loop) (
      Returns->>= (handle_close (s.conns i).connection) _ _ _
        (handle_close-Fits (s.conns i).connection f.state_ok)
        (λ c k.
          run_in_loop_lem (set_connection s i c) (s.conns i).loop s.base_loop (remove i) closing u
            (set_connection-Inv i c v) refl (set_connection-Fine live closing c f refl k)))
