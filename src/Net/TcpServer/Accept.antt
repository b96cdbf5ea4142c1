-- ===== src/Net/TcpServer/Accept.antt =====
-- net/TcpServer.cc: a new connection.
use slack.Base.{
  ℕ, zero, suc, ◌+◌, ◌^◌, ◌<◌, ◌≡◌, ◌≢◌, List, [], ◌∷◌, Bool, true, false, ◌&&◌, some,
  if◌then◌else◌, ◌==◌, ltb, leb, length, get_elem?, arith, refl, sym, ap, ◌∙◌, Bool-cases, inl, inr,
  ◌⊎◌, subst, Returns, Returns->>=, Returns-assert,
}
use slack.Net.EventLoopThreadPool.{LoopPool, get_next_loop, take_turn}
use slack.Net.TcpConnection.{TcpConnection}
use slack.Net.TcpServer.{
  establish, Connection, TcpServer, update_at, map_to, new_connection_on, conn_name, new_connection,
}
use slack.Net.TcpServer.Update.{eq_refl, map_to_same, map_to_other, IsDecimal, conn_name_distinct}
use slack.Net.TcpServer.Invariant.{opening, in_use, IsPool, Inv}
use slack.Net.TcpServer.Functors.{run_in_loop_lem}

get_elem?_inside : (xs : List ℕ) (n : ℕ) → n < length xs → Returns (get_elem? xs n) (λ x. Unit {0})
get_elem?_inside [] n h = absurd (omega arith)
get_elem?_inside (x ∷ xs) zero h = tt
get_elem?_inside (x ∷ xs) (suc n) h = get_elem?_inside xs n (omega arith)

take_turn-IsPool :
    (p : LoopPool) (ls : List ℕ)
    → p.loops ≡ ls
    → IsPool p
    → Returns (take_turn p ls) (λ r. IsPool r.1)
unfolding take_turn
take_turn-IsPool p [] e h = h
take_turn-IsPool p (l ∷ ls) e (started, n) =
    let inside : p.next < length (l ∷ ls) = elim n [
      | inl z ↦ omega arith
      | inr k ↦ subst (λ xs. p.next < length xs) e k
    ] in
    Returns->>= (get_elem? (l ∷ ls) p.next) (λ x. Unit {0}) _ _
      (get_elem?_inside (l ∷ ls) p.next inside)
      (λ x u. (
        started,
        subst
            (λ xs.
              ((if leb (length (l ∷ ls)) (p.next + 1) then 0 else p.next + 1) ≡ 0)
              ⊎ ((if leb (length (l ∷ ls)) (p.next + 1) then 0 else p.next + 1) < length xs))
            (sym e) (ground arith),
      ))

get_next_loop-IsPool : (p : LoopPool) → IsPool p → Returns (get_next_loop p) (λ r. IsPool r.1)
unfolding get_next_loop
get_next_loop-IsPool p h = Returns-assert _ _ h.0 (take_turn-IsPool p p.loops refl h)

-- The state with connection `next_conn_id` in it, before that is established.
abbrev with_connection : (ℕ → List ℕ) → TcpServer → LoopPool → ℕ → TcpConnection → TcpServer
with_connection decimal s pool l c =
    let i = s.next_conn_id in
    let name = conn_name decimal s.name s.ip_port i in
    let conn : Connection = record { name = name; loop = l; connection = c } in
    record s {
      pool = pool;
      next_conn_id = i + 1;
      connections = map_to s.connections name (some i);
      conns = update_at s.conns i conn;
    }

module _ {decimal : ℕ → List ℕ} (d : IsDecimal decimal) (s : TcpServer) (v : Inv decimal s 0)
    (room : s.next_conn_id + 1 < 2147483648) where
  was_in_use :
      (j : ℕ)
      → in_use s j ≡ false
      → (s.next_conn_id == j) ≡ false
      → (ltb 0 j && ltb j (s.next_conn_id + 1)) ≡ false
  was_in_use j h k = ground (arith, h, k)

  with_connection-Inv :
      (pool : LoopPool) (l : ℕ) (c : TcpConnection)
      → IsPool pool
      → Inv decimal (with_connection decimal s pool l c) s.next_conn_id
  with_connection-Inv pool l c p = record {
    pool_ok = p;
    short = v.short;
    small = room;
    positive = omega arith;
    unused = λ j u. v.unused j (ground (arith, u));
    named = λ j u. elim (Bool-cases (s.next_conn_id == j)) [
      | inl e ↦
          let same_number : s.next_conn_id ≡ j = ground (arith, e) in
          rw e (ap (conn_name decimal s.name s.ip_port) same_number)
      | inr e ↦ rw e (v.named j (ground (arith, u, e)))
    ];
    fine = λ j u h.
        let w : in_use s j ≡ true = ground (arith, u, h) in
        let (st, f) = v.fine j w (ground (arith, w)) in
        let differ : conn_name decimal s.name s.ip_port s.next_conn_id ≢ (s.conns j).name = λ e.
          let eq : s.next_conn_id ≡ j =
            conn_name_distinct s.name s.ip_port s.next_conn_id j d v.short v.small
              (ground (arith, v.small, w)) (e ∙ v.named j w) in
          ground (arith, eq, h) in
        (
          st,
          record {
            tasks_ok = λ m. rw h (f.tasks_ok m);
            state_ok = rw h f.state_ok;
            map_ok = rw h (
                map_to_other s.connections (conn_name decimal s.name s.ip_port s.next_conn_id)
                  (s.conns j).name (some s.next_conn_id) differ
                ∙ f.map_ok);
          },
        );
  }

  pub new_connection_lem :
      (fd : ℕ) (reading : Bool)
      → Returns (new_connection decimal s s.base_loop fd reading) (λ t. Inv decimal t 0)
  unfolding new_connection
  new_connection_lem fd reading =
      let i = s.next_conn_id in
      Returns-assert _ _ (eq_refl s.base_loop) (
        Returns->>= (get_next_loop s.pool) _ _ _ (get_next_loop-IsPool s.pool v.pool_ok) (λ r p.
          let c = new_connection_on fd reading s.write_complete_callback in
          let in_range : ltb (s.next_conn_id + 1) (2 ^ 31) ≡ true = ground (arith, room) in
          Returns-assert _ _ in_range (
            run_in_loop_lem d (with_connection decimal s r.1 r.0 c) s.base_loop r.0 (establish i)
              opening (ground (arith, v.positive)) (with_connection-Inv r.1 r.0 c p)
              (rw (eq_refl i) refl)
              (record {
                tasks_ok = λ m. v.unused i (ground arith) m;
                state_ok = rw (eq_refl i) refl;
                map_ok =
                    rw (eq_refl i)
                      (map_to_same s.connections (conn_name decimal s.name s.ip_port i) (some i));
              }))))
