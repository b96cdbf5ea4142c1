-- ===== src/Net/TcpServer/Invariant.antt =====
-- What every step of net/TcpServer.cc preserves: how far each connection has come, and which functor of it waits where.
use slack.Base.{
  ℕ, ◌≤◌, ◌<◌, ◌≡◌, ◌≢◌, List, [], ◌∷◌, Bool, true, false, ◌&&◌, Option, some, none, if◌then◌else◌,
  ◌==◌, ltb, length, arith, refl, sym, ap, ◌∙◌, Bool-cases, inl, inr, ◌⊎◌, subst,
}
use slack.Net.EventLoopThreadPool.{LoopPool}
use slack.Net.Channel.{is_none_event}
use slack.Net.TcpConnection.{TcpConnection, connecting, disconnected, is_open}
use slack.Net.TcpServer.{
  Task, establish, remove, destroy, Connection, TcpServer, map_to, set_connection, queue_in_loop,
  conn_name,
}
use slack.Net.TcpServer.Update.{
  task_id, mine, mine-snoc, map_to_other, IsDecimal, conn_name_distinct,
}

-- It is to be established; it is established; it is to be removed from the map; it is to be destroyed; it is destroyed.
pub data Stage : Type 0 where
  opening live closing closed dead : Stage

-- The functor that takes a connection further, and the loop that must call it.
abbrev pub next_task : Stage → ℕ → ℕ → ℕ → Option (ℕ × Task)
next_task opening i loop base = some (loop, establish i)
next_task live i loop base = none
next_task closing i loop base = some (base, remove i)
next_task closed i loop base = some (loop, destroy i)
next_task dead i loop base = none

abbrev pub if_there : Option (ℕ × Task) → ℕ → List Task
if_there none l = []
if_there (some (m, t)) l = if m == l then t ∷ [] else []

-- What of a connection waits in the queue of loop `l`. Its functor may be in the hands of a loop instead.
abbrev pub waiting : Bool → Stage → ℕ → ℕ → ℕ → ℕ → List Task
waiting false st i loop base l = []
waiting true st i loop base l = if_there (next_task st i loop base) l

abbrev pub Fits : Stage → TcpConnection → Type 0
Fits opening c = c.state ≡ connecting
Fits live c = is_open c.state ≡ true
Fits closing c = (c.state ≡ disconnected) × (is_none_event c.channel ≡ true)
Fits closed c = (c.state ≡ disconnected) × (is_none_event c.channel ≡ true)
Fits dead c = (c.state ≡ disconnected) × (c.channel.added_to_loop ≡ false)

abbrev pub entry : Stage → ℕ → Option ℕ
entry opening i = some i
entry live i = some i
entry closing i = some i
entry closed i = none
entry dead i = none

pub record Fine (queued : Bool) (s : TcpServer) (i : ℕ) (st : Stage) : Type 0 where
  pub tasks_ok : (l : ℕ) → mine i (s.pending l) ≡ waiting queued st i (s.conns i).loop s.base_loop l
  pub state_ok : Fits st (s.conns i).connection
  pub map_ok : s.connections (s.conns i).name ≡ entry st i

abbrev pub in_use : TcpServer → ℕ → Bool
in_use s i = ltb 0 i && ltb i s.next_conn_id

abbrev pub IsPool : LoopPool → Type 0
IsPool p = (p.started ≡ true) × ((p.next ≡ 0) ⊎ (p.next < length p.loops))

-- All is well but for connection `held`, whose functor is in the hands of a loop; 0 is no connection.
pub record Inv (decimal : ℕ → List ℕ) (s : TcpServer) (held : ℕ) : Type 0 where
  pub pool_ok : IsPool s.pool
  pub short : length s.ip_port ≤ 50
  pub small : s.next_conn_id < 2147483648
  pub positive : 0 < s.next_conn_id
  pub unused : (i : ℕ) → in_use s i ≡ false → (l : ℕ) → mine i (s.pending l) ≡ []
  pub named : (i : ℕ) → in_use s i ≡ true → (s.conns i).name ≡ conn_name decimal s.name s.ip_port i
  pub fine : (i : ℕ) → in_use s i ≡ true → (held == i) ≡ false → (st : Stage) × Fine true s i st

-- A connection that is fine is no longer held.
pub release :
    {decimal : ℕ → List ℕ} {s : TcpServer} (i : ℕ) (st : Stage)
    → Inv decimal s i
    → Fine true s i st
    → Inv decimal s 0
release {s = s} i st v f = record {
  pool_ok = v.pool_ok;
  short = v.short;
  small = v.small;
  positive = v.positive;
  unused = v.unused;
  named = v.named;
  fine = λ j u h. elim (Bool-cases (i == j)) [
    | inl e ↦ subst (λ k. (t : Stage) × Fine true s k t) (ground (arith, e)) (st, f)
    | inr e ↦ v.fine j u e
  ];
}

pub hold : {decimal : ℕ → List ℕ} {s : TcpServer} (i : ℕ) → Inv decimal s 0 → Inv decimal s i
hold {s = s} i v = record {
  pool_ok = v.pool_ok;
  short = v.short;
  small = v.small;
  positive = v.positive;
  unused = v.unused;
  named = v.named;
  fine = λ j u h. v.fine j u (ground (arith, u));
}

pub names_differ :
    {decimal : ℕ → List ℕ} {s : TcpServer} {held : ℕ} (i j : ℕ)
    → IsDecimal decimal
    → Inv decimal s held
    → in_use s i ≡ true
    → in_use s j ≡ true
    → (i == j) ≡ false
    → (s.conns i).name ≢ (s.conns j).name
names_differ {decimal} {s} i j d v u w h e =
    let eq : i ≡ j =
      conn_name_distinct s.name s.ip_port i j d v.short (ground (arith, v.small, u))
        (ground (arith, v.small, w)) (sym (v.named i u) ∙ e ∙ v.named j w) in
    ground (arith, eq, h)

-- A change to the connection that is held leaves the others as they are.
pub set_connection-Inv :
    {decimal : ℕ → List ℕ} {s : TcpServer} (i : ℕ) (c : TcpConnection)
    → Inv decimal s i
    → Inv decimal (set_connection s i c) i
set_connection-Inv {decimal} {s} i c v =
    let d : Connection = record (s.conns i) { connection = c } in
    record {
      pool_ok = v.pool_ok;
      short = v.short;
      small = v.small;
      positive = v.positive;
      unused = v.unused;
      named = λ j u. elim (Bool-cases (i == j)) [
        | inl e ↦
            let same_number : i ≡ j = ground (arith, e) in
            rw e (
              subst (λ k. (s.conns k).name ≡ conn_name decimal s.name s.ip_port j) (sym same_number)
                (v.named j u))
        | inr e ↦ rw e (v.named j u)
      ];
      fine = λ j u h.
          let (st, f) = v.fine j u h in
          (
            st,
            record {
              tasks_ok = λ l. rw h (f.tasks_ok l);
              state_ok = rw h f.state_ok;
              map_ok = rw h f.map_ok;
            },
          );
    }

-- So does a functor of it that is put into a queue,
pub queue_in_loop-Inv :
    {decimal : ℕ → List ℕ} {s : TcpServer} (l : ℕ) (t : Task)
    → in_use s (task_id t) ≡ true
    → Inv decimal s (task_id t)
    → Inv decimal (queue_in_loop s l t) (task_id t)
queue_in_loop-Inv {decimal} {s} l t w v =
    let kept : (j : ℕ)
        → (task_id t == j) ≡ false
        → (m : ℕ) → mine j ((queue_in_loop s l t).pending m) ≡ mine j (s.pending m) =
      λ j h m. elim (Bool-cases (l == m)) [
        | inl e ↦
            let same_loop : l ≡ m = ground (arith, e) in
            rw e (mine-snoc j (s.pending l) t ∙ rw h (ap (λ n. mine j (s.pending n)) same_loop))
        | inr e ↦ rw e refl
      ] in
    record {
      pool_ok = v.pool_ok;
      short = v.short;
      small = v.small;
      positive = v.positive;
      unused = λ j u m.
          kept j
            (elim (Bool-cases (task_id t == j)) [
              | inl e ↦ absurd (ground (arith, u, w, e))
              | inr e ↦ e
            ])
            m
          ∙ v.unused j u m;
      named = v.named;
      fine = λ j u h.
          let (st, f) = v.fine j u h in
          (
            st,
            record {
              tasks_ok = λ m. kept j h m ∙ f.tasks_ok m;
              state_ok = f.state_ok;
              map_ok = f.map_ok;
            },
          );
    }

-- and an entry of the map under its name.
pub map_to-Inv :
    {decimal : ℕ → List ℕ} {s : TcpServer} (i : ℕ) (o : Option ℕ)
    → IsDecimal decimal
    → in_use s i ≡ true
    → Inv decimal s i
    → Inv decimal (record s { connections = map_to s.connections (s.conns i).name o }) i
map_to-Inv {decimal} {s} i o d w v = record {
  pool_ok = v.pool_ok;
  short = v.short;
  small = v.small;
  positive = v.positive;
  unused = v.unused;
  named = v.named;
  fine = λ j u h.
      let (st, f) = v.fine j u h in
      (
        st,
        record {
          tasks_ok = f.tasks_ok;
          state_ok = f.state_ok;
          map_ok =
              map_to_other s.connections (s.conns i).name (s.conns j).name o
                (names_differ i j d v w u h)
              ∙ f.map_ok;
        },
      );
}
