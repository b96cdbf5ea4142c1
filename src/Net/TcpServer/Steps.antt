-- ===== src/Net/TcpServer/Steps.antt =====
-- net/TcpServer.cc under every interleaving of its loops: new connections, functors, and connections that
-- work and close.
use slack.Base.{
  ℕ, ◌+◌, ◌^◌, ◌≤◌, ◌<◌, ◌≡◌, ◌≢◌, List, [], ◌∷◌, Bool, true, false, Option, some, none, ◌==◌, ltb,
  length, arith, refl, sym, ap, ◌∙◌, Bool-cases, inl, inr, ◌⊎◌, subst, Returns, Safe, Safe-some,
  Safe->>=, assert,
}
use slack.Net.EventLoopThreadPool.{get_next_loop}
use slack.Net.TcpConnection.{TcpConnection, StateE, connecting, disconnected, is_open}
use slack.Net.TcpConnection.State
use slack.Net.Channel.{is_none_event}
use slack.Net.TcpServer.{
  Task, establish, remove, destroy, TcpServer, set_connection, run_next, close_connection,
  new_connection,
}
use slack.Net.TcpServer.Update.{mine, eq_refl, IsDecimal}
use slack.Net.TcpServer.Invariant.{
  Stage, opening, live, closing, closed, dead, waiting, if_there, Fits, Fine, in_use, IsPool, Inv,
  release, hold, set_connection-Inv,
}
use slack.Net.TcpServer.Functors.{close_connection_lem}
use slack.Net.TcpServer.Queues.{run_next_lem}
use slack.Net.TcpServer.Accept.{new_connection_lem}

-- A call on a connection leaves it open or connecting, if it was, or it finds it disconnected and leaves
-- its channel alone. Of the calls of TcpConnection.cc, startRead and stopRead may change the channel of a
-- connection that is disconnected.
pub data KeepsStage (c d : TcpConnection) : Type 0 where
  stays_open : is_open c.state ≡ true → is_open d.state ≡ true → KeepsStage c d
  stays_connecting : c.state ≡ connecting → d.state ≡ connecting → KeepsStage c d
  stays_closed :
      c.state ≡ disconnected → d.state ≡ disconnected → d.channel ≡ c.channel → KeepsStage c d

-- `works` is any such call, and `closes` one that closes an open connection.
pub data Step (decimal : ℕ → List ℕ) (s : TcpServer) : TcpServer → Type 0 where
  accepts :
      {t : TcpServer} (fd : ℕ) (reading : Bool)
      → new_connection decimal s s.base_loop fd reading ≡ some t
      → Step decimal s t
  runs : {t : TcpServer} (l : ℕ) → run_next s l ≡ some t → Step decimal s t
  works :
      (i : ℕ) (c : TcpConnection)
      → in_use s i ≡ true
      → State.Step (s.conns i).connection c
      → KeepsStage (s.conns i).connection c
      → Step decimal s (set_connection s i c)
  closes :
      {t : TcpServer} (i : ℕ)
      → in_use s i ≡ true
      → is_open (s.conns i).connection.state ≡ true
      → close_connection s (s.conns i).loop i ≡ some t
      → Step decimal s t

pub data Steps (decimal : ℕ → List ℕ) (s : TcpServer) : TcpServer → Type 0 where
  done : Steps decimal s s
  more : {t u : TcpServer} → Steps decimal s t → Step decimal t u → Steps decimal s u

-- An open connection is in the stage for it.
not_open : {x : StateE} (e : StateE) → is_open e ≡ false → x ≡ e → is_open x ≡ true → ⊥
not_open e h k o = let off : false ≡ true = sym h ∙ (ap is_open (sym k) ∙ o) in cc

open_stage :
    {s : TcpServer} {i : ℕ} (st : Stage)
    → is_open (s.conns i).connection.state ≡ true
    → Fine true s i st
    → Fine true s i live
unfolding is_open
open_stage opening o f = absurd (not_open connecting refl f.state_ok o)
open_stage live o f = f
open_stage closing o f = absurd (not_open disconnected refl f.state_ok.0 o)
open_stage closed o f = absurd (not_open disconnected refl f.state_ok.0 o)
open_stage dead o f = absurd (not_open disconnected refl f.state_ok.0 o)

open_Fine :
    {decimal : ℕ → List ℕ} {s : TcpServer} (i : ℕ)
    → Inv decimal s 0
    → in_use s i ≡ true
    → is_open (s.conns i).connection.state ≡ true
    → Fine false s i live
open_Fine {s = s} i v u o =
    let (st, f) = v.fine i u (ground (arith, u)) in
    let g = open_stage {s = s} {i = i} st o f in
    record { tasks_ok = g.tasks_ok; state_ok = g.state_ok; map_ok = g.map_ok }

close_lem :
    {decimal : ℕ → List ℕ} (d : IsDecimal decimal) (s : TcpServer) (i : ℕ)
    → Inv decimal s 0
    → in_use s i ≡ true
    → is_open (s.conns i).connection.state ≡ true
    → Returns (close_connection s (s.conns i).loop i) (λ t. Inv decimal t 0)
close_lem d s i v u o = close_connection_lem d s i u (hold i v) (open_Fine i v u o)

stay_Fits : {c d : TcpConnection} (st : Stage) → KeepsStage c d → Fits st c → Fits st d
unfolding is_open
stay_Fits opening (stays_open o p) f = absurd (not_open connecting refl f o)
stay_Fits opening (stays_connecting e p) f = p
stay_Fits opening (stays_closed e p q) f = let clash : connecting ≡ disconnected = sym f ∙ e in cc
stay_Fits live (stays_open o p) f = p
stay_Fits live (stays_connecting e p) f = absurd (not_open connecting refl e f)
stay_Fits live (stays_closed e p q) f = absurd (not_open disconnected refl e f)
stay_Fits closing (stays_open o p) f = absurd (not_open disconnected refl f.0 o)
stay_Fits closing (stays_connecting e p) f =
    let clash : connecting ≡ disconnected = sym e ∙ f.0 in cc
stay_Fits closing (stays_closed e p q) f = (p, ap is_none_event q ∙ f.1)
stay_Fits closed (stays_open o p) f = absurd (not_open disconnected refl f.0 o)
stay_Fits closed (stays_connecting e p) f =
    let clash : connecting ≡ disconnected = sym e ∙ f.0 in cc
stay_Fits closed (stays_closed e p q) f = (p, ap is_none_event q ∙ f.1)
stay_Fits dead (stays_open o p) f = absurd (not_open disconnected refl f.0 o)
stay_Fits dead (stays_connecting e p) f = let clash : connecting ≡ disconnected = sym e ∙ f.0 in cc
stay_Fits dead (stays_closed e p q) f = (p, ap (λ ch. ch.added_to_loop) q ∙ f.1)

works-Inv :
    {decimal : ℕ → List ℕ} (s : TcpServer) (i : ℕ) (c : TcpConnection)
    → Inv decimal s 0
    → in_use s i ≡ true
    → KeepsStage (s.conns i).connection c
    → Inv decimal (set_connection s i c) 0
works-Inv s i c v u k =
    let (st, f) = v.fine i u (ground (arith, u)) in
    release i st (set_connection-Inv i c (hold i v)) (record {
      tasks_ok = λ l. rw (eq_refl i) (f.tasks_ok l);
      state_ok = rw (eq_refl i) (stay_Fits st k f.state_ok);
      map_ok = rw (eq_refl i) f.map_ok;
    })

Returns-to-Safe : (o : Option TcpServer) (P : TcpServer → Type 0) → Returns o P → Safe o P
Returns-to-Safe none P h = tt
Returns-to-Safe (some t) P h = h

-- Beyond the range of the counter there is no result.
accept_lem :
    {decimal : ℕ → List ℕ} (d : IsDecimal decimal) (s : TcpServer) (fd : ℕ) (reading : Bool)
    → Inv decimal s 0
    → Safe (new_connection decimal s s.base_loop fd reading) (λ t. Inv decimal t 0)
unfolding new_connection
accept_lem {decimal} d s fd reading v = elim (Bool-cases (ltb (s.next_conn_id + 1) (2 ^ 31))) [
  | inl e ↦
      Returns-to-Safe (new_connection decimal s s.base_loop fd reading) (λ t. Inv decimal t 0)
        (new_connection_lem d s v (ground (arith, e)) fd reading)
  | inr e ↦
      Safe->>= (assert (s.base_loop == s.base_loop)) _ _
        λ u. Safe->>= (get_next_loop s.pool) _ _ λ r. rw e tt
]

returned :
    {decimal : ℕ → List ℕ} {o : Option TcpServer} {t : TcpServer}
    → o ≡ some t
    → Returns o (λ t. Inv decimal t 0)
    → Inv decimal t 0
returned {decimal} e r = subst (λ o. Returns o (λ t. Inv decimal t 0)) e r

Step-Inv :
    {decimal : ℕ → List ℕ} {s t : TcpServer}
    → IsDecimal decimal
    → Step decimal s t
    → Inv decimal s 0
    → Inv decimal t 0
Step-Inv {s = s} d (accepts fd reading e) v =
    Safe-some (λ t. Inv _ t 0) (accept_lem d s fd reading v) e
Step-Inv {s = s} d (runs l e) v = returned e (run_next_lem d s l v)
Step-Inv {s = s} d (works i c u w k) v = works-Inv s i c v u k
Step-Inv {s = s} d (closes i u o e) v = returned e (close_lem d s i v u o)

-- A server of a pool that is ready, at an address of an ordinary length.
abbrev pub IsNew : TcpServer → Type 0
IsNew s =
    IsPool s.pool × (length s.ip_port ≤ 50) × (s.next_conn_id ≡ 1) × ((l : ℕ) → s.pending l ≡ [])

new-Inv : {decimal : ℕ → List ℕ} {s : TcpServer} → IsNew s → Inv decimal s 0
new-Inv {s = s} (p, h, n, e) = record {
  pool_ok = p;
  short = h;
  small = omega arith;
  positive = omega arith;
  unused = λ i u l. ap (mine i) (e l);
  named = λ i u. absurd (ground (arith, n, u));
  fine = λ i u k. absurd (ground (arith, n, u));
}

Steps-Inv :
    {decimal : ℕ → List ℕ} {s t : TcpServer}
    → IsDecimal decimal
    → IsNew s
    → Steps decimal s t
    → Inv decimal t 0
Steps-Inv d n done = new-Inv n
Steps-Inv d n (more st x) = Step-Inv d x (Steps-Inv d n st)

returns-Step :
    {decimal : ℕ → List ℕ} {s : TcpServer} (o : Option TcpServer)
    → ((t : TcpServer) → o ≡ some t → Step decimal s t)
    → Returns o (λ t. Inv decimal t 0)
    → Returns o (Step decimal s)
returns-Step none f r = r
returns-Step (some t) f r = f t refl

-- However new connections, the functors of the loops, and the connections' own calls and closes follow each
-- other, from a new server on, without a startRead or stopRead that changes the channel of a disconnected
-- connection: the next functor of any loop returns. So the assertions of connectEstablished, of
-- removeConnectionInLoop and of connectDestroyed hold, and each functor is called in the loop that it
-- asserts to be in.
pub Steps-run_next :
    (decimal : ℕ → List ℕ) (d : IsDecimal decimal) (new s : TcpServer) (l : ℕ)
    → IsNew new
    → Steps decimal new s
    → Returns (run_next s l) (Step decimal s)
Steps-run_next decimal d new s l n st =
    returns-Step (run_next s l) (λ t e. runs l e) (run_next_lem d s l (Steps-Inv d n st))

-- However these steps follow each other, without such a startRead or stopRead, and while the number of the
-- next connection is in the range of an `int`, newConnection returns, with all that it calls in its own
-- loop.
pub Steps-new_connection :
    (decimal : ℕ → List ℕ) (d : IsDecimal decimal) (new s : TcpServer) (fd : ℕ) (reading : Bool)
    → IsNew new
    → Steps decimal new s
    → s.next_conn_id + 1 < 2147483648
    → Returns (new_connection decimal s s.base_loop fd reading) (Step decimal s)
Steps-new_connection decimal d new s fd reading n st room =
    returns-Step (new_connection decimal s s.base_loop fd reading) (λ t e. accepts fd reading e)
      (new_connection_lem d s (Steps-Inv d n st) room fd reading)

-- However these steps follow each other, without such a startRead or stopRead, handleClose of an open
-- connection returns in its loop, with the close callback and all that this calls in that loop.
pub Steps-close_connection :
    (decimal : ℕ → List ℕ) (d : IsDecimal decimal) (new s : TcpServer) (i : ℕ)
    → IsNew new
    → Steps decimal new s
    → in_use s i ≡ true
    → is_open (s.conns i).connection.state ≡ true
    → Returns (close_connection s (s.conns i).loop i) (Step decimal s)
Steps-close_connection decimal d new s i n st u o =
    returns-Step (close_connection s (s.conns i).loop i) (λ t e. closes i u o e)
      (close_lem d s i (Steps-Inv d n st) u o)

in_map :
    {s : TcpServer} {i : ℕ} (st : Stage)
    → Fine true s i st
    → (s.connections (s.conns i).name ≡ some i)
      ⊎ (s.connections (s.conns i).name ≡ none) × ((s.conns i).connection.state ≡ disconnected)
in_map opening f = inl f.map_ok
in_map live f = inl f.map_ok
in_map closing f = inl f.map_ok
in_map closed f = inr (f.map_ok, f.state_ok.0)
in_map dead f = inr (f.map_ok, f.state_ok.0)

-- The functor of a connection waits somewhere.
somewhere : (l : ℕ) (t : Task) → [] ≢ if_there (some (l, t)) l
somewhere l t e =
    let there : if_there (some (l, t)) l ≡ t ∷ [] = rw (eq_refl l) refl in
    let nothing : [] ≡ t ∷ [] = e ∙ there in cc

settled :
    {s : TcpServer} {i : ℕ} (st : Stage)
    → ((l : ℕ) → [] ≡ waiting true st i (s.conns i).loop s.base_loop l)
    → Fine true s i st
    → (is_open (s.conns i).connection.state ≡ true) × (s.connections (s.conns i).name ≡ some i)
      ⊎ ((s.conns i).connection.state ≡ disconnected)
        × (s.connections (s.conns i).name ≡ none)
        × ((s.conns i).connection.channel.added_to_loop ≡ false)
settled {s = s} {i = i} opening q f =
    absurd (somewhere (s.conns i).loop (establish i) (q (s.conns i).loop))
settled live q f = inl (f.state_ok, f.map_ok)
settled {s = s} {i = i} closing q f = absurd (somewhere s.base_loop (remove i) (q s.base_loop))
settled {s = s} {i = i} closed q f =
    absurd (somewhere (s.conns i).loop (destroy i) (q (s.conns i).loop))
settled dead q f = inr (f.state_ok.0, f.map_ok, f.state_ok.1)

-- However these steps follow each other, without such a startRead or stopRead: a connection is in the map
-- under its own name, or it is disconnected.
pub Steps-connections :
    (decimal : ℕ → List ℕ) (d : IsDecimal decimal) (new s : TcpServer) (i : ℕ)
    → IsNew new
    → Steps decimal new s
    → in_use s i ≡ true
    → (s.connections (s.conns i).name ≡ some i)
      ⊎ (s.connections (s.conns i).name ≡ none) × ((s.conns i).connection.state ≡ disconnected)
Steps-connections decimal d new s i n st u =
    let (stage, f) = (Steps-Inv d n st).fine i u (ground (arith, u)) in in_map stage f

-- After such steps, when all queues are empty, each connection that was ever accepted is open and in the
-- map, or it is disconnected, out of the map, and its channel has left its loop.
pub Steps-settled :
    (decimal : ℕ → List ℕ) (d : IsDecimal decimal) (new s : TcpServer) (i : ℕ)
    → IsNew new
    → Steps decimal new s
    → ((l : ℕ) → s.pending l ≡ [])
    → in_use s i ≡ true
    → (is_open (s.conns i).connection.state ≡ true) × (s.connections (s.conns i).name ≡ some i)
      ⊎ ((s.conns i).connection.state ≡ disconnected)
        × (s.connections (s.conns i).name ≡ none)
        × ((s.conns i).connection.channel.added_to_loop ≡ false)
Steps-settled decimal d new s i n st q u =
    let (stage, f) = (Steps-Inv d n st).fine i u (ground (arith, u)) in
    settled stage (λ l. ap (mine i) (sym (q l)) ∙ f.tasks_ok l) f
