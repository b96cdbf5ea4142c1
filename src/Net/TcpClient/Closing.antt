-- ===== src/Net/TcpClient/Closing.antt =====
-- net/TcpClient.cc: a connection is shut down, closes, and is destroyed.
use slack.Base.{
  ℕ, ◌≡◌, List, [], ◌∷◌, ◌++◌, Bool, true, false, ◌&&◌, Option, some, none, if◌then◌else◌, ◌==◌,
  assert, arith, refl, sym, ap, ◌∙◌, Bool-cases, inl, inr, subst, Safe, Safe->>=, Safe-bind,
}
use slack.Net.Channel
use slack.Net.Channel.{is_none_event}
use slack.Net.Connector.{Connector, Answer, restart}
use slack.Net.TcpConnection.{
  TcpConnection, StateE, disconnected, is_open, is_connected, connect_destroyed, handle_close,
  shutdown,
}
use slack.Net.TcpServer.{update_at}
use slack.Net.TcpClient.{
  TcpClient, shut_current, is_current, again_if, remove_connection, close_connection, run_first,
  ClientTask, destroy_connection, stop_connector,
}
use slack.Net.TcpClient.Invariant.{in_use, Inv, stopped-Inv}

connected_open : (x : StateE) → is_connected x ≡ true → is_open x ≡ true
unfolding is_connected is_open
connected_open x h = ground (arith, h)

shutdown-is_open :
    (c : TcpConnection) → is_open (shutdown c true).state ≡ true → is_open c.state ≡ true
unfolding shutdown
shutdown-is_open c h = elim (Bool-cases (is_connected c.state)) [
  | inl e ↦ connected_open c.state e
  | inr e ↦ let kept : shutdown c true ≡ c = rw e refl in subst (λ d. is_open d.state ≡ true) kept h
]

pub shut_current-Inv :
    (o : Option ℕ) (c : TcpClient) → c.connection ≡ o → Inv c → Inv (shut_current o c)
shut_current-Inv none c e i = i
shut_current-Inv (some j) c e i = record {
  alone = i.alone;
  only = λ k u o. elim (Bool-cases (j == k)) [
    | inl h ↦ let same_number : j ≡ k = ground (arith, h) in e ∙ ap some same_number
    | inr h ↦
        i.only k u (
          subst (λ b. is_open (if b then shutdown (c.conns j) true else c.conns k).state ≡ true) h
            o)
  ];
  positive = i.positive;
}

handle_close-closed : (c : TcpConnection) → Safe (handle_close c) (λ d. d.state ≡ disconnected)
unfolding handle_close
handle_close-closed c = Safe->>= (assert (is_open c.state)) _ _ λ u. refl

-- No connection is open once the current one is removed.
abbrev pub removed : TcpClient → ℕ → TcpConnection → TcpClient
removed c i d = record c {
  conns = update_at c.conns i d;
  connection = none;
  pending = c.pending ++ (destroy_connection i ∷ []);
}

removed-Inv :
    (c : TcpClient) (i : ℕ) (d : TcpConnection) (k : Connector)
    → Inv c
    → in_use c i ≡ true
    → is_open (c.conns i).state ≡ true
    → d.state ≡ disconnected
    → Inv (record (removed c i d) { connector = k })
unfolding is_open
removed-Inv c i d k v u o e = record {
  alone = inl refl;
  only = λ j w p. elim (Bool-cases (i == j)) [
    | inl h ↦
        let off : is_open d.state ≡ true =
          subst (λ b. is_open (if b then d else c.conns j).state ≡ true) h p in
        let no : false ≡ true = sym (ap is_open e) ∙ off in absurd (cc)
    | inr h ↦
        let other : is_open (c.conns j).state ≡ true =
          subst (λ b. is_open (if b then d else c.conns j).state ≡ true) h p in
        let both : some i ≡ some j = sym (v.only i u o) ∙ v.only j w other in
        let same_number : i ≡ j = cc in absurd (ground (arith, same_number, h))
  ];
  positive = v.positive;
}

again_if-Inv :
    (b : Bool) (c : TcpClient) (i : ℕ) (d : TcpConnection) (fd : ℕ) (a : Answer)
    → ((k : Connector) → Inv (record (removed c i d) { connector = k }))
    → Safe (again_if b (removed c i d) fd a) Inv
again_if-Inv true c i d fd a f = Safe->>= (restart c.connector fd a) _ _ λ k. f k
again_if-Inv false c i d fd a f = f c.connector

pub close_connection-Inv :
    (c : TcpClient) (i fd : ℕ) (a : Answer)
    → Inv c
    → in_use c i ≡ true
    → is_open (c.conns i).state ≡ true
    → Safe (close_connection c i fd a) Inv
unfolding close_connection remove_connection
close_connection-Inv c i fd a v u o =
    Safe-bind (handle_close (c.conns i)) _ _ _ (handle_close-closed (c.conns i)) (λ d e.
      Safe->>= (assert (is_current c.connection i)) _ _
        λ w. again_if-Inv (c.retry && c.connect) c i d fd a (λ k. removed-Inv c i d k v u o e))

destroyed-is_open :
    (c : TcpConnection)
    → Safe (connect_destroyed c) (λ d. is_open d.state ≡ true → is_open c.state ≡ true)
unfolding connect_destroyed
destroyed-is_open c = elim (Bool-cases (is_connected c.state)) [
  | inl e ↦ rw e (
      Safe->>= (Channel.remove (Channel.disable_all c.channel)) _ _
        λ ch p. connected_open c.state e)
  | inr e ↦ rw e (Safe->>= (Channel.remove c.channel) _ _ λ ch p. p)
]

-- A change of one connection that opens nothing.
pub change-Inv :
    (c : TcpClient) (i : ℕ) (d : TcpConnection) (pending : List ClientTask)
    → (is_open d.state ≡ true → is_open (c.conns i).state ≡ true)
    → Inv c
    → Inv (record c { pending = pending; conns = update_at c.conns i d })
change-Inv c i d pending f v = record {
  alone = v.alone;
  only = λ j u o. elim (Bool-cases (i == j)) [
    | inl h ↦
        let same_number : i ≡ j = ground (arith, h) in
        v.only j u (
          subst (λ n. is_open (c.conns n).state ≡ true) same_number
            (f (subst (λ b. is_open (if b then d else c.conns j).state ≡ true) h o)))
    | inr h ↦ v.only j u (subst (λ b. is_open (if b then d else c.conns j).state ≡ true) h o)
  ];
  positive = v.positive;
}

pub run_first-Inv : (c : TcpClient) (ts : List ClientTask) → Inv c → Safe (run_first c ts) Inv
run_first-Inv c [] v = v
run_first-Inv c (destroy_connection i ∷ ts) v =
    Safe-bind (connect_destroyed (c.conns i)) _ _ _ (destroyed-is_open (c.conns i))
      (λ d f. change-Inv c i d ts f v)
run_first-Inv c (stop_connector ∷ ts) v = stopped-Inv c ts v
