-- ===== src/Net/TcpConnection/Close.antt =====
-- The closing of a connection in net/TcpConnection.cc: `shutdown` while bytes still wait.
use slack.Base.{
  take-nil, ℕ, ◌+◌, ◌≡◌, List, [], ◌∷◌, ◌++◌, take, Bool, true, false, not, ◌&&◌, ◌||◌, Option,
  some, ◌>>=◌, drop, length, length-drop, arith, refl, ap, sym, ◌∙◌, inl, inr, Bool-cases, Returns,
  Returns->>=, append-nil, drop-nil, subst,
}
use slack.Net.Channel.{is_writing}
use slack.Net.TcpConnection.{
  TcpConnection, Effect, connected, disconnecting, took, shut_write, is_disconnected,
  is_disconnecting, is_connected, run_shutdown, shutdown, handle_write,
}
use slack.Net.TcpConnection.Stream.{
  sent, sent-append, is_cons, is_cons-false, waiting, stream, IsSound,
}
use slack.Net.TcpConnection.Flush.{
  is_shut, is_shut-append, before_shut, before_shut-unshut, before_shut-shut, Adds, Flushed,
  handle_write_lem,
}

-- The socket becomes writable again and again; the list is what each `write` takes.
unfoldable pub flush : TcpConnection → List ℕ → Option TcpConnection
flush c [] = some c
flush c (n ∷ ns) = handle_write c (took n) >>= λ d. flush d ns

abbrev pub sum : List ℕ → ℕ
sum [] = 0
sum (n ∷ ns) = n + sum ns

-- Everything was written before the write side was shut, nothing since, and writing is no longer watched for.
pub record IsClosed (bytes : List ℕ) (d : TcpConnection) : Type 0 where
  pub sent_eq : sent d.effects ≡ bytes
  pub before_eq : before_shut d.effects ≡ bytes
  pub shut_eq : is_shut d.effects ≡ true
  pub writing_eq : is_writing d.channel ≡ false

no_length : (q : List ℕ) → length q ≡ 0 → is_cons q ≡ false
no_length [] e = refl
no_length (b ∷ q) e = ground arith

and_none : (a : Bool) → (a && false) ≡ false
and_none a = ground arith

is_up : is_disconnected disconnecting ≡ false
unfolding is_disconnected
is_up = refl

-- A connection that `shutdown` has left: the write side is shut if nothing waits, and nothing was written after that.
record IsClosing (c : TcpConnection) : Type 0 where
  sound : IsSound c
  state_eq : c.state ≡ disconnecting
  shut_eq : is_shut c.effects ≡ not (is_cons (waiting c))
  order_eq : before_shut c.effects ≡ sent c.effects

still_shut :
    (n : ℕ) (w : List ℕ)
    → (not (is_cons w) || (true && (is_cons w && not (is_cons (drop n w)))))
      ≡ not (is_cons (drop n w))
still_shut n [] = rw (drop-nil n) refl
still_shut n (b ∷ w) = refl

Adds-order :
    {c d : TcpConnection} (n : ℕ)
    → is_shut c.effects ≡ not (is_cons (waiting c))
    → before_shut c.effects ≡ sent c.effects
    → Adds c (take n (waiting c)) d
    → before_shut d.effects ≡ sent d.effects
Adds-order {c} {d} n s o a =
    let sent_all : sent d.effects ≡ sent c.effects ++ take n (waiting c) =
      ap sent a.effects_eq
      ∙ sent-append c.effects a.added
      ∙ ap (λ l. sent c.effects ++ l) a.sent_eq in
    elim (Bool-cases (is_shut c.effects)) [
      | inl e ↦
          let none_wait : is_cons (waiting c) ≡ false = ground (arith, s, e) in
          let nothing : take n (waiting c) ≡ [] =
            rw (is_cons-false (waiting c) none_wait) (take-nil n) in
          ap before_shut a.effects_eq
          ∙ before_shut-shut c.effects a.added e
          ∙ o
          ∙ sym (sent_all ∙ ap (λ l. sent c.effects ++ l) nothing ∙ append-nil (sent c.effects))
      | inr e ↦
          ap before_shut a.effects_eq
          ∙ before_shut-unshut c.effects a.added e
          ∙ ap (λ l. sent c.effects ++ l) a.before_eq
          ∙ sym sent_all
    ]

handle_write-IsClosing : {c d : TcpConnection} (n : ℕ) → IsClosing c → Flushed c n d → IsClosing d
unfolding is_disconnecting
handle_write-IsClosing {c} n i f = record {
  sound = f.moves.sound;
  state_eq = f.moves.state_eq ∙ i.state_eq;
  shut_eq = f.shut_eq ∙ rw (i.shut_eq, i.state_eq, f.waiting_eq) (still_shut n (waiting c));
  order_eq = Adds-order n i.shut_eq i.order_eq f.adds;
}

closed_lem : (c : TcpConnection) → IsClosing c → length (waiting c) ≡ 0 → IsClosed (stream c) c
closed_lem c i z = record {
  sent_eq = rw (is_cons-false (waiting c) e) (sym (append-nil (sent c.effects)));
  before_eq = i.order_eq ∙ rw (is_cons-false (waiting c) e) (sym (append-nil (sent c.effects)));
  shut_eq = i.shut_eq ∙ ap not e;
  writing_eq = i.sound.watched ∙ ap (λ b. not (is_disconnected c.state) && b) e ∙ and_none _;
}
  where
    e : is_cons (waiting c) ≡ false
    e = no_length (waiting c) z

flush_lem :
    (c : TcpConnection) (ns : List ℕ)
    → IsClosing c
    → sum ns ≡ length (waiting c)
    → Returns (flush c ns) (IsClosed (stream c))
unfolding flush
flush_lem c [] i s = closed_lem c i (sym s)
flush_lem c (n ∷ ns) i s =
    Returns->>= (handle_write c (took n)) _ _ _
      (handle_write_lem i.sound (rw i.state_eq is_up) n (omega arith))
      λ d f.
        let all : stream d ≡ stream c = f.moves.stream_eq ∙ append-nil (stream c) in
        let left : sum ns ≡ length (waiting d) =
          rw (f.waiting_eq, length-drop n (waiting c)) (omega arith) in
        subst (λ l. Returns (flush d ns) (IsClosed l)) all
          (flush_lem d ns (handle_write-IsClosing n i f) left)

-- What `shutdown` leaves behind.
record ShutDown (c d : TcpConnection) : Type 0 where
  closing : IsClosing d
  stream_eq : stream d ≡ stream c
  waiting_eq : waiting d ≡ waiting c

unshut_order : (es : List Effect) → is_shut es ≡ false → before_shut es ≡ sent es
unshut_order es n =
    ap before_shut (sym (append-nil es)) ∙ before_shut-unshut es [] n ∙ append-nil (sent es)

shut_lem :
    (c : TcpConnection)
    → IsSound c
    → c.state ≡ connected
    → is_shut c.effects ≡ false
    → ShutDown c (shutdown c true)
unfolding shutdown run_shutdown is_connected is_disconnected
shut_lem c v e n = elim (Bool-cases (is_cons (waiting c))) [
  | inl w ↦
      rw (e, v.watched, e, w)
        (record {
          closing = record {
            sound = record { valid = v.valid; mask = v.mask; watched = rw (v.watched, e) refl };
            state_eq = refl;
            shut_eq = rw (n, w) refl;
            order_eq = unshut_order c.effects n;
          };
          stream_eq = refl;
          waiting_eq = refl;
        })
  | inr w ↦
      rw (e, v.watched, e, w)
        (record {
          closing = record {
            sound = record { valid = v.valid; mask = v.mask; watched = rw (v.watched, e) refl };
            state_eq = refl;
            shut_eq = rw (is_shut-append c.effects (shut_write ∷ []), n, w) refl;
            order_eq =
                before_shut-unshut c.effects (shut_write ∷ []) n
                ∙ sym (sent-append c.effects (shut_write ∷ []));
          };
          stream_eq =
              rw (sent-append c.effects (shut_write ∷ []), append-nil (sent c.effects)) refl;
          waiting_eq = refl;
        })
]

-- A connection whose owner calls `shutdown` in its loop's thread, its output buffer still holding
-- bytes or not, and whose socket then becomes writable until `write` has taken all that waited: no
-- assertion fails, everything sent before is written in order before the write side is shut, it is shut,
-- nothing is written after that, and writing is no longer watched for.
pub flush-shutdown :
    (c : TcpConnection) (ns : List ℕ)
    → IsSound c
    → c.state ≡ connected
    → is_shut c.effects ≡ false
    → sum ns ≡ length (waiting c)
    → Returns (flush (shutdown c true) ns) (IsClosed (stream c))
flush-shutdown c ns v e n s =
    let d = shut_lem c v e n in
    subst (λ l. Returns (flush (shutdown c true) ns) (IsClosed l)) d.stream_eq
      (flush_lem (shutdown c true) ns d.closing (s ∙ ap length (sym d.waiting_eq)))
