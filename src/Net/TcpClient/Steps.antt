-- ===== src/Net/TcpClient/Steps.antt =====
-- net/TcpClient.cc in whatever order its calls, its connector and its connection come.
use slack.Base.{
  ℕ, ◌≡◌, ◌<◌, Bool, true, false, ◌&&◌, some, none, arith, refl, sym, ap, ◌∙◌, inl, inr, subst,
  Safe-some, Returns, Returns->>=, Returns-assert,
}
use slack.Net.Connector.{
  Connector, connected, Answer, start, start_in_loop, handle_error, reset_channel, retry,
}
use slack.Net.TcpConnection.{TcpConnection, is_open, handle_close}
use slack.Net.TcpConnection.State
use slack.Net.TcpServer.{update_at}
use slack.Net.TcpServer.Update.{eq_refl}
use slack.Net.TcpClient.{
  TcpClient, new_client, connect_client, disconnect, stop_client, connector_writes, is_current,
  again_if, remove_connection, close_connection, run_next,
}
use slack.Net.TcpClient.Invariant.{
  in_use, Inv, start_in_loop-connected, with_connector, connect_client-Inv, connector_writes-Inv,
  stop_client-Inv, errs-Inv, retries-Inv,
}
use slack.Net.TcpClient.Closing.{
  shut_current-Inv, removed, close_connection-Inv, change-Inv, run_first-Inv,
}

-- `works` is any call on a connection but the one that opens it, which `writes` makes.
pub data Step (c : TcpClient) : TcpClient → Type 0 where
  connects : {d : TcpClient} (fd : ℕ) (a : Answer) → connect_client c fd a ≡ some d → Step c d
  retries :
      {k : Connector} (fd : ℕ) (a : Answer)
      → start_in_loop c.connector fd a ≡ some k
      → Step c (record c { connector = k })
  disconnects : Step c (disconnect c)
  stops : Step c (stop_client c)
  resets : 0 < c.connector.resets → Step c (record c { connector = reset_channel c.connector })
  errs : {k : Connector} → handle_error c.connector ≡ some k → Step c (record c { connector = k })
  writes :
      {d : TcpClient} (failed self reading : Bool)
      → connector_writes c failed self reading ≡ some d
      → Step c d
  works :
      (i : ℕ) (d : TcpConnection)
      → in_use c i ≡ true
      → State.Step (c.conns i) d
      → (is_open d.state ≡ true → is_open (c.conns i).state ≡ true)
      → Step c (record c { conns = update_at c.conns i d })
  closes :
      {d : TcpClient} (i fd : ℕ) (a : Answer)
      → in_use c i ≡ true
      → is_open (c.conns i).state ≡ true
      → close_connection c i fd a ≡ some d
      → Step c d
  runs : {d : TcpClient} → run_next c ≡ some d → Step c d

pub data Steps (c : TcpClient) : TcpClient → Type 0 where
  done : Steps c c
  more : {d e : TcpClient} → Steps c d → Step d e → Steps c e

Step-Inv : {c d : TcpClient} → Step c d → Inv c → Inv d
unfolding disconnect reset_channel run_next
Step-Inv (connects fd a e) v = connect_client-Inv fd a e v
Step-Inv {c = c} (retries fd a e) v =
    Safe-some (λ k. Inv (record c { connector = k })) (retries-Inv c fd a v) e
Step-Inv {c = c} disconnects v =
    shut_current-Inv c.connection (record c { connect = false }) refl
      (record { alone = v.alone; only = v.only; positive = v.positive })
Step-Inv {c = c} stops v = stop_client-Inv c v
Step-Inv {c = c} (resets p) v = with_connector (reset_channel c.connector) v (λ h. h)
Step-Inv {c = c} (errs e) v = Safe-some (λ k. Inv (record c { connector = k })) (errs-Inv c v) e
Step-Inv {c = c} (writes failed self reading e) v =
    Safe-some Inv (connector_writes-Inv c failed self reading v) e
Step-Inv {c = c} (works i d u w p) v = change-Inv c i d c.pending p v
Step-Inv {c = c} (closes i fd a u o e) v = Safe-some Inv (close_connection-Inv c i fd a v u o) e
Step-Inv {c = c} (runs e) v = Safe-some Inv (run_first-Inv c c.pending v) e

new-Inv :
    (retry write_complete : Bool) (conns : ℕ → TcpConnection)
    → Inv (new_client retry write_complete conns)
new-Inv retry write_complete conns = record {
  alone = inl refl;
  only = λ i u o. absurd (ground (arith, u));
  positive = omega arith;
}

Steps-Inv :
    {retry write_complete : Bool} {conns : ℕ → TcpConnection} {c : TcpClient}
    → Steps (new_client retry write_complete conns) c
    → Inv c
Steps-Inv {retry} {write_complete} {conns} done = new-Inv retry write_complete conns
Steps-Inv (more s t) = Step-Inv t (Steps-Inv s)

-- However the calls of a new client, its connector and its connection follow each other, and whatever the system calls answer: an open
-- connection is the current one, so that no two are open at once.
pub Steps-connection :
    (retry write_complete : Bool) (conns : ℕ → TcpConnection) (c : TcpClient) (i : ℕ)
    → Steps (new_client retry write_complete conns) c
    → in_use c i ≡ true
    → is_open (c.conns i).state ≡ true
    → (c.connection ≡ some i) × (c.connector.state ≡ connected)
Steps-connection retry write_complete conns c i s u o =
    let v = Steps-Inv s in
    let there = v.only i u o in
    (
      there,
      elim v.alone [ inl n ↦ let no : none ≡ some i = sym n ∙ there in absurd (cc) | inr e ↦ e ],
    )

-- However these steps follow each other: where an open connection closes and no retry is wanted, the assertion of `removeConnection` holds and the client has no connection
-- any more; but the connector stays in kConnected, so that a `connect` after that fails the assertion of `startInLoop`.
pub close_connection-connect_client :
    (retry write_complete : Bool) (conns : ℕ → TcpConnection) (c : TcpClient) (i fd fd' : ℕ)
    (a a' : Answer)
    → Steps (new_client retry write_complete conns) c
    → in_use c i ≡ true
    → is_open (c.conns i).state ≡ true
    → (c.retry && c.connect) ≡ false
    → Returns
        (close_connection c i fd a)
        (λ d. (d.connection ≡ none) × (connect_client d fd' a' ≡ none))
unfolding close_connection remove_connection handle_close connect_client start
close_connection-connect_client retry write_complete conns c i fd fd' a a' s u o w =
    let (there, e) = Steps-connection retry write_complete conns c i s u o in
    Returns->>= (handle_close (c.conns i)) (λ d. Unit {0}) _ _ (Returns-assert _ _ o tt)
      (λ d t. Returns-assert _ _ (ap (λ p. is_current p i) there ∙ eq_refl i) (
        subst
          (λ b.
            Returns (again_if b (removed c i d) fd a)
              (λ d. (d.connection ≡ none) × (connect_client d fd' a' ≡ none)))
          (sym w)
          (
            refl,
            rw (start_in_loop-connected (record c.connector { connect = true }) fd' a' e) refl,
          )))
