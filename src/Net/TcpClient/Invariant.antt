-- ===== src/Net/TcpClient/Invariant.antt =====
-- What every step of net/TcpClient.cc preserves, and the steps of its connector.
use slack.Base.{
  ℕ, ◌<◌, ◌≡◌, List, [], ◌∷◌, ◌++◌, Bool, true, false, ◌&&◌, Option, some, none, if◌then◌else◌,
  ◌==◌, ltb, ◌>>=◌, arith, refl, sym, ap, ◌∙◌, Bool-cases, inl, inr, ◌⊎◌, subst, Safe, Safe->>=,
  Safe-bind, Safe-some,
}
use slack.Net.Connector.{
  Connector, ConnectState, idle, connecting, connected, ConnectEffect, closed, start_after, Answer,
  start, start_in_loop, stop_in_loop, stop_in, handle_write, write_in, handle_error, error_in,
  is_idle, retry, established, remove_and_reset_channel,
}
use slack.Net.TcpConnection.{is_open, connect_established}
use slack.Net.TcpServer.{new_connection_on}
use slack.Net.TcpClient.{
  TcpClient, ClientTask, connect_client, stop_client, new_connection, handed_by, last_handed,
  take_over, was_connecting, connector_writes,
}

abbrev pub in_use : TcpClient → ℕ → Bool
in_use c i = ltb 0 i && ltb i c.next_conn_id

-- A connection is there only while the connector is in kConnected, and no other one is open.
pub record Inv (c : TcpClient) : Type 0 where
  pub alone : (c.connection ≡ none) ⊎ (c.connector.state ≡ connected)
  pub only : (i : ℕ) → in_use c i ≡ true → is_open (c.conns i).state ≡ true → c.connection ≡ some i
  pub positive : 0 < c.next_conn_id

-- A connector that is connected stays so in all calls but `restart`.
pub start_in_loop-connected :
    (k : Connector) (fd : ℕ) (a : Answer) → k.state ≡ connected → start_in_loop k fd a ≡ none
unfolding start_in_loop is_idle
start_in_loop-connected k fd a e = rw e refl

stop_in_loop-connected : (k : Connector) → k.state ≡ connected → stop_in_loop k ≡ some k
unfolding stop_in_loop stop_in
stop_in_loop-connected k e = ap (λ s. stop_in s k) e

handle_error-connected : (k : Connector) → k.state ≡ connected → handle_error k ≡ some k
unfolding handle_error error_in
handle_error-connected k e = ap (λ s. error_in s k) e

-- A new connector for a client without a connection, or one that is still connected.
pub with_connector :
    {c : TcpClient} (k : Connector)
    → Inv c
    → (c.connector.state ≡ connected → k.state ≡ connected)
    → Inv (record c { connector = k })
with_connector k i f = record {
  alone = elim i.alone [ inl e ↦ inl e | inr e ↦ inr (f e) ];
  only = i.only;
  positive = i.positive;
}

pub connect_client-Inv :
    {c d : TcpClient} (fd : ℕ) (a : Answer) → connect_client c fd a ≡ some d → Inv c → Inv d
unfolding connect_client start
connect_client-Inv {c} {d} fd a e i = elim i.alone [
  | inl n ↦
      Safe-some Inv
        (Safe->>= (start c.connector fd a) _ _
          λ k. record { alone = inl n; only = i.only; positive = i.positive })
        e
  | inr n ↦
      let fails : connect_client c fd a ≡ none =
        rw (start_in_loop-connected (record c.connector { connect = true }) fd a n) refl in
      absurd (cc)
]

last_handed-snoc :
    (es : List ConnectEffect) (e : ConnectEffect) → last_handed (es ++ (e ∷ [])) ≡ handed_by e
last_handed-snoc [] e = refl
last_handed-snoc (x ∷ []) e = refl
last_handed-snoc (x ∷ y ∷ es) e = last_handed-snoc (y ∷ es) e

-- What `handleWrite` makes of a connector in state `s`.
abbrev Wrote : ConnectState → Connector → Connector → Type 0
Wrote s k d =
    (was_connecting s ≡ true) × ((last_handed d.effects ≡ none) ⊎ (d.state ≡ connected))
    ⊎ (was_connecting s ≡ false) × (d ≡ k)

retry-last_handed : (k : Connector) (fd : ℕ) → last_handed (retry k fd).effects ≡ none
unfolding retry
retry-last_handed k fd = elim (Bool-cases k.connect) [
  | inl e ↦ rw e (last_handed-snoc (k.effects ++ (closed fd ∷ [])) (start_after k.retry_delay_ms))
  | inr e ↦ rw e (last_handed-snoc k.effects (closed fd))
]

established-connected : (k : Connector) (fd : ℕ) → (established k fd).state ≡ connected
unfolding established
established-connected k fd = ground arith

write_in-Wrote :
    (s : ConnectState) (k : Connector) (failed self : Bool)
    → Safe (write_in s k failed self) (Wrote s k)
unfolding write_in
write_in-Wrote idle k failed self = inr (refl, refl)
write_in-Wrote connected k failed self = tt
write_in-Wrote connecting k true self =
    Safe->>= (remove_and_reset_channel k) _ _ λ r. inl (refl, inl (retry-last_handed r.1 r.0))
write_in-Wrote connecting k false true =
    Safe->>= (remove_and_reset_channel k) _ _ λ r. inl (refl, inl (retry-last_handed r.1 r.0))
write_in-Wrote connecting k false false =
    Safe->>= (remove_and_reset_channel k) _ _ λ r. inl (refl, inr (established-connected r.1 r.0))

-- Where there is no connection, none is open.
none_open :
    {c : TcpClient} (j : ℕ)
    → Inv c
    → c.connection ≡ none
    → in_use c j ≡ true
    → is_open (c.conns j).state ≡ true
    → ⊥
none_open {c} j i n u o = let there : none ≡ some j = sym n ∙ i.only j u o in cc

take_over-Inv :
    (o : Option ℕ) (c : TcpClient) (reading : Bool)
    → c.connection ≡ none
    → (o ≡ none) ⊎ (c.connector.state ≡ connected)
    → Inv c
    → Safe (take_over o c reading) Inv
unfolding new_connection
take_over-Inv none c reading n h i = i
take_over-Inv (some fd) c reading n h i =
    Safe->>= (connect_established (new_connection_on fd reading c.write_complete_callback)) _ _ λ d.
      record {
        alone = elim h [ inl e ↦ absurd (cc) | inr e ↦ inr e ];
        only = λ j u o. elim (Bool-cases (c.next_conn_id == j)) [
          | inl e ↦ let same_number : c.next_conn_id ≡ j = ground (arith, e) in ap some same_number
          | inr e ↦ absurd (
              none_open j i n (ground (arith, u, e))
                (subst (λ b. is_open (if b then d else c.conns j).state ≡ true) e o))
        ];
        positive = omega arith;
      }

Wrote-Inv :
    (c : TcpClient) (k : Connector) (reading : Bool) (s : ConnectState)
    → c.connector.state ≡ s
    → Wrote s c.connector k
    → Inv c
    → Safe
        (take_over
          (if was_connecting s then last_handed k.effects else none)
          (record c { connector = k })
          reading)
        Inv
Wrote-Inv c k reading s e (inr (w, same)) i =
    rw w (with_connector k i (λ h. ap (λ x. x.state) same ∙ h))
Wrote-Inv c k reading s e (inl (w, h)) i =
    let nobody : c.connection ≡ none = elim i.alone [
      | inl n ↦ n
      | inr f ↦ let off : false ≡ true = sym (ap was_connecting (sym e ∙ f)) ∙ w in absurd (cc)
    ] in
    let j : Inv (record c { connector = k }) = record {
      alone = inl nobody;
      only = i.only;
      positive = i.positive;
    } in
    rw w (take_over-Inv (last_handed k.effects) (record c { connector = k }) reading nobody h j)

pub connector_writes-Inv :
    (c : TcpClient) (failed self reading : Bool)
    → Inv c
    → Safe (connector_writes c failed self reading) Inv
unfolding connector_writes handle_write
connector_writes-Inv c failed self reading i =
    Safe-bind (handle_write c.connector failed self) (Wrote c.connector.state c.connector) _ _
      (write_in-Wrote c.connector.state c.connector failed self)
      (λ k w. Wrote-Inv c k reading c.connector.state refl w i)

pub stop_client-Inv : (c : TcpClient) → Inv c → Inv (stop_client c)
unfolding stop_client
stop_client-Inv c v = record { alone = v.alone; only = v.only; positive = v.positive }

pub any : {A : Type 0} {P : A → Type 0} (o : Option A) → ((a : A) → P a) → Safe o P
any none f = tt
any (some a) f = f a

-- The functor of `stop`, at whatever state it finds the connector in.
pub stopped-Inv :
    (c : TcpClient) (ts : List ClientTask)
    → Inv c
    → Safe (do k ← stop_in_loop c.connector; some (record c { pending = ts; connector = k })) Inv
stopped-Inv c ts v = elim v.alone [
  | inl n ↦
      Safe->>= (stop_in_loop c.connector) _ _
        λ k. record { alone = inl n; only = v.only; positive = v.positive }
  | inr e ↦
      subst (λ o. Safe (o >>= λ k. some (record c { pending = ts; connector = k })) Inv)
        (sym (stop_in_loop-connected c.connector e))
        (record { alone = inr e; only = v.only; positive = v.positive })
]

pub errs-Inv :
    (c : TcpClient)
    → Inv c
    → Safe (handle_error c.connector) (λ k. Inv (record c { connector = k }))
errs-Inv c v = elim v.alone [
  | inl n ↦
      any (handle_error c.connector)
        (λ k. record { alone = inl n; only = v.only; positive = v.positive })
  | inr e ↦
      subst (λ o. Safe o (λ k. Inv (record c { connector = k })))
        (sym (handle_error-connected c.connector e))
        (record { alone = inr e; only = v.only; positive = v.positive })
]

pub retries-Inv :
    (c : TcpClient) (fd : ℕ) (a : Answer)
    → Inv c
    → Safe (start_in_loop c.connector fd a) (λ k. Inv (record c { connector = k }))
retries-Inv c fd a v = elim v.alone [
  | inl n ↦
      any (start_in_loop c.connector fd a)
        (λ k. record { alone = inl n; only = v.only; positive = v.positive })
  | inr e ↦
      subst (λ o. Safe o (λ k. Inv (record c { connector = k })))
        (sym (start_in_loop-connected c.connector fd a e)) tt
]
