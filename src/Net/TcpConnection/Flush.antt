-- ===== src/Net/TcpConnection/Flush.antt =====
-- `handleWrite` of net/TcpConnection.cc: how the output buffer drains, and when the write side is shut.
use slack.Base.{
  take-nil, ℕ, ◌≤◌, ◌≡◌, List, [], ◌∷◌, ◌++◌, Bool, true, false, not, ◌&&◌, ◌||◌, if◌then◌else◌,
  take, drop, length, arith, refl, ap, sym, ◌∙◌, inl, inr, Bool-cases, Returns, Returns->>=,
  append_assoc, append-nil, take-append-drop, drop-nil, ltb,
}
use slack.Net.Buffer.{Buffer, retrieve}
use slack.Net.Buffer.Valid.{Holds, contents, readable-eq-length}
use slack.Net.Buffer.Retrieve.{retrieve_lem, prefix-contents}
use slack.Net.Channel.{disable_writing}
use slack.Net.Channel.Events.{IsMasked, disable_writing-Watches}
use slack.Net.TcpConnection.{
  TcpConnection, Effect, wrote, shut_write, update_channel, remove_channel, queued, on_connection,
  on_message, on_close, write_complete, took, is_disconnected, is_disconnecting, run_shutdown,
  drained, written, handle_write, emit,
}
use slack.Net.TcpConnection.Stream.{
  sent, sent-append, is_cons, is_cons-length, waiting, IsSound, Moves, same_lem, is_cons-false,
}

-- Whether the write side has been shut.
abbrev pub is_shut : List Effect → Bool
is_shut [] = false
is_shut (shut_write ∷ es) = true
is_shut (wrote bytes ∷ es) = is_shut es
is_shut (update_channel c ∷ es) = is_shut es
is_shut (remove_channel c ∷ es) = is_shut es
is_shut (queued f ∷ es) = is_shut es
is_shut (on_connection ∷ es) = is_shut es
is_shut (on_message ∷ es) = is_shut es
is_shut (on_close ∷ es) = is_shut es

pub is_shut-append : (xs ys : List Effect) → is_shut (xs ++ ys) ≡ (is_shut xs || is_shut ys)
is_shut-append [] ys = refl
is_shut-append (shut_write ∷ xs) ys = refl
is_shut-append (wrote bytes ∷ xs) ys = is_shut-append xs ys
is_shut-append (update_channel c ∷ xs) ys = is_shut-append xs ys
is_shut-append (remove_channel c ∷ xs) ys = is_shut-append xs ys
is_shut-append (queued f ∷ xs) ys = is_shut-append xs ys
is_shut-append (on_connection ∷ xs) ys = is_shut-append xs ys
is_shut-append (on_message ∷ xs) ys = is_shut-append xs ys
is_shut-append (on_close ∷ xs) ys = is_shut-append xs ys

-- The bytes that `write` took before the write side was shut.
abbrev pub before_shut : List Effect → List ℕ
before_shut [] = []
before_shut (shut_write ∷ es) = []
before_shut (wrote bytes ∷ es) = bytes ++ before_shut es
before_shut (update_channel c ∷ es) = before_shut es
before_shut (remove_channel c ∷ es) = before_shut es
before_shut (queued f ∷ es) = before_shut es
before_shut (on_connection ∷ es) = before_shut es
before_shut (on_message ∷ es) = before_shut es
before_shut (on_close ∷ es) = before_shut es

pub before_shut-unshut :
    (xs ys : List Effect) → is_shut xs ≡ false → before_shut (xs ++ ys) ≡ sent xs ++ before_shut ys
before_shut-unshut [] ys h = refl
before_shut-unshut (shut_write ∷ xs) ys h = absurd (cc)
before_shut-unshut (wrote bytes ∷ xs) ys h =
    ap (λ l. bytes ++ l) (before_shut-unshut xs ys h)
    ∙ sym (append_assoc bytes (sent xs) (before_shut ys))
before_shut-unshut (update_channel c ∷ xs) ys h = before_shut-unshut xs ys h
before_shut-unshut (remove_channel c ∷ xs) ys h = before_shut-unshut xs ys h
before_shut-unshut (queued f ∷ xs) ys h = before_shut-unshut xs ys h
before_shut-unshut (on_connection ∷ xs) ys h = before_shut-unshut xs ys h
before_shut-unshut (on_message ∷ xs) ys h = before_shut-unshut xs ys h
before_shut-unshut (on_close ∷ xs) ys h = before_shut-unshut xs ys h

pub before_shut-shut :
    (xs ys : List Effect) → is_shut xs ≡ true → before_shut (xs ++ ys) ≡ before_shut xs
before_shut-shut [] ys h = absurd (cc)
before_shut-shut (shut_write ∷ xs) ys h = refl
before_shut-shut (wrote bytes ∷ xs) ys h = ap (λ l. bytes ++ l) (before_shut-shut xs ys h)
before_shut-shut (update_channel c ∷ xs) ys h = before_shut-shut xs ys h
before_shut-shut (remove_channel c ∷ xs) ys h = before_shut-shut xs ys h
before_shut-shut (queued f ∷ xs) ys h = before_shut-shut xs ys h
before_shut-shut (on_connection ∷ xs) ys h = before_shut-shut xs ys h
before_shut-shut (on_message ∷ xs) ys h = before_shut-shut xs ys h
before_shut-shut (on_close ∷ xs) ys h = before_shut-shut xs ys h

-- What `drained` does, in order.
abbrev drain_effects : TcpConnection → Bool → Bool → List Effect
drain_effects c told shuts =
    update_channel (disable_writing c.channel)
    ∷ ((if told then queued write_complete ∷ [] else []) ++ (if shuts then shut_write ∷ [] else []))

sent-drain_effects :
    (c : TcpConnection) (told shuts : Bool) → sent (drain_effects c told shuts) ≡ []
sent-drain_effects c true true = refl
sent-drain_effects c true false = refl
sent-drain_effects c false true = refl
sent-drain_effects c false false = refl

before_shut-drain_effects :
    (c : TcpConnection) (told shuts : Bool) → before_shut (drain_effects c told shuts) ≡ []
before_shut-drain_effects c true true = refl
before_shut-drain_effects c true false = refl
before_shut-drain_effects c false true = refl
before_shut-drain_effects c false false = refl

is_shut-drain_effects :
    (c : TcpConnection) (told shuts : Bool) → is_shut (drain_effects c told shuts) ≡ shuts
is_shut-drain_effects c true true = refl
is_shut-drain_effects c true false = refl
is_shut-drain_effects c false true = refl
is_shut-drain_effects c false false = refl

drained_lem :
    (c : TcpConnection) (told shuts : Bool)
    → IsMasked c.channel
    → c.write_complete_callback ≡ told
    → is_disconnecting c.state ≡ shuts
    → drained c ≡ record c {
      channel = disable_writing c.channel;
      effects = c.effects ++ drain_effects c told shuts;
    }
unfolding drained run_shutdown
drained_lem c true true m p q =
    rw (p, q, (disable_writing-Watches c.channel m).writing_eq) (simp append_assoc refl)
drained_lem c true false m p q = rw (p, q) (simp append_assoc refl)
drained_lem c false true m p q =
    rw (p, q, (disable_writing-Watches c.channel m).writing_eq) (simp append_assoc refl)
drained_lem c false false m p q = rw (p, q) refl

-- More effects: these bytes are written, and nothing is written behind a shutdown among them.
pub record Adds (c : TcpConnection) (bytes : List ℕ) (d : TcpConnection) : Type 0 where
  pub added : List Effect
  pub effects_eq : d.effects ≡ c.effects ++ added
  pub sent_eq : sent added ≡ bytes
  pub before_eq : before_shut added ≡ bytes

-- One `handleWrite` that reports `n` bytes as taken.
pub record Flushed (c : TcpConnection) (n : ℕ) (d : TcpConnection) : Type 0 where
  pub moves : Moves c [] d
  pub adds : Adds c (take n (waiting c)) d
  pub waiting_eq : waiting d ≡ drop n (waiting c)
  pub shut_eq : is_shut d.effects ≡ (
      is_shut c.effects
      || (is_disconnecting c.state && (is_cons (waiting c) && not (is_cons (waiting d)))))

flow : (s w : List ℕ) (n : ℕ) → (s ++ take n w) ++ drop n w ≡ (s ++ w) ++ []
flow s w n =
    append_assoc s (take n w) (drop n w)
    ∙ ap (λ l. s ++ l) (take-append-drop n w)
    ∙ sym (append-nil (s ++ w))

-- The effects of a write of the next `n` bytes, with more effects that write and shut nothing or shut.
sent-wrote :
    (es : List Effect) (w : List ℕ) (more : List Effect)
    → sent more ≡ []
    → sent ((es ++ (wrote w ∷ [])) ++ more) ≡ sent es ++ w
sent-wrote es w more e =
    rw (sent-append (es ++ (wrote w ∷ [])) more, sent-append es (wrote w ∷ []), e)
      (simp append-nil refl)

is_shut-wrote :
    (es : List Effect) (w : List ℕ) (more : List Effect)
    → is_shut ((es ++ (wrote w ∷ [])) ++ more) ≡ (is_shut es || is_shut more)
is_shut-wrote es w more =
    rw (is_shut-append (es ++ (wrote w ∷ [])) more, is_shut-append es (wrote w ∷ [])) (ground arith)

or_nothing : (p a b : Bool) → b ≡ false → p ≡ (p || (a && b))
or_nothing p a b e = ground arith

and_not : (b : Bool) → (b && not b) ≡ false
and_not b = ground arith

or_none : (p a b : Bool) → (p || false) ≡ (p || (a && (b && false)))
or_none p a b = ground arith

none_and : (a : Bool) → false ≡ (not a && false)
none_and a = ground arith

or_same : (p a : Bool) → (p || a) ≡ (p || (a && (true && not false)))
or_same p a = ground arith

module _ {c : TcpConnection} (v : IsSound c) (up : is_disconnected c.state ≡ false) where
  idle_lem : (n : ℕ) → is_cons (waiting c) ≡ false → Flushed c n c
  idle_lem n e = record {
    moves = same_lem v up;
    adds = record {
      added = [];
      effects_eq = sym (append-nil c.effects);
      sent_eq = rw (is_cons-false (waiting c) e) (sym (take-nil n));
      before_eq = rw (is_cons-false (waiting c) e) (sym (take-nil n));
    };
    waiting_eq = rw (is_cons-false (waiting c) e) (sym (drop-nil n));
    shut_eq =
        or_nothing (is_shut c.effects) (is_disconnecting c.state)
          (is_cons (waiting c) && not (is_cons (waiting c))) (and_not (is_cons (waiting c)));
  }

  nothing_lem : Flushed c 0 c
  nothing_lem = record {
    moves = same_lem v up;
    adds = record {
      added = [];
      effects_eq = sym (append-nil c.effects);
      sent_eq = refl;
      before_eq = refl;
    };
    waiting_eq = refl;
    shut_eq = or_nothing _ _ _ (and_not (is_cons (waiting c)));
  }

  -- The next `n` bytes are taken, and some still wait.
  taken_lem :
      (n : ℕ) (left : Buffer)
      → n ≤ length (waiting c)
      → Holds left (drop n (waiting c))
      → is_cons (waiting c) ≡ true
      → is_cons (drop n (waiting c)) ≡ true
      → Flushed c n (emit (record c { output_buffer = left }) (wrote (take n (waiting c))))
  taken_lem n left h k w e = record {
    moves = record {
      sound = record {
        valid = k.valid;
        mask = v.mask;
        watched = rw (k.bytes_eq, e, v.watched, w) refl;
      };
      stream_eq =
          rw
            (
              sent-append c.effects (wrote (take n (waiting c)) ∷ []),
              append-nil (take n (waiting c)),
              k.bytes_eq,
            )
            (flow (sent c.effects) (waiting c) n);
      state_eq = refl;
    };
    adds = record {
      added = wrote (take n (waiting c)) ∷ [];
      effects_eq = refl;
      sent_eq = append-nil (take n (waiting c));
      before_eq = append-nil (take n (waiting c));
    };
    waiting_eq = k.bytes_eq;
    shut_eq =
        rw (is_shut-append c.effects (wrote (take n (waiting c)) ∷ []), k.bytes_eq, e)
          (or_none (is_shut c.effects) _ _);
  }

  -- The last bytes are taken.
  last_lem :
      (n : ℕ) (left : Buffer)
      → n ≤ length (waiting c)
      → Holds left (drop n (waiting c))
      → is_cons (waiting c) ≡ true
      → is_cons (drop n (waiting c)) ≡ false
      → Flushed c n
          (drained (emit (record c { output_buffer = left }) (wrote (take n (waiting c)))))
  last_lem n left h k w e =
      let told = c.write_complete_callback in
      let shuts = is_disconnecting c.state in
      let wrote_one = emit (record c { output_buffer = left }) (wrote (take n (waiting c))) in
      let more = drain_effects c told shuts in
      let idle = disable_writing-Watches c.channel v.mask in
      rw (drained_lem wrote_one told shuts v.mask refl refl) (record {
        moves = record {
          sound = record {
            valid = k.valid;
            mask = idle.is_masked;
            watched = rw (k.bytes_eq, e, idle.writing_eq) (none_and _);
          };
          stream_eq =
              ap (λ l. l ++ contents left)
                (sent-wrote c.effects (take n (waiting c)) more (sent-drain_effects c told shuts))
              ∙ ap (λ l. (sent c.effects ++ take n (waiting c)) ++ l) k.bytes_eq
              ∙ flow (sent c.effects) (waiting c) n;
          state_eq = refl;
        };
        adds = record {
          added = wrote (take n (waiting c)) ∷ more;
          effects_eq = append_assoc c.effects (wrote (take n (waiting c)) ∷ []) more;
          sent_eq =
              ap (λ l. take n (waiting c) ++ l) (sent-drain_effects c told shuts)
              ∙ append-nil (take n (waiting c));
          before_eq =
              ap (λ l. take n (waiting c) ++ l) (before_shut-drain_effects c told shuts)
              ∙ append-nil (take n (waiting c));
        };
        waiting_eq = k.bytes_eq;
        shut_eq =
            is_shut-wrote c.effects (take n (waiting c)) more
            ∙ ap (λ p. is_shut c.effects || p) (is_shut-drain_effects c told shuts)
            ∙ rw (k.bytes_eq, e, w) (or_same (is_shut c.effects) shuts);
      })

  written_lem :
      (n : ℕ)
      → n ≤ length (waiting c)
      → is_cons (waiting c) ≡ true
      → Returns (written c n) (Flushed c n)
  unfolding written
  written_lem n h w = elim (Bool-cases (ltb 0 n)) [
    | inl some_taken ↦
        rw (some_taken, prefix-contents (record { valid = v.valid; bytes_eq = refl }) n h)
          (Returns->>= (retrieve c.output_buffer n) _ _ _
            (retrieve_lem (record { valid = v.valid; bytes_eq = refl }) n h)
            λ left k.
              rw
                (
                  readable-eq-length k.0.valid,
                  ap length k.0.bytes_eq,
                  is_cons-length (drop n (waiting c)),
                )
                (elim (Bool-cases (is_cons (drop n (waiting c)))) [
                  | inl e ↦ rw e (taken_lem n left h k.0 w e)
                  | inr e ↦ rw e (last_lem n left h k.0 w e)
                ]))
    | inr none_taken ↦ let z : n ≡ 0 = ground arith in rw (none_taken, z) nothing_lem
  ]

  -- `handleWrite` on a connection that is not disconnected, where `write` takes `n` bytes of those that
  -- wait: it returns, keeps the invariant of `run_send_lem` and the stream, leaves the later bytes
  -- waiting, and shuts the write side exactly where the last bytes went and the state is disconnecting.
  pub handle_write_lem :
      (n : ℕ) → n ≤ length (waiting c) → Returns (handle_write c (took n)) (Flushed c n)
  unfolding handle_write
  handle_write_lem n h = elim (Bool-cases (is_cons (waiting c))) [
    | inl w ↦ rw (v.watched, up, w) (written_lem n h w)
    | inr w ↦ rw (v.watched, up, w) (idle_lem n w)
  ]
