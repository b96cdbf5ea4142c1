-- ===== src/Net/TcpConnection/Stream.antt =====
-- The byte stream of net/TcpConnection.cc: what is written to the socket and what waits in the output
-- buffer.
use slack.Base.{
  ℕ, ◌+◌, ◌-◌, ◌^◌, ◌≤◌, ◌<◌, ◌≡◌, List, [], ◌∷◌, ◌++◌, Bool, true, false, not, ◌&&◌, if◌then◌else◌,
  take, drop, length, arith, refl, ap, sym, ◌∙◌, inl, inr, Bool-cases, Returns, Returns->>=,
  Returns-mono, append_assoc, append-nil, take-append-drop, length-drop, drop_all, le→leb, ◌==◌,
  ltb, ltb→lt, subst, add_size, sub_size,
}
use slack.Net.Buffer.{Buffer, append, readable_bytes}
use slack.Net.Buffer.Valid.{IsValid, Holds, contents, readable-eq-length}
use slack.Net.Buffer.Refine.{append_lem}
use slack.Net.Channel.{is_writing, enable_writing}
use slack.Net.Channel.Events.{IsMasked, enable_writing-Watches}
use slack.Net.TcpConnection.{
  TcpConnection, Effect, wrote, shut_write, update_channel, remove_channel, queued, on_connection,
  on_message, on_close, high_water, write_complete, Write, took, failed, is_disconnected, is_fault,
  is_crossing, warned, watch_writing, keep_bytes, keep_rest, write_now, run_send, emit, queue_if,
}

-- The bytes that `write` took, in order.
abbrev pub sent : List Effect → List ℕ
sent [] = []
sent (wrote bytes ∷ es) = bytes ++ sent es
sent (shut_write ∷ es) = sent es
sent (update_channel c ∷ es) = sent es
sent (remove_channel c ∷ es) = sent es
sent (queued f ∷ es) = sent es
sent (on_connection ∷ es) = sent es
sent (on_message ∷ es) = sent es
sent (on_close ∷ es) = sent es

pub sent-append : (xs ys : List Effect) → sent (xs ++ ys) ≡ sent xs ++ sent ys
sent-append [] ys = refl
sent-append (wrote bytes ∷ xs) ys =
    ap (λ l. bytes ++ l) (sent-append xs ys) ∙ sym (append_assoc bytes (sent xs) (sent ys))
sent-append (shut_write ∷ xs) ys = sent-append xs ys
sent-append (update_channel c ∷ xs) ys = sent-append xs ys
sent-append (remove_channel c ∷ xs) ys = sent-append xs ys
sent-append (queued f ∷ xs) ys = sent-append xs ys
sent-append (on_connection ∷ xs) ys = sent-append xs ys
sent-append (on_message ∷ xs) ys = sent-append xs ys
sent-append (on_close ∷ xs) ys = sent-append xs ys

abbrev pub is_cons : List ℕ → Bool
is_cons [] = false
is_cons (b ∷ bs) = true

abbrev pub waiting : TcpConnection → List ℕ
waiting c = contents c.output_buffer

-- The stream so far: what the kernel has, then what waits.
abbrev pub stream : TcpConnection → List ℕ
stream c = sent c.effects ++ waiting c

-- Writing is watched for exactly while bytes wait on a connection that is not closed.
pub record IsSound (c : TcpConnection) : Type 0 where
  pub valid : IsValid c.output_buffer
  pub mask : IsMasked c.channel
  pub watched : is_writing c.channel ≡ (not (is_disconnected c.state) && is_cons (waiting c))

-- A step that moves the stream on by `bytes` and keeps the state.
pub record Moves (c : TcpConnection) (bytes : List ℕ) (c' : TcpConnection) : Type 0 where
  pub sound : IsSound c'
  pub stream_eq : stream c' ≡ stream c ++ bytes
  pub state_eq : c'.state ≡ c.state

pub is_cons-length : (q : List ℕ) → (length q == 0) ≡ not (is_cons q)
is_cons-length [] = refl
is_cons-length (b ∷ q) = ground arith

is_cons-append : (q ys : List ℕ) → 0 < length ys → is_cons (q ++ ys) ≡ true
is_cons-append [] [] h = absurd (omega arith)
is_cons-append [] (y ∷ ys) h = refl
is_cons-append (b ∷ q) ys h = refl

sent-warned : (c : TcpConnection) (n : ℕ) → sent (warned c n) ≡ sent c.effects
unfolding warned
sent-warned c n =
    let e = queued (high_water (add_size (readable_bytes c.output_buffer) n)) ∷ [] in
    elim (Bool-cases (is_crossing c n)) [
      | inl on ↦ rw on (sent-append c.effects e ∙ append-nil (sent c.effects))
      | inr off ↦ rw off refl
    ]

module _ {c : TcpConnection} (v : IsSound c) (up : is_disconnected c.state ≡ false) where
  stream_kept :
      (es : List Effect) (output : Buffer) (ys : List ℕ)
      → sent es ≡ sent c.effects
      → Holds output (waiting c ++ ys)
      → sent es ++ contents output ≡ stream c ++ ys
  stream_kept es output ys e h =
      ap (λ l. l ++ contents output) e
      ∙ ap (λ l. sent c.effects ++ l) h.bytes_eq
      ∙ sym (append_assoc (sent c.effects) (waiting c) ys)

  -- Bytes put into the output buffer are watched for from then on.
  watch_writing_lem :
      (es : List Effect) (output : Buffer) (ys : List ℕ)
      → sent es ≡ sent c.effects
      → Holds output (waiting c ++ ys)
      → 0 < length ys
      → Moves c ys (watch_writing (record c { effects = es; output_buffer = output }))
  unfolding watch_writing
  watch_writing_lem es output ys e h n =
      let some_wait : is_cons (contents output) ≡ true =
        ap is_cons h.bytes_eq ∙ is_cons-append (waiting c) ys n in
      let w = enable_writing-Watches c.channel v.mask in
      let e' : sent (es ++ (update_channel (enable_writing c.channel) ∷ [])) ≡ sent c.effects =
        sent-append es (update_channel (enable_writing c.channel) ∷ [])
        ∙ append-nil (sent es)
        ∙ e in
      elim (Bool-cases (is_writing c.channel)) [
        | inl on ↦ rw on (record {
          sound = record { valid = h.valid; mask = v.mask; watched = rw (up, some_wait) on };
          stream_eq = stream_kept es output ys e h;
          state_eq = refl;
        })
        | inr off ↦ rw off (record {
          sound = record {
            valid = h.valid;
            mask = w.is_masked;
            watched = rw (up, some_wait) w.writing_eq;
          };
          stream_eq =
              stream_kept (es ++ (update_channel (enable_writing c.channel) ∷ [])) output ys e' h;
          state_eq = refl;
        })
      ]

  pub same_lem : Moves c [] c
  same_lem = record { sound = v; stream_eq = sym (append-nil (stream c)); state_eq = refl }

  keep_bytes_lem :
      (n : ℕ) (rest : List ℕ)
      → 0 < length rest
      → length c.output_buffer.buffer + length rest + 8 < 2 ^ 63
      → Returns (keep_bytes c n rest) (Moves c rest)
  unfolding keep_bytes
  keep_bytes_lem n rest h s =
      Returns->>= (append c.output_buffer rest) _ _ _
        (append_lem (record { valid = v.valid; bytes_eq = refl }) rest s)
        λ output k. watch_writing_lem (warned c n) output rest (sent-warned c n) k.0 h

  keep_rest_lem :
      (bytes : List ℕ) (n : ℕ) (fault : Bool)
      → n ≤ length bytes
      → length c.output_buffer.buffer + length bytes + 8 < 2 ^ 63
      → Returns
          (keep_rest c bytes n (length bytes - n) fault)
          (Moves c (if fault then [] else drop n bytes))
  unfolding keep_rest
  keep_rest_lem bytes n true h s =
      rw (le→leb (length bytes - n) (length bytes) (omega arith)) same_lem
  keep_rest_lem bytes n false h s =
      rw (le→leb (length bytes - n) (length bytes) (omega arith))
        (elim (Bool-cases (ltb 0 (length bytes - n))) [
          | inl goes ↦
              let left : 0 < length bytes - n = ltb→lt 0 (length bytes - n) goes in
              rw goes (
                keep_bytes_lem (length bytes - n) (drop n bytes) (rw (length-drop n bytes) left)
                  (rw (length-drop n bytes) (omega arith)))
          | inr stays ↦ rw (stays, drop_all n bytes (ground arith)) same_lem
        ])

keep_all_lem :
    {c : TcpConnection} (v : IsSound c) (up : is_disconnected c.state ≡ false) (bytes : List ℕ)
    (fault : Bool)
    → length c.output_buffer.buffer + length bytes + 8 < 2 ^ 63
    → Returns (keep_rest c bytes 0 (length bytes) fault) (Moves c (if fault then [] else bytes))
keep_all_lem {c} v up bytes fault s =
    let all : length bytes - 0 ≡ length bytes = omega arith in
    subst (λ k. Returns (keep_rest c bytes 0 k fault) (Moves c (if fault then [] else bytes))) all
      (keep_rest_lem v up bytes 0 fault (omega arith) s)

Moves-trans :
    {c d e : TcpConnection} (xs ys : List ℕ) → Moves c xs d → Moves d ys e → Moves c (xs ++ ys) e
Moves-trans {c} {d} {e} xs ys f g = record {
  sound = g.sound;
  stream_eq = g.stream_eq ∙ ap (λ l. l ++ ys) f.stream_eq ∙ append_assoc (stream c) xs ys;
  state_eq = g.state_eq ∙ f.state_eq;
}

-- What a connection with an empty output buffer looks like after a direct write.
record Sent (c : TcpConnection) (bytes : List ℕ) (d : TcpConnection) : Type 0 where
  moves : Moves c bytes d
  state_eq : d.state ≡ c.state
  buffer_eq : d.output_buffer ≡ c.output_buffer

-- One `write` and what it brings about, where the bytes were next in the stream.
Sent-intro :
    {c d : TcpConnection} (v : IsSound c) (bytes : List ℕ) (es : List Effect)
    → waiting c ≡ []
    → sent es ≡ []
    → d ≡ record c { effects = c.effects ++ (wrote bytes ∷ es) }
    → Sent c bytes d
Sent-intro {c} v bytes es empty quiet e = rw e (record {
  moves = record {
    sound = record { valid = v.valid; mask = v.mask; watched = v.watched };
    stream_eq = rw (sent-append c.effects (wrote bytes ∷ es), quiet, empty) (simp append-nil refl);
    state_eq = refl;
  };
  state_eq = refl;
  buffer_eq = refl;
})

sent_lem :
    {c : TcpConnection} (v : IsSound c) (bytes : List ℕ) (told : Bool)
    → waiting c ≡ []
    → Sent c bytes (queue_if told (emit c (wrote bytes)) write_complete)
sent_lem {c} v bytes true empty = Sent-intro v bytes (queued write_complete ∷ []) empty refl (
    ap (λ es. record c { effects = es })
      (append_assoc c.effects (wrote bytes ∷ []) (queued write_complete ∷ [])))
sent_lem v bytes false empty = Sent-intro v bytes [] empty refl refl

-- The bytes of a call that become part of the stream: all of them, unless a direct write faults.
abbrev pub accepted : TcpConnection → List ℕ → Write → List ℕ
accepted c bytes (took n) = bytes
accepted c bytes (failed e) = if is_fault e && not (is_cons (waiting c)) then [] else bytes

-- `write` takes at most what it is given.
abbrev pub IsWithin : Write → ℕ → Type 0
IsWithin (took n) k = n ≤ k
IsWithin (failed e) k = Unit

write_now_lem :
    {c : TcpConnection} (v : IsSound c) (up : is_disconnected c.state ≡ false) (bytes : List ℕ)
    (w : Write)
    → waiting c ≡ []
    → IsWithin w (length bytes)
    → length c.output_buffer.buffer + length bytes + 8 < 2 ^ 63
    → Returns (write_now c bytes w) (Moves c (accepted c bytes w))
unfolding write_now
write_now_lem {c} v up bytes (took n) empty h s =
    let remaining : sub_size (length bytes) n ≡ length bytes - n = omega arith in
    rw remaining (
      let told = length bytes - n == 0 && c.write_complete_callback in
      let f = sent_lem v (take n bytes) told empty in
      let d = queue_if told (emit c (wrote (take n bytes))) write_complete in
      Returns-mono (keep_rest d bytes n (length bytes - n) false) _ _
        (keep_rest_lem f.moves.sound (ap is_disconnected f.state_eq ∙ up) bytes n false h
          (rw f.buffer_eq s))
        λ e g.
          subst (λ l. Moves c l e) (take-append-drop n bytes)
            (Moves-trans (take n bytes) (drop n bytes) f.moves g))
write_now_lem {c} v up bytes (failed e) empty h s =
    let fault : is_fault e && not (is_cons (waiting c)) ≡ is_fault e = rw empty (ground arith) in
    rw fault (keep_all_lem v up bytes (is_fault e) s)

pub is_cons-false : (q : List ℕ) → is_cons q ≡ false → q ≡ []
is_cons-false [] e = refl
is_cons-false (b ∷ q) e = ground arith

accepted-waiting :
    (c : TcpConnection) (bytes : List ℕ) (w : Write)
    → is_cons (waiting c) ≡ true
    → accepted c bytes w ≡ bytes
accepted-waiting c bytes (took n) e = refl
accepted-waiting c bytes (failed x) e = rw e (ground arith)

-- The direct write is tried exactly where nothing waits.
is_direct :
    {c : TcpConnection}
    → IsSound c
    → is_disconnected c.state ≡ false
    → (not (is_writing c.channel) && readable_bytes c.output_buffer == 0)
      ≡ not (is_cons (waiting c))
is_direct {c} v up =
    rw (v.watched, up, readable-eq-length v.valid, is_cons-length (waiting c)) (ground arith)

-- `sendInLoop` on a connection that is not disconnected returns, keeps the invariant that writing is
-- watched for exactly while bytes wait, and moves the stream, what `write` took and then what waits in
-- the output buffer, on by all the bytes of the call; if a direct write fails with `EPIPE` or
-- `ECONNRESET`, by none. `write` takes no more than it is given, and the buffer stays below 2^63.
pub run_send_lem :
    {c : TcpConnection} (v : IsSound c) (up : is_disconnected c.state ≡ false) (bytes : List ℕ)
    (w : Write)
    → IsWithin w (length bytes)
    → length c.output_buffer.buffer + length bytes + 8 < 2 ^ 63
    → Returns (run_send c bytes w) (Moves c (accepted c bytes w))
unfolding run_send
run_send_lem {c} v up bytes w h s =
    rw (up, is_direct v up)
      (elim (Bool-cases (is_cons (waiting c))) [
        | inl some_wait ↦
            rw (some_wait, accepted-waiting c bytes w some_wait) (keep_all_lem v up bytes false s)
        | inr none_wait ↦
            rw none_wait (write_now_lem v up bytes w (is_cons-false (waiting c) none_wait) h s)
      ])
