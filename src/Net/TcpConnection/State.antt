-- ===== src/Net/TcpConnection/State.antt =====
-- The state machine of net/TcpConnection.cc: which way an operation may move a connection's state.
use slack.Base.{
  Safe, Safe->>=, Safe-mono, Safe-some, ltb, leb, assert, not, ◌+◌, ℕ, ◌≤◌, ◌≡◌, List, Bool, true,
  false, Option, some, arith, refl, inl, inr, Bool-cases, drop, take, length, ◌∙◌, ◌&&◌, sub_size,
  ◌==◌,
}
use slack.Net.Buffer.{append, retrieve, readable_bytes, slice, peek}
use slack.Net.Buffer.ReadFd.{Readv, ReadFd, error, count, read_fd}
use slack.Net.Channel.{is_writing, disable_writing, disable_all, remove}
use slack.Net.TcpConnection.{
  is_connecting, Functor, with_channel, TcpConnection, StateE, disconnected, connecting, connected,
  disconnecting, Write, took, failed, wrote, write_complete, is_connected, is_disconnected,
  is_disconnecting, is_connecting, is_open, emit, queue_if, watch_writing, keep_bytes, keep_rest,
  write_now, run_send, send, run_shutdown, shutdown, handle_close, force_close,
  force_close_with_delay, run_force_close, start_read_in_loop, stop_read_in_loop,
  connect_established, connect_destroyed, after_read, handle_read, drained, written, handle_write,
  warned, is_fault,
}

-- The order in which a connection lives through its states.
abbrev pub rank : StateE → ℕ
rank connecting = 0
rank connected = 1
rank disconnecting = 2
rank disconnected = 3

-- A step to `d` goes no step back.
abbrev pub Ages : TcpConnection → TcpConnection → Type 0
Ages c d = rank c.state ≤ rank d.state

run_shutdown_state : (c : TcpConnection) → (run_shutdown c).state ≡ c.state
unfolding run_shutdown
run_shutdown_state c = ground arith

watch_writing_state : (c : TcpConnection) → (watch_writing c).state ≡ c.state
unfolding watch_writing
watch_writing_state c = ground arith

queue_if_state : (b : Bool) (c : TcpConnection) (f : Functor) → (queue_if b c f).state ≡ c.state
queue_if_state true c f = refl
queue_if_state false c f = refl

drained_state : (c : TcpConnection) → (drained c).state ≡ c.state
unfolding drained
drained_state c =
    let idle = with_channel c (disable_writing c.channel) in
    let told = queue_if c.write_complete_callback idle write_complete in
    elim (Bool-cases (is_disconnecting c.state)) [
      | inl e ↦
          rw e
            (run_shutdown_state told ∙ queue_if_state c.write_complete_callback idle write_complete)
      | inr e ↦ rw e (queue_if_state c.write_complete_callback idle write_complete)
    ]

-- A run that leaves the state as it is.
abbrev Keeps : TcpConnection → Option TcpConnection → Type 0
Keeps c o = Safe o λ d. d.state ≡ c.state

keep_bytes_state : (c : TcpConnection) (n : ℕ) (rest : List ℕ) → Keeps c (keep_bytes c n rest)
unfolding keep_bytes
keep_bytes_state c n rest =
    Safe->>= (append c.output_buffer rest) _ _
      λ output. watch_writing_state (record c { effects = warned c n; output_buffer = output })

keep_rest_state :
    (c : TcpConnection) (bytes : List ℕ) (n r : ℕ) (fault : Bool)
    → Keeps c (keep_rest c bytes n r fault)
unfolding keep_rest
keep_rest_state c bytes n r fault = Safe->>= (assert (leb r (length bytes))) _ _ λ u.
    elim (Bool-cases (not fault && ltb 0 r)) [
      | inl e ↦ rw e (keep_bytes_state c r (drop n bytes))
      | inr e ↦ rw e refl
    ]

write_now_state : (c : TcpConnection) (bytes : List ℕ) (w : Write) → Keeps c (write_now c bytes w)
unfolding write_now
write_now_state c bytes (took n) =
    let remaining = sub_size (length bytes) n in
    let sent = emit c (wrote (take n bytes)) in
    let told = remaining == 0 && c.write_complete_callback in
    Safe-mono (keep_rest (queue_if told sent write_complete) bytes n remaining false) _ _
      (keep_rest_state (queue_if told sent write_complete) bytes n remaining false)
      λ d e. e ∙ queue_if_state told sent write_complete
write_now_state c bytes (failed e) = keep_rest_state c bytes 0 (length bytes) (is_fault e)

run_send_state : (c : TcpConnection) (bytes : List ℕ) (w : Write) → Keeps c (run_send c bytes w)
unfolding run_send
run_send_state c bytes w = elim (Bool-cases (is_disconnected c.state)) [
  | inl e ↦ rw e refl
  | inr e ↦
      rw e (elim (Bool-cases (not (is_writing c.channel) && readable_bytes c.output_buffer == 0)) [
        | inl f ↦ rw f (write_now_state c bytes w)
        | inr f ↦ rw f (keep_rest_state c bytes 0 (length bytes) false)
      ])
]

send_state :
    (c : TcpConnection) (here : Bool) (bytes : List ℕ) (w : Write) → Keeps c (send c here bytes w)
unfolding send
send_state c true bytes w = elim (Bool-cases (is_connected c.state)) [
  | inl e ↦ rw e (run_send_state c bytes w)
  | inr e ↦ rw e refl
]
send_state c false bytes w = elim (Bool-cases (is_connected c.state)) [
  | inl e ↦ rw e refl
  | inr e ↦ rw e refl
]

written_state : (c : TcpConnection) (n : ℕ) → Keeps c (written c n)
unfolding written
written_state c n = elim (Bool-cases (ltb 0 n)) [
  | inl e ↦ rw e (
      Safe->>= (retrieve c.output_buffer n) _ _ λ left.
        let after =
          emit (record c { output_buffer = left })
            (wrote
              (slice c.output_buffer.buffer (peek c.output_buffer) (peek c.output_buffer + n))) in
        elim (Bool-cases (readable_bytes left == 0)) [
          | inl f ↦ rw f (drained_state after)
          | inr f ↦ rw f refl
        ])
  | inr e ↦ rw e refl
]

handle_write_state : (c : TcpConnection) (w : Write) → Keeps c (handle_write c w)
unfolding handle_write
handle_write_state c (took n) = elim (Bool-cases (is_writing c.channel)) [
  | inl e ↦ rw e (written_state c n)
  | inr e ↦ rw e refl
]
handle_write_state c (failed x) = elim (Bool-cases (is_writing c.channel)) [
  | inl e ↦ rw e refl
  | inr e ↦ rw e refl
]

-- A run that takes the state no step back.
abbrev Advances : TcpConnection → Option TcpConnection → Type 0
Advances c o = Safe o λ d. Ages c d

Keeps-Advances : (c : TcpConnection) (o : Option TcpConnection) → Keeps c o → Advances c o
Keeps-Advances c o h = Safe-mono o _ _ h λ d e. rw e (omega arith)

closed_last : (s : StateE) → rank s ≤ 3
closed_last disconnected = omega arith
closed_last connecting = omega arith
closed_last connected = omega arith
closed_last disconnecting = omega arith

handle_close_state : (c : TcpConnection) → Advances c (handle_close c)
unfolding handle_close
handle_close_state c = Safe->>= (assert (is_open c.state)) _ _ λ u. closed_last c.state

run_force_close_state : (c : TcpConnection) → Advances c (run_force_close c)
unfolding run_force_close
run_force_close_state c = elim (Bool-cases (is_open c.state)) [
  | inl e ↦ rw e (handle_close_state c)
  | inr e ↦ rw e (omega arith)
]

open_rank : (s : StateE) → is_open s ≡ true → rank s ≤ 2
unfolding is_open
open_rank disconnected e = ground arith
open_rank connecting e = omega arith
open_rank connected e = omega arith
open_rank disconnecting e = omega arith

connected_rank : (s : StateE) → is_connected s ≡ true → rank s ≤ 2
unfolding is_connected
connected_rank disconnected e = ground arith
connected_rank connecting e = ground arith
connected_rank connected e = omega arith
connected_rank disconnecting e = ground arith

force_close_state : (c : TcpConnection) → Ages c (force_close c)
unfolding force_close
force_close_state c = elim (Bool-cases (is_open c.state)) [
  | inl e ↦ rw e (open_rank c.state e)
  | inr e ↦ rw e (omega arith)
]

delayed_force_state : (c : TcpConnection) → Ages c (force_close_with_delay c)
unfolding force_close_with_delay
delayed_force_state c = elim (Bool-cases (is_open c.state)) [
  | inl e ↦ rw e (open_rank c.state e)
  | inr e ↦ rw e (omega arith)
]

shutdown_state : (c : TcpConnection) (here : Bool) → Ages c (shutdown c here)
unfolding shutdown
shutdown_state c true = elim (Bool-cases (is_connected c.state)) [
  | inl e ↦
      rw (e, run_shutdown_state (record c { state = disconnecting })) (connected_rank c.state e)
  | inr e ↦ rw e (omega arith)
]
shutdown_state c false = elim (Bool-cases (is_connected c.state)) [
  | inl e ↦ rw e (connected_rank c.state e)
  | inr e ↦ rw e (omega arith)
]

start_read_state : (c : TcpConnection) → (start_read_in_loop c).state ≡ c.state
unfolding start_read_in_loop
start_read_state c = ground arith

stop_read_state : (c : TcpConnection) → (stop_read_in_loop c).state ≡ c.state
unfolding stop_read_in_loop
stop_read_state c = ground arith

connecting_rank : (s : StateE) → is_connecting s ≡ true → rank s ≤ 1
unfolding is_connecting
connecting_rank disconnected e = ground arith
connecting_rank connecting e = omega arith
connecting_rank connected e = omega arith
connecting_rank disconnecting e = ground arith

established_state : (c : TcpConnection) → Advances c (connect_established c)
unfolding connect_established
established_state c = elim (Bool-cases (is_connecting c.state)) [
  | inl e ↦ rw e (connecting_rank c.state e)
  | inr e ↦ rw e tt
]

destroyed_state : (c : TcpConnection) → Advances c (connect_destroyed c)
unfolding connect_destroyed
destroyed_state c = elim (Bool-cases (is_connected c.state)) [
  | inl e ↦ rw e (Safe->>= (remove (disable_all c.channel)) _ _ λ channel. closed_last c.state)
  | inr e ↦ rw e (Safe->>= (remove c.channel) _ _ λ channel. omega arith)
]

after_read_state : (c : TcpConnection) (r : ReadFd) → Advances c (after_read c r)
unfolding after_read
after_read_state c (error e) = omega arith
after_read_state c (count n) = elim (Bool-cases (n == 0)) [
  | inl e ↦ rw e (handle_close_state c)
  | inr e ↦ rw e (omega arith)
]

handle_read_state : (c : TcpConnection) (r : Readv) → Advances c (handle_read c r)
unfolding handle_read
handle_read_state c r =
    Safe->>= (read_fd c.input_buffer r) _ _
      λ p. after_read_state (record c { input_buffer = p.1 }) p.0

-- One call of an operation, with whatever the system calls answer.
pub data Step (c : TcpConnection) : TcpConnection → Type 0 where
  sends :
      {d : TcpConnection} (here : Bool) (bytes : List ℕ) (w : Write)
      → send c here bytes w ≡ some d
      → Step c d
  runs_send :
      {d : TcpConnection} (bytes : List ℕ) (w : Write) → run_send c bytes w ≡ some d → Step c d
  shuts : (here : Bool) → Step c (shutdown c here)
  runs_shutdown : Step c (run_shutdown c)
  forces : Step c (force_close c)
  delays_force : Step c (force_close_with_delay c)
  runs_force : {d : TcpConnection} → run_force_close c ≡ some d → Step c d
  starts_read : Step c (start_read_in_loop c)
  stops_read : Step c (stop_read_in_loop c)
  establishes : {d : TcpConnection} → connect_established c ≡ some d → Step c d
  destroys : {d : TcpConnection} → connect_destroyed c ≡ some d → Step c d
  reads : {d : TcpConnection} (r : Readv) → handle_read c r ≡ some d → Step c d
  writes : {d : TcpConnection} (w : Write) → handle_write c w ≡ some d → Step c d

pub data Steps (c : TcpConnection) : TcpConnection → Type 0 where
  done : Steps c c
  more : {d e : TcpConnection} → Steps c d → Step d e → Steps c e

after :
    (c : TcpConnection) (o : Option TcpConnection) (d : TcpConnection)
    → Advances c o
    → o ≡ some d
    → Ages c d
after c o d h e = Safe-some (λ x. Ages c x) h e

kept :
    (c : TcpConnection) (o : Option TcpConnection) (d : TcpConnection)
    → Keeps c o
    → o ≡ some d
    → Ages c d
kept c o d h e = after c o d (Keeps-Advances c o h) e

Step-Ages : (c d : TcpConnection) → Step c d → Ages c d
Step-Ages c d (sends here bytes w e) = kept c _ d (send_state c here bytes w) e
Step-Ages c d (runs_send bytes w e) = kept c _ d (run_send_state c bytes w) e
Step-Ages c d (shuts here) = shutdown_state c here
Step-Ages c d runs_shutdown = rw (run_shutdown_state c) (omega arith)
Step-Ages c d forces = force_close_state c
Step-Ages c d delays_force = delayed_force_state c
Step-Ages c d (runs_force e) = after c _ d (run_force_close_state c) e
Step-Ages c d starts_read = rw (start_read_state c) (omega arith)
Step-Ages c d stops_read = rw (stop_read_state c) (omega arith)
Step-Ages c d (establishes e) = after c _ d (established_state c) e
Step-Ages c d (destroys e) = after c _ d (destroyed_state c) e
Step-Ages c d (reads r e) = after c _ d (handle_read_state c r) e
Step-Ages c d (writes w e) = kept c _ d (handle_write_state c w) e

-- Whatever calls are made one after another, in whatever order and with whatever answers of the system
-- calls: a connection goes through its states in the order connecting, connected,
-- disconnecting, disconnected, and never back.
pub Steps-rank : (c d : TcpConnection) → Steps c d → rank c.state ≤ rank d.state
Steps-rank c d done = omega arith
Steps-rank c d (more {d = b} s t) = omega (arith, Steps-rank c b s, Step-Ages b d t)
