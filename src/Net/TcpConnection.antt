-- ===== src/Net/TcpConnection.antt =====
-- net/TcpConnection.cc, in its loop's thread. What a call does to the outside is a list of effects in
-- order; the results of system calls are arguments. A user's callback is the effect of calling it.
pub mod State
pub mod Stream
pub mod Flush
pub mod Close
pub mod Reading
use slack.Std.Text.{codes}
use slack.Base.{
  ℕ, suc, ◌+◌, ◌-◌, ◌*◌, ◌≡◌, List, [], ◌∷◌, ◌++◌, Bool, true, false, not, ◌&&◌, ◌||◌, Option, some,
  none, ◌==◌, leb, ltb, if◌then◌else◌, assert, ◌>>=◌, ◌>>◌, take, drop, length, add_size, sub_size,
}
use slack.Net.Buffer.{
  Buffer, append, retrieve, readable_bytes, peek, begin_write, slice, retrieve_all,
  retrieve_all_as_string,
}
use slack.Net.Buffer.ReadFd.{Readv, ReadFd, error, count, read_fd}
use slack.Net.Channel.{
  Channel, is_writing, is_reading, enable_reading, disable_reading, enable_writing, disable_writing,
  disable_all, tie, remove,
}

pub data StateE : Type 0 where
  disconnected connecting connected disconnecting : StateE

-- A functor put into the loop's queue, or with its timers.
pub data Functor : Type 0 where
  write_complete : Functor
  high_water : ℕ → Functor
  send_in_loop : List ℕ → Functor
  shutdown_in_loop : Functor
  force_close_in_loop : Functor
  delayed_force_close : Functor

pub data Effect : Type 0 where
  wrote : List ℕ → Effect
  shut_write : Effect
  update_channel : Channel → Effect
  remove_channel : Channel → Effect
  queued : Functor → Effect
  on_connection : Effect
  on_message : Effect
  on_close : Effect

pub record TcpConnection : Type 0 where
  pub state : StateE
  pub reading : Bool
  pub channel : Channel
  pub input_buffer : Buffer
  pub output_buffer : Buffer
  pub high_water_mark : ℕ
  pub write_complete_callback : Bool
  pub high_water_mark_callback : Bool
  pub effects : List Effect

-- The high-water mark that the constructor sets.
abbrev pub default_mark : ℕ
default_mark = 64 * 1024 * 1024

pub data Errno : Type 0 where
  would_block pipe reset other : Errno

-- What `sockets::write` answers: how many bytes it took, or an `errno`.
pub data Write : Type 0 where
  took : ℕ → Write
  failed : Errno → Write

abbrev pub emit : TcpConnection → Effect → TcpConnection
emit c e = record c { effects = c.effects ++ (e ∷ []) }

-- The channel's `update()` after a change of its mask.
abbrev pub with_channel : TcpConnection → Channel → TcpConnection
with_channel c channel = emit (record c { channel = channel }) (update_channel channel)

abbrev pub set_state : TcpConnection → StateE → TcpConnection
set_state c s = record c { state = s }

-- `if (callback) loop_->queueInLoop(…)`
abbrev pub queue_if : Bool → TcpConnection → Functor → TcpConnection
queue_if is_set c f = if is_set then emit c (queued f) else c

unfoldable pub is_disconnected : StateE → Bool
is_disconnected disconnected = true
is_disconnected s = false

unfoldable pub is_connected : StateE → Bool
is_connected connected = true
is_connected s = false

unfoldable pub is_disconnecting : StateE → Bool
is_disconnecting disconnecting = true
is_disconnecting s = false

unfoldable pub is_connecting : StateE → Bool
is_connecting connecting = true
is_connecting s = false

-- `kConnected` or `kDisconnecting`.
unfoldable pub is_open : StateE → Bool
is_open connected = true
is_open disconnecting = true
is_open s = false

-- `errno == EPIPE || errno == ECONNRESET`
unfoldable pub is_fault : Errno → Bool
is_fault pipe = true
is_fault reset = true
is_fault e = false

-- `if (!channel_->isWriting()) channel_->enableWriting();`
unfoldable pub watch_writing : TcpConnection → TcpConnection
watch_writing c =
    if not (is_writing c.channel) then with_channel c (enable_writing c.channel) else c

-- Whether `remaining` more bytes reach the high-water mark from below, and somebody wants to know.
unfoldable pub is_crossing : TcpConnection → ℕ → Bool
is_crossing c remaining =
    let old = readable_bytes c.output_buffer in
    leb c.high_water_mark (add_size old remaining)
    && (ltb old c.high_water_mark && c.high_water_mark_callback)

-- The effects so far with the warning of the high-water mark, if it is due.
unfoldable pub warned : TcpConnection → ℕ → List Effect
warned c remaining =
    if is_crossing c remaining
    then c.effects
      ++ (queued (high_water (add_size (readable_bytes c.output_buffer) remaining)) ∷ [])
    else c.effects

unfoldable pub keep_bytes : TcpConnection → ℕ → List ℕ → Option TcpConnection
keep_bytes c remaining rest = do
  let effects = warned c remaining
  output ← append c.output_buffer rest
  some (watch_writing (record c { effects = effects; output_buffer = output }))

-- The second half of `sendInLoop`: what was not written goes to the output buffer.
unfoldable pub keep_rest : TcpConnection → List ℕ → ℕ → ℕ → Bool → Option TcpConnection
keep_rest c bytes nwrote remaining fault = do
  assert (leb remaining (length bytes))
  if not fault && ltb 0 remaining then keep_bytes c remaining (drop nwrote bytes) else some c

-- The direct write, if there is one.
unfoldable pub write_now : TcpConnection → List ℕ → Write → Option TcpConnection
write_now c bytes (took n) =
    let remaining = sub_size (length bytes) n in
    let sent = emit c (wrote (take n bytes)) in
    let told = queue_if (remaining == 0 && c.write_complete_callback) sent write_complete in
    keep_rest told bytes n remaining false
write_now c bytes (failed e) = keep_rest c bytes 0 (length bytes) (is_fault e)

unfoldable pub run_send : TcpConnection → List ℕ → Write → Option TcpConnection
run_send c bytes w =
    if is_disconnected c.state
    then some c
    else if not (is_writing c.channel) && readable_bytes c.output_buffer == 0
    then write_now c bytes w
    else keep_rest c bytes 0 (length bytes) false

-- `send(const StringPiece &)`; `here` is whether the caller is in the loop's thread.
unfoldable pub send : TcpConnection → Bool → List ℕ → Write → Option TcpConnection
send c here bytes w =
    if is_connected c.state
    then (if here then run_send c bytes w else some (emit c (queued (send_in_loop bytes))))
    else some c

-- `send(Buffer *)`: the buffer is emptied, whoever calls.
unfoldable pub send_buffer : TcpConnection → Bool → Buffer → Write → Option (TcpConnection × Buffer)
send_buffer c here b w =
    if is_connected c.state
    then (if here
        then (do
          c' ← run_send c (slice b.buffer (peek b) (begin_write b)) w
          some (c', retrieve_all b))
        else (do
          (bytes, left) ← retrieve_all_as_string b
          some (emit c (queued (send_in_loop bytes)), left)))
    else some (c, b)

unfoldable pub run_shutdown : TcpConnection → TcpConnection
run_shutdown c = if not (is_writing c.channel) then emit c shut_write else c

unfoldable pub shutdown : TcpConnection → Bool → TcpConnection
shutdown c here =
    if is_connected c.state
    then (let closing = set_state c disconnecting in
        if here then run_shutdown closing else emit closing (queued shutdown_in_loop))
    else c

unfoldable pub handle_close : TcpConnection → Option TcpConnection
handle_close c = do
  assert (is_open c.state)
  let closed = with_channel (set_state c disconnected) (disable_all c.channel)
  some (emit (emit closed on_connection) on_close)

unfoldable pub force_close : TcpConnection → TcpConnection
force_close c =
    if is_open c.state then emit (set_state c disconnecting) (queued force_close_in_loop) else c

unfoldable pub run_force_close : TcpConnection → Option TcpConnection
run_force_close c = if is_open c.state then handle_close c else some c

unfoldable pub start_read_in_loop : TcpConnection → TcpConnection
start_read_in_loop c =
    if not c.reading || not (is_reading c.channel)
    then record (with_channel c (enable_reading c.channel)) { reading = true }
    else c

unfoldable pub stop_read_in_loop : TcpConnection → TcpConnection
stop_read_in_loop c =
    if c.reading || is_reading c.channel
    then record (with_channel c (disable_reading c.channel)) { reading = false }
    else c

unfoldable pub connect_established : TcpConnection → Option TcpConnection
connect_established c = do
  assert (is_connecting c.state)
  let up = with_channel (set_state c connected) (enable_reading (tie c.channel))
  some (emit up on_connection)

unfoldable pub connect_destroyed : TcpConnection → Option TcpConnection
connect_destroyed c = do
  let down = emit (with_channel (set_state c disconnected) (disable_all c.channel)) on_connection
  let last = if is_connected c.state then down else c
  channel ← remove last.channel
  some (emit (record last { channel = channel }) (remove_channel channel))

-- What `readFd` reports decides: a message, the end of the stream, or an error that is logged.
unfoldable pub after_read : TcpConnection → ReadFd → Option TcpConnection
after_read c (error e) = some c
after_read c (count n) = if n == 0 then handle_close c else some (emit c on_message)

unfoldable pub handle_read : TcpConnection → Readv → Option TcpConnection
unfolding after_read
handle_read c r = do
  (n, input) ← read_fd c.input_buffer r
  after_read (record c { input_buffer = input }) n

-- Everything is written: writing is no longer watched for, and a pending shutdown goes through.
unfoldable pub drained : TcpConnection → TcpConnection
unfolding run_shutdown
drained c =
    let idle = with_channel c (disable_writing c.channel) in
    let told = queue_if c.write_complete_callback idle write_complete in
    if is_disconnecting c.state then run_shutdown told else told

unfoldable pub written : TcpConnection → ℕ → Option TcpConnection
unfolding drained
written c n =
    if ltb 0 n
    then (do
      let output = c.output_buffer
      let sent = slice output.buffer (peek output) (peek output + n)
      left ← retrieve output n
      let after = emit (record c { output_buffer = left }) (wrote sent)
      some (if readable_bytes left == 0 then drained after else after))
    else some c

unfoldable pub handle_write : TcpConnection → Write → Option TcpConnection
unfolding written
handle_write c w =
    if is_writing c.channel then elim w [ took n ↦ written c n | failed e ↦ some c ] else some c

unfoldable pub state_to_string : StateE → List ℕ
state_to_string disconnected = codes "kDisconnected"
state_to_string connecting = codes "kConnecting"
state_to_string connected = codes "kConnected"
state_to_string disconnecting = codes "kDisconnecting"

-- `forceCloseWithDelay`, up to the timer, whose callback is `force_close`.
unfoldable pub force_close_with_delay : TcpConnection → TcpConnection
force_close_with_delay c =
    if is_open c.state then emit (set_state c disconnecting) (queued delayed_force_close) else c
