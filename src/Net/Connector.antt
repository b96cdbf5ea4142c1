-- ===== src/Net/Connector.antt =====
-- net/Connector.cc, in its loop's thread. What a call does to the outside is a list of effects in order;
-- a new socket and the results of system calls are arguments.
pub mod Sockets
pub mod Balance
use slack.Base.{
  ℕ, ◌+◌, ◌-◌, ◌*◌, ◌≡◌, List, [], ◌∷◌, ◌++◌, Bool, true, false, not, Option, some, none,
  if◌then◌else◌, assert, ◌>>=◌, ◌>>◌, min,
}
use slack.Net.Channel.{Channel, enable_writing, disable_all, remove}
use slack.Net.Channel

-- The states of net/Connector.h; `idle` is kDisconnected.
pub data ConnectState : Type 0 where
  idle connecting connected : ConnectState

pub data ConnectEffect : Type 0 where
  opened : ℕ → ConnectEffect
  closed : ℕ → ConnectEffect
  handed_over : ℕ → ConnectEffect
  updated : Channel → ConnectEffect
  removed : Channel → ConnectEffect
  reset_queued : ConnectEffect
  start_after : ℕ → ConnectEffect

-- `resets` is how many functors of `removeAndResetChannel` wait in the loop's queue.
pub record Connector : Type 0 where
  pub connect : Bool
  pub state : ConnectState
  pub channel : Option Channel
  pub retry_delay_ms : ℕ
  pub resets : ℕ
  pub effects : List ConnectEffect

abbrev pub max_retry_delay_ms : ℕ
max_retry_delay_ms = 30 * 1000

abbrev pub init_retry_delay_ms : ℕ
init_retry_delay_ms = 500

abbrev pub new_connector : Connector
new_connector = record {
  connect = false;
  state = idle;
  channel = none;
  retry_delay_ms = init_retry_delay_ms;
  resets = 0;
  effects = [];
}

abbrev pub effect : Connector → ConnectEffect → Connector
effect c e = record c { effects = c.effects ++ (e ∷ []) }

unfoldable pub is_idle : ConnectState → Bool
is_idle idle = true
is_idle s = false

-- What `connect` answers, by the groups of the `switch`.
pub data Answer : Type 0 where
  under_way try_again give_up : Answer

unfoldable pub retry : Connector → ℕ → Connector
retry c fd =
    let shut = effect (record c { state = idle }) (closed fd) in
    if c.connect
    then record (effect shut (start_after c.retry_delay_ms)) {
      retry_delay_ms = min (c.retry_delay_ms * 2) max_retry_delay_ms;
    }
    else shut

abbrev pub is_none : Option Channel → Bool
is_none none = true
is_none (some c) = false

-- `Connector::connecting`.
unfoldable pub begin_connecting : Connector → ℕ → Option Connector
begin_connecting c fd = do
  assert (is_none c.channel)
  let channel =
      enable_writing (record (Channel.make fd) { write_callback = true; error_callback = true })
  some (effect (record c { state = connecting; channel = some channel }) (updated channel))

-- `Connector::connect`, with the descriptor of the new socket.
unfoldable pub try_connect : Connector → ℕ → Answer → Option Connector
try_connect c fd under_way = begin_connecting (effect c (opened fd)) fd
try_connect c fd try_again = some (retry (effect c (opened fd)) fd)
try_connect c fd give_up = some (effect (effect c (opened fd)) (closed fd))

unfoldable pub start_in_loop : Connector → ℕ → Answer → Option Connector
start_in_loop c fd a = do assert (is_idle c.state); if c.connect then try_connect c fd a else some c

unfoldable pub start : Connector → ℕ → Answer → Option Connector
start c fd a = start_in_loop (record c { connect = true }) fd a

unfoldable pub restart : Connector → ℕ → Answer → Option Connector
restart c fd a =
    start_in_loop (record c { state = idle; retry_delay_ms = init_retry_delay_ms; connect = true })
      fd a

-- `removeAndResetChannel`, which dereferences `channel_`; the reset itself is queued.
unfoldable pub remove_and_reset_channel : Connector → Option (ℕ × Connector)
remove_and_reset_channel c = do
  channel ← c.channel
  let quiet = disable_all channel
  gone ← remove quiet
  some (
    gone.fd,
    effect
        (effect (effect (record c { channel = some gone; resets = c.resets + 1 }) (updated quiet))
          (removed gone))
        reset_queued,
  )

-- A functor that waited.
unfoldable pub reset_channel : Connector → Connector
reset_channel c = record c { channel = none; resets = c.resets - 1 }

unfoldable pub stop_in : ConnectState → Connector → Option Connector
stop_in idle c = some c
stop_in connected c = some c
stop_in connecting c = do
  (fd, c') ← remove_and_reset_channel (record c { state = idle })
  some (retry c' fd)

unfoldable pub stop_in_loop : Connector → Option Connector
stop_in_loop c = stop_in c.state c

unfoldable pub established : Connector → ℕ → Connector
established c fd =
    let up = record c { state = connected } in
    if c.connect then effect up (handed_over fd) else effect up (closed fd)

-- `failed` is `SO_ERROR`, `self` is whether the socket is connected to itself.
unfoldable pub write_in : ConnectState → Connector → Bool → Bool → Option Connector
write_in idle c failed self = some c
write_in connected c failed self = none
write_in connecting c failed self = do
  (fd, c') ← remove_and_reset_channel c
  some (if failed then retry c' fd else if self then retry c' fd else established c' fd)

unfoldable pub handle_write : Connector → Bool → Bool → Option Connector
handle_write c failed self = write_in c.state c failed self

unfoldable pub error_in : ConnectState → Connector → Option Connector
error_in idle c = some c
error_in connected c = some c
error_in connecting c = do (fd, c') ← remove_and_reset_channel c; some (retry c' fd)

unfoldable pub handle_error : Connector → Option Connector
handle_error c = error_in c.state c
