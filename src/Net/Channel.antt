-- ===== src/Net/Channel.antt =====
-- net/Channel.h and net/Channel.cc. The masks of poll(2) are numbers; what a channel asks of its loop
-- is for the caller to pass on.
pub mod Events
use Prim.Native.Nat.{bit_and, bit_or}
use slack.Std.Text.{codes, decimal}
use slack.Base.{
  ℕ, ◌+◌, ◌-◌, ◌^◌, ◌≡◌, List, [], ◌∷◌, ◌++◌, Bool, true, false, not, ◌&&◌, ◌||◌, Option, some,
  none, ◌==◌, if◌then◌else◌, assert, ◌>>=◌, ◌>>◌,
}

-- The bits of <poll.h> on Linux.
abbrev pub pollin : ℕ
pollin = 1

abbrev pub pollpri : ℕ
pollpri = 2

abbrev pub pollout : ℕ
pollout = 4

abbrev pub pollerr : ℕ
pollerr = 8

abbrev pub pollhup : ℕ
pollhup = 16

abbrev pub pollnval : ℕ
pollnval = 32

abbrev pub pollrdhup : ℕ
pollrdhup = 8192

abbrev pub none_event : ℕ
none_event = 0

abbrev pub read_event : ℕ
read_event = 3

abbrev pub write_event : ℕ
write_event = 4

-- `mask & bits`, as a condition.
unfoldable pub has : ℕ → ℕ → Bool
has mask bits = not (bit_and mask bits == 0)

-- `mask & ~bits`, of 32 bits.
unfoldable pub without : ℕ → ℕ → ℕ
without mask bits = bit_and mask (2 ^ 32 - 1 - bits)

-- `index_`: the poller's `kNew`, `kAdded` and `kDeleted`.
pub data Index : Type 0 where
  fresh added deleted : Index

pub record Channel : Type 0 where
  pub fd : ℕ
  pub events : ℕ
  pub revents : ℕ
  pub index : Index
  pub log_hup : Bool
  pub tied : Bool
  pub event_handling : Bool
  pub added_to_loop : Bool
  pub read_callback : Bool
  pub write_callback : Bool
  pub close_callback : Bool
  pub error_callback : Bool

-- The constructor: no callback is set.
unfoldable pub make : ℕ → Channel
make fd = record {
  fd = fd;
  events = 0;
  revents = 0;
  index = fresh;
  log_hup = true;
  tied = false;
  event_handling = false;
  added_to_loop = false;
  read_callback = false;
  write_callback = false;
  close_callback = false;
  error_callback = false;
}

unfoldable pub tie : Channel → Channel
tie c = record c { tied = true }

abbrev pub is_none_event : Channel → Bool
is_none_event c = c.events == none_event

abbrev pub is_reading : Channel → Bool
is_reading c = has c.events read_event

abbrev pub is_writing : Channel → Bool
is_writing c = has c.events write_event

-- `update()`: the caller hands the channel to its loop.
abbrev updated : Channel → ℕ → Channel
updated c events = record c { events = events; added_to_loop = true }

unfoldable pub enable_reading : Channel → Channel
enable_reading c = updated c (bit_or c.events read_event)

unfoldable pub disable_reading : Channel → Channel
disable_reading c = updated c (without c.events read_event)

unfoldable pub enable_writing : Channel → Channel
enable_writing c = updated c (bit_or c.events write_event)

unfoldable pub disable_writing : Channel → Channel
disable_writing c = updated c (without c.events write_event)

unfoldable pub disable_all : Channel → Channel
disable_all c = updated c none_event

-- `remove()`, before it hands the channel to its loop.
unfoldable pub remove : Channel → Option Channel
remove c = do assert (is_none_event c); some (record c { added_to_loop = false })

pub data Callback : Type 0 where
  on_close on_error on_read on_write : Callback

abbrev call : Bool → Callback → List Callback
call is_set f = if is_set then f ∷ [] else []

-- The callbacks that `handleEventWithGuard` makes, in order.
unfoldable pub handle_event_with_guard : Channel → List Callback
handle_event_with_guard c =
    (if has c.revents pollhup && not (has c.revents pollin)
      then call c.close_callback on_close
      else [])
    ++ ((if has c.revents (pollerr + pollnval) then call c.error_callback on_error else [])
        ++ ((if has c.revents (pollin + pollpri + pollrdhup)
              then call c.read_callback on_read
              else [])
            ++ (if has c.revents pollout then call c.write_callback on_write else [])))

-- `alive` is whether `tie_.lock()` gets hold of the owner.
unfoldable pub handle_event : Channel → Bool → List Callback
handle_event c alive =
    if c.tied then (if alive then handle_event_with_guard c else []) else handle_event_with_guard c

abbrev name_if : Bool → List ℕ → List ℕ
name_if b text = if b then text else []

-- `eventsToString(fd, event)`.
unfoldable pub events_to_string : ℕ → ℕ → List ℕ
events_to_string fd event =
    decimal fd
    ++ (codes ": "
        ++ (name_if (has event pollin) (codes "IN ")
            ++ (name_if (has event pollpri) (codes "PRI ")
                ++ (name_if (has event pollout) (codes "OUT ")
                    ++ (name_if (has event pollrdhup) (codes "RDHUP ")
                        ++ (name_if (has event pollerr) (codes "ERR ")
                            ++ name_if (has event pollnval) (codes "NVAL ")))))))
