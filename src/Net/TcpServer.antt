-- ===== src/Net/TcpServer.antt =====
-- net/TcpServer.cc over TcpConnection.cc, the round robin of EventLoopThreadPool.cc, and the queues of the loops. A
-- connection and a pointer to it are known by the number in its name; a loop is known by a number too.
pub mod Update
pub mod Invariant
pub mod Queues
pub mod Accept
pub mod Functors
pub mod Steps
use slack.Std.Text.{codes}
use slack.Std.Scan.{same}
use slack.Base.{
  ℕ, ◌+◌, ◌^◌, List, [], ◌∷◌, ◌++◌, Bool, true, false, Option, some, none, if◌then◌else◌, assert,
  ◌>>=◌, ◌>>◌, ◌==◌, ltb, take,
}
use slack.Net.Buffer.{fresh, initial_size}
use slack.Net.Channel.{make}
use slack.Net.EventLoopThreadPool.{LoopPool, get_next_loop}
use slack.Net.TcpConnection.{
  TcpConnection, connecting, default_mark, is_open, connect_established, connect_destroyed,
  handle_close,
}

-- What the server puts into the queue of a loop.
pub data Task : Type 0 where
  establish remove destroy : ℕ → Task

pub record Connection : Type 0 where
  pub name : List ℕ
  pub loop : ℕ
  pub connection : TcpConnection

-- `connections` is the map from names; `conns` is what the pointers lead to. `pending` has the functors that a loop has yet to
-- call, of this server only.
pub record TcpServer : Type 0 where
  pub name : List ℕ
  pub ip_port : List ℕ
  pub base_loop : ℕ
  pub pool : LoopPool
  pub write_complete_callback : Bool
  pub next_conn_id : ℕ
  pub connections : List ℕ → Option ℕ
  pub conns : ℕ → Connection
  pub pending : ℕ → List Task

-- The constructor of TcpConnection, with what `reading_` happens to be; then the callbacks that a server sets.
abbrev pub new_connection_on : ℕ → Bool → Bool → TcpConnection
new_connection_on fd reading write_complete = record {
  state = connecting;
  reading = reading;
  channel = record (make fd) {
    read_callback = true;
    write_callback = true;
    close_callback = true;
    error_callback = true;
  };
  input_buffer = fresh initial_size;
  output_buffer = fresh initial_size;
  high_water_mark = default_mark;
  write_complete_callback = write_complete;
  high_water_mark_callback = false;
  effects = [];
}

-- A function, changed at one place.
abbrev pub update_at {ℓ} : {A : Type ℓ} → (ℕ → A) → ℕ → A → ℕ → A
update_at f i a j = if i == j then a else f j

-- `map[k] = i`, and `erase(k)`.
abbrev pub map_to : (List ℕ → Option ℕ) → List ℕ → Option ℕ → List ℕ → Option ℕ
map_to m k o j = if same k j then o else m j

-- How many entries `erase` removes.
abbrev pub count_of : Option ℕ → ℕ
count_of none = 0
count_of (some i) = 1

abbrev pub set_connection : TcpServer → ℕ → TcpConnection → TcpServer
set_connection s i c = record s {
  conns = update_at s.conns i (record (s.conns i) { connection = c });
}

abbrev pub queue_in_loop : TcpServer → ℕ → Task → TcpServer
queue_in_loop s l t = record s { pending = update_at s.pending l (s.pending l ++ (t ∷ [])) }

-- `removeConnectionInLoop`, called in loop `here`.
unfoldable pub remove_in_loop : TcpServer → ℕ → ℕ → Option TcpServer
remove_in_loop s here i = do
  assert (here == s.base_loop)
  let n = count_of (s.connections (s.conns i).name)
  let erased = record s { connections = map_to s.connections (s.conns i).name none }
  assert (n == 1)
  some (queue_in_loop erased (s.conns i).loop (destroy i))

-- A functor that is called in loop `here`. The functors of a connection assert that this is its loop.
unfoldable pub run_task : TcpServer → ℕ → Task → Option TcpServer
unfolding remove_in_loop
run_task s here (establish i) = do
  assert (here == (s.conns i).loop)
  c ← connect_established (s.conns i).connection
  some (set_connection s i c)
run_task s here (remove i) = remove_in_loop s here i
run_task s here (destroy i) = do
  assert (here == (s.conns i).loop)
  c ← connect_destroyed (s.conns i).connection
  some (set_connection s i c)

unfoldable pub run_in_loop : TcpServer → ℕ → ℕ → Task → Option TcpServer
unfolding run_task
run_in_loop s here l t = if here == l then run_task s here t else some (queue_in_loop s l t)

-- The next functor of a loop's queue.
abbrev pub run_first : TcpServer → ℕ → List Task → Option TcpServer
run_first s here [] = some s
run_first s here (t ∷ ts) = run_task (record s { pending = update_at s.pending here ts }) here t

unfoldable pub run_next : TcpServer → ℕ → Option TcpServer
unfolding run_task
run_next s here = run_first s here (s.pending here)

-- `handleClose` of a connection in loop `here`, and its close callback, which is `removeConnection`.
unfoldable pub close_connection : TcpServer → ℕ → ℕ → Option TcpServer
unfolding run_in_loop
close_connection s here i = do
  assert (here == (s.conns i).loop)
  c ← handle_close (s.conns i).connection
  run_in_loop (set_connection s i c) here s.base_loop (remove i)

-- `snprintf` of a number is a parameter. The buffer for the end of a name has 64 characters.
module _ (decimal : ℕ → List ℕ) where
  abbrev pub conn_name : List ℕ → List ℕ → ℕ → List ℕ
  conn_name name ip_port i = name ++ take 63 (codes "-" ++ (ip_port ++ (codes "#" ++ decimal i)))

  -- `newConnection` in loop `here`. The counter is an `int`: beyond its range is undefined.
  unfoldable pub new_connection : TcpServer → ℕ → ℕ → Bool → Option TcpServer
  unfolding run_in_loop
  new_connection s here fd reading = do
    assert (here == s.base_loop)
    (l, pool) ← get_next_loop s.pool
    assert (ltb (s.next_conn_id + 1) (2 ^ 31))
    let i = s.next_conn_id
    let name = conn_name s.name s.ip_port i
    let c : Connection = record {
      name = name;
      loop = l;
      connection = new_connection_on fd reading s.write_complete_callback;
    }
    run_in_loop
        (record s {
          pool = pool;
          next_conn_id = i + 1;
          connections = map_to s.connections name (some i);
          conns = update_at s.conns i c;
        })
        here l (establish i)

-- The constructor, and `start` with a pool. What `conns` has for a number that is not in use is of no meaning.
abbrev pub new_server : List ℕ → List ℕ → LoopPool → Bool → (ℕ → Connection) → TcpServer
new_server name ip_port pool write_complete conns = record {
  name = name;
  ip_port = ip_port;
  base_loop = pool.base_loop;
  pool = pool;
  write_complete_callback = write_complete;
  next_conn_id = 1;
  connections = λ k. none;
  conns = conns;
  pending = λ l. [];
}
