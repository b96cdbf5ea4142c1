-- ===== src/Net/TcpClient.antt =====
-- net/TcpClient.cc over Connector.cc and TcpConnection.cc, in the loop's thread. A connection and a pointer to it are known by the
-- number in its name. New sockets and the answers of system calls are arguments, as for the connector.
pub mod Invariant
pub mod Closing
pub mod Steps
use slack.Base.{
  ℕ, ◌+◌, List, [], ◌∷◌, ◌++◌, Bool, true, false, ◌&&◌, Option, some, none, if◌then◌else◌, assert,
  ◌>>=◌, ◌>>◌, ◌==◌,
}
use slack.Net.Connector.{
  Connector, ConnectState, connecting, ConnectEffect, handed_over, Answer, new_connector, start,
  restart, start_in_loop, stop_in_loop, handle_write, handle_error, reset_channel,
}
use slack.Net.TcpConnection.{
  TcpConnection, connect_established, connect_destroyed, handle_close, shutdown,
}
use slack.Net.TcpServer.{new_connection_on, update_at}

-- The functors that wait in the loop's queue: `connectDestroyed` of a connection, and `Connector::stopInLoop`.
pub data ClientTask : Type 0 where
  destroy_connection : ℕ → ClientTask
  stop_connector : ClientTask

pub record TcpClient : Type 0 where
  pub connector : Connector
  pub retry : Bool
  pub connect : Bool
  pub write_complete_callback : Bool
  pub next_conn_id : ℕ
  pub connection : Option ℕ
  pub conns : ℕ → TcpConnection
  pub pending : List ClientTask

-- The constructor; what `conns` has for a number that is not in use is of no meaning.
abbrev pub new_client : Bool → Bool → (ℕ → TcpConnection) → TcpClient
new_client retry write_complete conns = record {
  connector = new_connector;
  retry = retry;
  connect = true;
  write_complete_callback = write_complete;
  next_conn_id = 1;
  connection = none;
  conns = conns;
  pending = [];
}

-- `TcpClient::connect`
unfoldable pub connect_client : TcpClient → ℕ → Answer → Option TcpClient
connect_client c fd a = do
  k ← start c.connector fd a
  some (record c { connect = true; connector = k })

-- `if (connection_) connection_->shutdown();`
abbrev pub shut_current : Option ℕ → TcpClient → TcpClient
shut_current none c = c
shut_current (some i) c = record c { conns = update_at c.conns i (shutdown (c.conns i) true) }

unfoldable pub disconnect : TcpClient → TcpClient
disconnect c = shut_current c.connection (record c { connect = false })

-- `TcpClient::stop` with `Connector::stop`, which queues its functor.
unfoldable pub stop_client : TcpClient → TcpClient
stop_client c = record c {
  connect = false;
  connector = record c.connector { connect = false };
  pending = c.pending ++ (stop_connector ∷ []);
}

unfoldable pub new_connection : TcpClient → ℕ → Bool → Option TcpClient
new_connection c fd reading = do
  d ← connect_established (new_connection_on fd reading c.write_complete_callback)
  some (record c {
    next_conn_id = c.next_conn_id + 1;
    connection = some c.next_conn_id;
    conns = update_at c.conns c.next_conn_id d;
  })

-- The socket of the last effect, where that hands one over.
abbrev pub handed_by : ConnectEffect → Option ℕ
handed_by (handed_over fd) = some fd
handed_by e = none

abbrev pub last_handed : List ConnectEffect → Option ℕ
last_handed [] = none
last_handed (e ∷ []) = handed_by e
last_handed (e ∷ f ∷ es) = last_handed (f ∷ es)

abbrev pub take_over : Option ℕ → TcpClient → Bool → Option TcpClient
take_over none c reading = some c
take_over (some fd) c reading = new_connection c fd reading

abbrev pub was_connecting : ConnectState → Bool
was_connecting connecting = true
was_connecting s = false

-- `Connector::handleWrite`, with its callback, which is `newConnection`.
unfoldable pub connector_writes : TcpClient → Bool → Bool → Bool → Option TcpClient
unfolding new_connection
connector_writes c failed self reading = do
  k ← handle_write c.connector failed self
  take_over (if was_connecting c.connector.state then last_handed k.effects else none)
      (record c { connector = k }) reading

-- `connection_ == conn`
abbrev pub is_current : Option ℕ → ℕ → Bool
is_current none i = false
is_current (some j) i = j == i

-- `connector_->restart()`, where that is wanted.
abbrev pub again_if : Bool → TcpClient → ℕ → Answer → Option TcpClient
again_if true d fd a = do k ← restart d.connector fd a; some (record d { connector = k })
again_if false d fd a = some d

unfoldable pub remove_connection : TcpClient → ℕ → ℕ → Answer → Option TcpClient
remove_connection c i fd a = do
  assert (is_current c.connection i)
  let d = record c { connection = none; pending = c.pending ++ (destroy_connection i ∷ []) }
  again_if (c.retry && c.connect) d fd a

-- `handleClose` of a connection, with its close callback.
unfoldable pub close_connection : TcpClient → ℕ → ℕ → Answer → Option TcpClient
unfolding remove_connection
close_connection c i fd a = do
  d ← handle_close (c.conns i)
  remove_connection (record c { conns = update_at c.conns i d }) i fd a

abbrev pub run_first : TcpClient → List ClientTask → Option TcpClient
run_first c [] = some c
run_first c (destroy_connection i ∷ ts) = do
  d ← connect_destroyed (c.conns i)
  some (record c { pending = ts; conns = update_at c.conns i d })
run_first c (stop_connector ∷ ts) = do
  k ← stop_in_loop c.connector
  some (record c { pending = ts; connector = k })

-- The next functor of the queue.
unfoldable pub run_next : TcpClient → Option TcpClient
run_next c = run_first c c.pending
