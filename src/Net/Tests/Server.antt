-- ===== src/Net/Tests/Server.antt =====
-- The theorems on net/TcpServer.cc at a server with two more loops, one of whose connections comes and goes.
use slack.Base.{
  ℕ, ◌≡◌, ◌⊎◌, inl, List, [], ◌∷◌, true, false, Option, some, none, arith, refl, ap, sym, ◌∙◌, pos,
  abs, Returns,
}
use slack.Std.Text.{codes}
use slack.Log.Convert.{convert}
use slack.Log.Convert.Digits.{length-convert, read_text-convert, read_text}
use slack.Net.Channel
use slack.Std.Scan
use slack.Net.TcpConnection.{
  is_open, is_connecting, connect_established, connect_destroyed, handle_close, is_connected,
  disconnected,
}
use slack.Net.EventLoopThreadPool.{LoopPool, get_next_loop, take_turn}
use slack.Net.TcpServer.{
  Connection, TcpServer, new_server, new_connection_on, new_connection, run_in_loop, run_task,
  run_next, close_connection, remove_in_loop,
}
use slack.Net.TcpServer.Update.{IsDecimal}
use slack.Net.TcpServer.Steps.{
  Step, Steps, done, more, accepts, runs, closes, IsNew, Steps-run_next, Steps-close_connection,
  Steps-connections, Steps-settled,
}

abbrev decimal : ℕ → List ℕ
decimal i = convert (pos i)

decimal-IsDecimal : IsDecimal decimal
decimal-IsDecimal = record {
  short = λ i h. length-convert (pos i) 9 (omega (arith, h));
  distinct = λ i j e.
      ap abs (sym (read_text-convert (pos i)) ∙ ap read_text e ∙ read_text-convert (pos j));
}

abbrev two_loops : LoopPool
two_loops = record { base_loop = 0; started = true; next = 0; loops = 1 ∷ 2 ∷ [] }

abbrev no_connection : Connection
no_connection = record { name = []; loop = 0; connection = new_connection_on 0 false false }

abbrev http_server : TcpServer
http_server = new_server (codes "http") (codes "127.0.0.1:80") two_loops false (λ i. no_connection)

http_server-IsNew : IsNew http_server
http_server-IsNew = ((refl, inl refl), omega arith, refl, λ l. refl)

abbrev or_old : TcpServer → Option TcpServer → TcpServer
or_old s none = s
or_old s (some t) = t

abbrev accepted : TcpServer
accepted = or_old http_server (new_connection decimal http_server 0 7 false)

abbrev running : TcpServer
running = or_old accepted (run_next accepted 1)

abbrev closing : TcpServer
closing = or_old running (close_connection running 1 1)

abbrev removed : TcpServer
removed = or_old closing (run_next closing 0)

abbrev destroyed : TcpServer
destroyed = or_old removed (run_next removed 1)

running-Steps : Steps decimal http_server running
unfolding new_connection get_next_loop take_turn run_in_loop run_task run_next connect_established
    is_connecting convert
running-Steps = more (more done (accepts 7 false refl)) (runs 1 refl)

closing-Steps : Steps decimal http_server closing
unfolding new_connection get_next_loop take_turn run_in_loop run_task run_next connect_established
    is_connecting close_connection handle_close is_open convert
closing-Steps = more running-Steps (closes 1 refl refl refl)

destroyed-Steps : Steps decimal http_server destroyed
unfolding new_connection get_next_loop take_turn run_in_loop run_task run_next connect_established
    is_connecting close_connection handle_close is_open convert remove_in_loop connect_destroyed
    is_connected Channel.remove Channel.disable_all Scan.same
destroyed-Steps = more (more closing-Steps (runs 0 refl)) (runs 1 refl)

Steps-run_next_example : Returns (run_next closing 0) (Step decimal closing)
Steps-run_next_example =
    Steps-run_next decimal decimal-IsDecimal http_server closing 0 http_server-IsNew closing-Steps

Steps-close_connection_example : Returns (close_connection running 1 1) (Step decimal running)
unfolding new_connection get_next_loop take_turn run_in_loop run_task run_next connect_established
    is_connecting is_open convert
Steps-close_connection_example =
    Steps-close_connection decimal decimal-IsDecimal http_server running 1 http_server-IsNew
      running-Steps refl refl

Steps-connections_example :
    (closing.connections (closing.conns 1).name ≡ some 1)
    ⊎ (closing.connections (closing.conns 1).name ≡ none)
      × ((closing.conns 1).connection.state ≡ disconnected)
unfolding new_connection get_next_loop take_turn run_in_loop run_task run_next connect_established
    is_connecting close_connection handle_close is_open convert
Steps-connections_example =
    Steps-connections decimal decimal-IsDecimal http_server closing 1 http_server-IsNew
      closing-Steps refl

Steps-settled_example :
    (is_open (destroyed.conns 1).connection.state ≡ true)
      × (destroyed.connections (destroyed.conns 1).name ≡ some 1)
    ⊎ ((destroyed.conns 1).connection.state ≡ disconnected)
      × (destroyed.connections (destroyed.conns 1).name ≡ none)
      × ((destroyed.conns 1).connection.channel.added_to_loop ≡ false)
unfolding new_connection get_next_loop take_turn run_in_loop run_task run_next connect_established
    is_connecting close_connection handle_close is_open convert remove_in_loop connect_destroyed
    is_connected Channel.remove Channel.disable_all Scan.same
Steps-settled_example =
    Steps-settled decimal decimal-IsDecimal http_server destroyed 1 http_server-IsNew
      destroyed-Steps (λ l. ground arith) refl
