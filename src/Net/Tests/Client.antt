-- ===== src/Net/Tests/Client.antt =====
-- The theorems on net/TcpClient.cc at a client whose first connection is there.
use slack.Base.{ℕ, ◌≡◌, Option, some, none, false, refl, Returns}
use slack.Net.Channel
use slack.Net.Connector.{
  under_way, connected, start, start_in_loop, is_idle, try_connect, begin_connecting, handle_write,
  write_in, remove_and_reset_channel, established,
}
use slack.Net.TcpConnection.{is_connecting, connect_established, is_open, TcpConnection}
use slack.Net.TcpServer.{new_connection_on}
use slack.Net.TcpClient.{
  TcpClient, new_client, connect_client, connector_writes, new_connection, close_connection,
}
use slack.Net.TcpClient.Steps.{
  Steps, done, more, connects, writes, Steps-connection, close_connection-connect_client,
}

abbrev no_connection : ℕ → TcpConnection
no_connection i = new_connection_on 0 false false

abbrev client : TcpClient
client = new_client false false no_connection

abbrev or_client : TcpClient → Option TcpClient → TcpClient
or_client c none = c
or_client c (some d) = d

abbrev attempt : TcpClient
attempt = or_client client (connect_client client 5 under_way)

abbrev open_client : TcpClient
open_client = or_client attempt (connector_writes attempt false false false)

open_client-Steps : Steps client open_client
unfolding connect_client start start_in_loop is_idle try_connect begin_connecting connector_writes
    handle_write write_in remove_and_reset_channel established new_connection connect_established
    is_connecting Channel.disable_all Channel.remove
open_client-Steps = more (more done (connects 5 under_way refl)) (writes false false false refl)

Steps-connection_example :
    (open_client.connection ≡ some 1) × (open_client.connector.state ≡ connected)
unfolding connect_client start start_in_loop is_idle try_connect begin_connecting connector_writes
    handle_write write_in remove_and_reset_channel established new_connection connect_established
    is_connecting Channel.disable_all Channel.remove is_open
Steps-connection_example =
    Steps-connection false false no_connection open_client 1 open_client-Steps refl refl

close_connection-connect_client_example :
    Returns
      (close_connection open_client 1 6 under_way)
      (λ d. (d.connection ≡ none) × (connect_client d 7 under_way ≡ none))
unfolding connect_client start start_in_loop is_idle try_connect begin_connecting connector_writes
    handle_write write_in remove_and_reset_channel established new_connection connect_established
    is_connecting Channel.disable_all Channel.remove is_open
close_connection-connect_client_example =
    close_connection-connect_client false false no_connection open_client 1 6 7 under_way under_way
      open_client-Steps refl refl refl
