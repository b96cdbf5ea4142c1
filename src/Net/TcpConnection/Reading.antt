-- ===== src/Net/TcpConnection/Reading.antt =====
-- startRead of net/TcpConnection.cc on a connection that has closed.
use slack.Net.Channel.{Channel, enable_reading}
use slack.Net.Channel
use slack.Net.TcpConnection.{TcpConnection}
