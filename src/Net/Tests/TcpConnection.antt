-- ===== src/Net/Tests/TcpConnection.antt =====
-- The theorems of net/TcpConnection.cc at concrete inputs.
use slack.Base.{◌≤◌, ◌≡◌, [], ◌∷◌, true, false, none, some, Option, arith, refl, Returns}
use slack.Std.Text.{codes}
use slack.Net.Channel.{Channel, has, is_writing, enable_writing}
use slack.Net.Channel
use slack.Net.Channel.Events.{masked}
use slack.Net.TcpConnection.{
  TcpConnection, connected, default_mark, took, failed, would_block, is_disconnected, run_send,
  shutdown, handle_write, force_close, handle_close,
}
use slack.Net.TcpConnection.Stream.{stream, IsSound, Moves, accepted, run_send_lem}
use slack.Net.TcpConnection.Flush.{Flushed, handle_write_lem}
use slack.Net.TcpConnection.Close.{flush, IsClosed, flush-shutdown}
use slack.Net.TcpConnection.State.{rank, done, more, forces, shuts, Steps-rank}
use slack.Net.Tests.{buffer_of, buffer_of-Holds}

-- A connection with "hello" in its output buffer.
abbrev busy : TcpConnection
busy = record {
  state = connected;
  reading = true;
  channel = record (Channel.make 7) { events = 7; added_to_loop = true };
  input_buffer = buffer_of [];
  output_buffer = buffer_of (codes "hello");
  high_water_mark = default_mark;
  write_complete_callback = true;
  high_water_mark_callback = true;
  effects = [];
}

busy-IsSound : IsSound busy
unfolding is_disconnected has
busy-IsSound = record {
  valid = (buffer_of-Holds (codes "hello") (omega arith)).valid;
  mask = masked true true refl;
  watched = refl;
}

busy_up : is_disconnected busy.state ≡ false
unfolding is_disconnected
busy_up = refl

run_send_lem_example :
    Returns
      (run_send busy (codes "abc") (failed would_block))
      (Moves busy (accepted busy (codes "abc") (failed would_block)))
run_send_lem_example =
    run_send_lem busy-IsSound busy_up (codes "abc") (failed would_block) tt (omega arith)

handle_write_lem_example : Returns (handle_write busy (took 2)) (Flushed busy 2)
handle_write_lem_example = handle_write_lem busy-IsSound busy_up 2 (omega arith)

flush-shutdown_example :
    Returns (flush (shutdown busy true) (2 ∷ 0 ∷ 3 ∷ [])) (IsClosed (stream busy))
flush-shutdown_example = flush-shutdown busy (2 ∷ 0 ∷ 3 ∷ []) busy-IsSound refl refl refl

Steps-rank_example : rank busy.state ≤ rank (force_close (shutdown busy false)).state
Steps-rank_example =
    Steps-rank busy (force_close (shutdown busy false)) (more (more done (shuts false)) forces)

-- The connection that is left when `busy` closes.
abbrev or_busy : Option TcpConnection → TcpConnection
or_busy none = busy
or_busy (some c) = c

abbrev closed : TcpConnection
closed = or_busy (handle_close busy)
