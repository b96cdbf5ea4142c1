-- ===== src/Lib.antt =====
-- A model of Slack, a C++ network library with one event loop per thread, of its HTTP server and its logging.
--
-- A TcpConnection owns a socket, a Channel (the mask of events that its loop watches for) and two
-- Buffers. The loop's poller calls the channel, the channel calls the connection's handlers, and these
-- read into the input buffer, write from the output buffer, and call the user. HttpServer is such a
-- user: it keeps an HttpContext for each connection, feeds it the input buffer, and sends an
-- HttpResponse for each HttpRequest. A TcpServer makes the connections, gives each of them to a loop,
-- and keeps them in a map until they close. A Logger writes a line into a LogStream; AsyncLogging
-- takes lines from all threads into buffers, which one thread appends to a LogFile.
--
-- Which file models what:
--   * Base: names of the libraries, Boolean tests, lists, and `Option` as the result of a call
--     (`none` is a failed `assert`: the default build is a debug build).
--   * Std: what the code uses of C++: std::search, std::find, std::string, isspace, snprintf of a
--     number, std::map from strings to strings as a sorted association list.
--   * Net.Buffer: src/net/Buffer.h, the vector as a list of bytes and the two indices, with size_t
--     arithmetic modulo 2^64. Below it Valid (the invariant, and `Holds` with the readable bytes),
--     Contents, Refine and Retrieve (each operation against the sequence of bytes), Queue (a whole
--     client), Ints (the integers in network order), ReadFd (src/net/Buffer.cc).
--   * Net.Endian: src/net/Endian.h.
--   * Net.Channel: src/net/Channel.h and Channel.cc; below it Events (the mask under every call).
--   * Net.TcpConnection: src/net/TcpConnection.cc. A call gives a new state and a list of effects in
--     order: bytes written, changes passed to the loop, functors queued, callbacks. Below it Stream and
--     Flush (the bytes on their way out), Close (shutting down), State (the life of a connection), Reading.
--   * Net.Epoll: src/net/poller/EpollPoller.cc, with Interest on what the kernel's list becomes.
--   * Net.EventLoopThreadPool and Net.Connector: src/net/EventLoopThreadPool.cc and src/net/Connector.cc.
--   * Net.EventLoop: src/net/EventLoop.cc; the loop's thread and other threads as one step relation.
--     Below it Steps and Invariant, Wakeup (every interleaving) and Pending (doPendingFunctors as a whole).
--   * Net.TimerQueue: src/net/TimerQueue.cc and Timer.cc, with the timers that are alive as a list of
--     objects with addresses. Below it Represents (the two sets against one sorted list of timers; Timers,
--     Order and Operations carry its lemmas), Expiry, Handle, Commands, Restart, Round and Cancel (handleRead
--     with callbacks that add and cancel timers), Calls (addTimer, cancel and howMuchTimeFromNow outside a round).
--   * Net.TcpServer: src/net/TcpServer.cc, with the queues of all loops and every TcpConnection behind its
--     pointer. A functor is taken off its queue and called in one step, as are a new connection, a close, and
--     any other call on a connection. Below it Update (functions changed at one place, and names), Invariant
--     (the stages of a connection and the functor that takes it further), Functors, Queues, Accept, and Steps.
--   * Net.EventLoopThread: src/net/EventLoopThread.cc, with Steps on every interleaving of its two threads.
--   * Net.TcpClient: src/net/TcpClient.cc over the connector and its connection. Below it Invariant, Closing and Steps.
--   * Log.Convert, Log.FixedBuffer, Log.LogStream: src/log/LogStream.h and LogStream.cc.
--   * Log.Logging: src/log/Logging.h and Logging.cc, with Lines on the text that goes to the output.
--   * Log.LogFile: src/log/LogFile.cc; a file is the second of its name and its bytes. Below it Contents (what the files
--     hold) and Rolls (when there is another file).
--   * Log.AsyncLogging: src/log/AsyncLogging.cc, where the logging thread has three parts: the test of its loop, its critical
--     section, and writing. Below it Invariant, Collect, Writing and Steps (every interleaving), and Files (the way
--     from a line that is appended to the files of a LogFile).
--   * Net.Http.Request, Context, Response, Server: the files of src/net/http of those names. Below
--     Context, Pure states the parser on a sequence of bytes, which Progress, Pieces, RequestLine and
--     RoundTrip reason about; below Server, Answer and Abort.
--   * Threads.BoundedBlockingQueue: src/base/BoundedBlockingQueue.h, with Steps on every interleaving.
--   * Threads.ThreadPool: src/base/ThreadPool.cc, with Invariant, and Steps on every interleaving.
--   * Net.Tests, Log.Tests, Threads.Tests: the theorems at concrete inputs.
--
-- Bounds: a vector is below 2^63 bytes, as std::vector has it. The
-- loop of parseRequest runs on fuel, one round more than there are readable bytes; a round that goes on
-- takes a line end off the buffer, so this is enough. In the states kExpectBody
-- and kGotAll the loop would never end; HttpServer never calls the parser there. The loops of convert
-- and convertHex run on one round more than the value, which has no more digits than that. Times are not
-- negative, addresses have no upper bound, and counts of timers and wake-ups do not overflow.
--
-- The number of a connection stays in the range of an `int`: beyond it there is no result.
--
-- Parameters: the answers of readv, write, connect and epoll_wait, the user's HTTP callback, which
-- thread calls, what the callbacks of timers and functors ask of the loop, the address that new gives to
-- a timer, the text that snprintf gives, how much fwrite_unlocked takes, the times that time answers, the
-- texts of localtime_r, strerror_r and the thread's id, the size of a log buffer, and the times that Timestamp::now answers when a timerfd is set.
--
-- Not modelled: the unbounded queue, the latch, threads and locks as such, calls of the operating
-- system, the acceptor, the destructors of server, client and pool, and files that are read. A user's callback
-- is an effect, and what it calls in turn a later step, but for the callbacks of timers and the functors
-- of doPendingFunctors. Races on a connection's state are outside the model: each call is one step.
pub mod Base
pub mod Log
pub mod Net
pub mod Std
pub mod Threads
