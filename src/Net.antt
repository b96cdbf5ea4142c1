-- ===== src/Net.antt =====
-- The network library, src/net.
mod Tests
pub mod Endian
pub mod Buffer
pub mod Http
pub mod Channel
pub mod TcpConnection
pub mod EventLoop
pub mod TimerQueue
pub mod Epoll
pub mod EventLoopThreadPool
pub mod EventLoopThread
pub mod Connector
pub mod TcpServer
pub mod TcpClient
