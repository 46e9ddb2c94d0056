-- ===== src/Reactor.antt =====
-- The server's event loop and threads: src/reactor and src/include/reactor.
pub mod Acceptor
pub mod Connections
pub mod EchoServer
pub mod EventLoop
pub mod InetAddress
pub mod KeyServer
pub mod MutexLock
pub mod Sessions
pub mod TaskQueue
pub mod TcpConnection
pub mod TcpServer
pub mod Thread
pub mod ThreadPool
pub mod WebServer
pub mod Socket
pub mod SocketIo
