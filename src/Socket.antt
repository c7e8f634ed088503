-- ===== src/Socket.antt =====
-- pkg/libol/socket.go and the sockets on it: clients and servers of TCP, KCP, UDP and WebSocket.
pub mod Client
pub mod Server
