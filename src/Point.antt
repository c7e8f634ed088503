-- ===== src/Point.antt =====
-- pkg/olap, the point: a socket to the switch and a tap, and the worker that joins them.
pub mod TapWorker
pub mod SocketWorker
pub mod Routes
pub mod Worker
