-- ===== src/Gateway.antt =====
-- src/gateway: the exchange thread. The receiver's JSON, the ZeroMQ sockets and the publisher's and
-- the writer's output are third-party or I/O, and are left out.
pub mod Events
pub mod Exchange
pub mod Translate
pub mod Routing
pub mod Loop
pub mod Drain
pub mod Publish
pub mod Worker
pub mod Service
