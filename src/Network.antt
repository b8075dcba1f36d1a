-- ===== src/Network.antt =====
-- network/: addresses, connections and their framing, the local connections, the encoders with their
-- registry, the dispatchers and the router.
pub mod Frame
pub mod Listener
pub mod Dispatch
pub mod Encoding
pub mod Router
pub mod Local
pub mod Conn
pub mod Host
pub mod Address
