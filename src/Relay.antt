-- ===== src/Relay.antt =====
-- relay/: the relay with its channels, their queues and the interleavings of their goroutines, and the
-- multiplexer of a client over its connection to the relay.
pub mod Message
pub mod Channel
pub mod Server
pub mod Multiplexer
pub mod Delivery
pub mod Joining
