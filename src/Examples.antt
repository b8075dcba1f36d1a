-- ===== src/Examples.antt =====
-- Tests of the definitions and the theorems at concrete inputs, by component.
mod Events
mod Relays
mod Multiplexers
mod Streams
mod Clients
mod Commands
mod Networks
mod Addresses
mod Hosts
mod Shares
mod Deliveries
mod Noise
mod Files
mod Listeners
