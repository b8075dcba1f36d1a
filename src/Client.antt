-- ===== src/Client.antt =====
-- client/: the streams between two participants, the router over them and the key generation.
pub mod Files
pub mod Stream
pub mod Noise
pub mod Identity
pub mod Keys
pub mod Router
pub mod Dkg
