-- ===== src/Util.antt =====
-- util/ and util.go: the encodings, buffers, configuration folders and files.
pub mod Base64
pub mod Hex
pub mod Buffers
pub mod Config
