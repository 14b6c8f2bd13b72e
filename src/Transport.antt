-- ===== src/Transport.antt =====
-- transport.go: the dialogues with the proxies, on a connection whose incoming bytes are given, and
-- the chain of two proxies.
pub mod Wire
pub mod Socks
pub mod Connect
pub mod Chain
