-- ===== src/Dial.antt =====
-- libp2p: what decides whether a peer or an address is dialed.
pub mod Backoff
mod Tests
