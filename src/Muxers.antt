-- ===== src/Muxers.antt =====
-- libp2p/muxers: stream multiplexing.
pub mod Yamux
mod Tests
