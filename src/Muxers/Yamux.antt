-- ===== src/Muxers/Yamux.antt =====
-- libp2p/muxers/yamux/yamux.nim: the frame header, a channel with its flow control, and the session.
pub mod Header
pub mod Channel
pub mod Session
