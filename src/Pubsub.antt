-- ===== src/Pubsub.antt =====
-- libp2p/protocols/pubsub: the message cache and the peer table.
pub mod MCache
mod Tests
