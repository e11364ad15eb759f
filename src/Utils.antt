-- ===== src/Utils.antt =====
-- libp2p/utils: the byte queue, the offset sequence and the address tree.
pub mod ZeroQueue
pub mod IpTree
mod Tests
