-- ===== src/Kademlia.antt =====
-- libp2p/protocols/kademlia: distances, the peer registry and the routing table.
pub mod Distance
mod Tests
pub mod PeerRegistry
pub mod RoutingTable
pub mod ProbeBackoff
