-- ===== src/Discovery.antt =====
-- libp2p/protocols/service_discovery: advertisements of services.
pub mod AdvertisementCache
mod Tests
