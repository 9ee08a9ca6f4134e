-- ===== src/Proto.antt =====
-- bin/lapas_api_proto: the packets of the LAPAS API and their encoding.
pub mod Serde
pub mod Models
pub mod Packet
pub mod RoundTrip
pub mod Decoded
pub mod Connection
pub mod Tests
