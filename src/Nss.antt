-- ===== src/Nss.antt =====
-- bin/lapas_nss: users for the name service switch, from the daemon's local server.
pub mod Api
pub mod Passwd
pub mod Shadow
pub mod Password
pub mod Served
pub mod Lookup
pub mod Registered
mod Tests
