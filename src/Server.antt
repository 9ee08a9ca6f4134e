-- ===== src/Server.antt =====
-- bin/lapas_api_server: the users, the host names, and the sessions of the clients.
pub mod Users
pub mod State
pub mod Config
pub mod Broadcast
pub mod Notifier
pub mod Peer
pub mod Session
pub mod System
pub mod Main
pub mod Tests
