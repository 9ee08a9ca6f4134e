-- ===== src/Client.antt =====
-- bin/lapas_api_client: the commands, and the daemon with its local server for the NSS library.
pub mod Sort
pub mod Commands
pub mod Cache
pub mod LocalAuth
pub mod Daemon
pub mod Tests
