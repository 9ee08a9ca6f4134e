-- ===== src/Lib.antt =====
-- LAPAS: a server that hosts a network-bootable guest system for LAN parties.
--
-- bin/keepEngine cleans the home folders of the guest system by the rules of a .keep file:
--   KeepEngine/Actions      FileAction, Actions, ActionResult     (src/decisiongraph.rs)
--   KeepEngine/Nodes        the nodes, `from_pattern`, `get_action` (src/decisiongraph.rs)
--   KeepEngine/Graph        `add_rule`, `add_rule_from_str`, `DecisionGraph::get_action` as
--                           `decide_path` (src/decisiongraph.rs), `parse_rules` (src/main.rs)
--   KeepEngine/Cleanup      `apply_keep`'s `traverse` (src/main.rs)
--   KeepEngine/Main         `apply_keep` and `main` (src/main.rs)
--   KeepEngine/Dot          `write_dot_to_str`, `write_dot_to_file` (src/decisiongraph.rs)
-- with the proofs in KeepEngine/Descend (what `descend` promises), KeepEngine/LastMatch (rules
-- against their meaning), KeepEngine/Stars (`**`), below KeepEngine/Cleanup, and in
-- KeepEngine/Main/Again (a second run).
-- main reads the rules into a graph, and the walk asks the graph about each path. Paths and texts are
-- lists of bytes; the regex crate and the operating system's answers are parameters. The walk runs
-- on a finite tree of files and folders that nothing else changes meanwhile, so it needs no fuel.
--
-- bin/lapas_api_proto holds the packets that the server, its clients and the NSS library exchange:
--   Proto/Serde             `ProtoSerde` for the basic types and containers (src/proto.rs)
--   Proto/Models            ApiAuth, LapasUserPasswd, LapasUserShadow (src/models.rs)
--   Proto/Packet            LapasProtocol with the code of `define_protocol!` (src/lib.rs)
--   Proto/Connection        a stream in use: the bytes that will still arrive, those that were
--                           written, and how writes end
-- with the proofs in Proto/RoundTrip, Proto/Decoded (any bytes) and Proto/Connection/Laws. A stream
-- is the list of bytes still to be read; reading one that ends is the only I/O error of `decode`.
-- chrono is a parameter. It writes a year above 9999 with five digits, which it does not read back, so
-- the theorems on packets ask that the times in them come back from their texts.
--
-- bin/lapas_api_server holds the users, and serves the clients in sessions:
--   Server/Users            `UserService` and its file (src/api_services/user.rs)
--   Server/State            the shared state (src/state.rs), host names (src/api_services/dns.rs)
--   Server/Config           `State::init` (src/state.rs), `DnsService::new` (src/api_services/dns.rs)
--   Server/Notifier         `forward_notifications`, and `NotificationService` in
--                           Server/Notifier/Service (src/api_services/notification.rs)
--   Server/Broadcast        what is documented of tokio's broadcast channel, as a parameter
--   Server/Peer             `PeerTx`, `PeerRx` (src/api_services/mod.rs)
--   Server/Session          handshake, `handle_request!` and the loop (src/api_server.rs)
--   Server/System           the tasks of `run`, interleaved (src/api_server.rs)
--   Server/Main             `main` (src/main.rs), up to where `run` accepts clients
-- A session is a list of rounds, each with the packet it receives and the outcome of every call that
-- goes outside, so that it needs no fuel. In Server/System any number of clients take turns, a whole
-- round at a time: the locks of the state are held across each change of the users, and a round
-- changes them once. The proofs are in Server/Users/Sound, Stored and Added, in Server/Session/Guarded,
-- Handshake, Distinct and Answers, in Server/System/Safety, Secrets, Grows, Durable and Announced, in
-- Server/Main/Restarted, in Server/Config/Reads, and in Server/Notifier/Order, Prompt and Lost.
-- A file that the server writes holds its text once the write in the background is done, which `flush`
-- waits for and `write_user_index` does not. The path of a mapping comes from a client: which file it
-- names is a parameter, and it may be the file of the users or the configuration.
--
-- bin/lapas_api_client is the command line client and the daemon of the guest system:
--   Client/Commands         the commands and `main` (src/main.rs), `sort_by_key` in Client/Sort
--   Client/Cache            `UserCache` (src/daemon.rs)
--   Client/LocalAuth        `handle_local_auth_client`, `run_local_auth_server` (src/daemon.rs)
--   Client/Daemon           `run_daemon` and its handlers, `run` in Client/Daemon/Run (src/daemon.rs)
-- bin/lapas_nss is loaded by every program that looks up a user, and asks the daemon:
--   Nss/Api                 the listings and the password (src/api.rs)
--   Nss/Passwd, Nss/Shadow  the hooks (src/passwd.rs, src/shadow.rs)
-- Both talk over Proto/Connection. The proofs compose the programs: the commands with the server's
-- handler (Client/Commands/Served), the daemon with it (Client/Daemon/Warmed), and also with another
-- client and the notifications (Client/Daemon/Informed), the library with the daemon's local server
-- (Nss/Served), and the library, the daemon's cache and the server's users (Nss/Lookup,
-- Nss/Registered). What runs on a clock is a list: the polls of the cache, and the branches that
-- `select!` takes in the daemon, where the timer comes with the number of bytes that the dropped
-- branch had read. The lists are finite, so that no loop needs fuel.
--
-- Not modelled: when the tasks of a session come to their turns on its stream, the lock that they take
-- for it, and awaits inside a round, between which other tasks may run: a mapping holds another lock
-- than a change of the users, so one over their file may also come between the steps of such a change. Left out:
-- the parsing of arguments, log lines and sleeping, and the shell scripts.
pub mod Prelude
pub mod KeepEngine
pub mod Proto
pub mod Server
pub mod Client
pub mod Nss
