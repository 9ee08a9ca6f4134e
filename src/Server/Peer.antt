-- ===== src/Server/Peer.antt =====
-- bin/lapas_api_server/src/api_services/mod.rs: `PeerTx` and `PeerRx`, the two halves of a client's
-- stream. The lock of the half that writes, which the tasks of a session share, is not modelled.
use lapas.Proto.Serde.{Chrono}
use lapas.Proto.Packet.{LapasProtocol}
use lapas.Proto.Connection.{Talk, ◌>>=◌, ◌>>◌, pure, send, receive}

module _ (chrono : Chrono) where
  open chrono use {DateTime}

  -- `PeerTx::send`, from the lock to its release.
  unfoldable pub send_packet : LapasProtocol DateTime → Talk (Unit {0})
  unfolding send
  send_packet packet = send chrono packet >> pure tt

  -- `PeerRx::recv`.
  unfoldable pub recv : Talk (LapasProtocol DateTime)
  unfolding receive
  recv = receive chrono >>= pure
