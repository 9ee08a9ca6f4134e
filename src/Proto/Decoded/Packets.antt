-- ===== src/Proto/Decoded/Packets.antt =====
-- What a packet that was decoded is.
use lapas.Prelude.{◌∷◌, ◌∷◌}
use lapas.Prelude.Text.{Str}
use lapas.Proto.Serde.{Decoded, Result, Chrono}
use lapas.Proto.Packet.{LapasProtocol}
use lapas.Proto.RoundTrip.{IsResult, IsPacket}

abbrev IsDone : Result (Unit {0}) Str → Type 0
IsDone = IsResult (λ (u : Unit {0}). Unit {0})

module _ (chrono : Chrono) where
  open chrono use {DateTime}

  abbrev Packets : LapasProtocol DateTime → Type 0
  Packets = IsPacket
