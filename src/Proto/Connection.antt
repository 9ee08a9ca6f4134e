-- ===== src/Proto/Connection.antt =====
-- A stream between two programs, as `LapasProtocol::decode` and `encode` use it.
pub mod Laws
use lapas.Prelude.{ℕ, List, [], ◌∷◌, ◌++◌, Outcome, Done, ok, err, panic}
use lapas.Prelude.Text.{Str, codes}
use lapas.Proto.Serde.{
  Bytes, Decoded, got, failed, LapasProtocolError, io_error, protocol_error, Chrono,
}
use lapas.Proto.Packet.{LapasProtocol, decode_packet, encode_packet}

-- The bytes that will still arrive, those that were written, and how the next writes end; further
-- ones succeed. A stream that ends is an I/O error.
pub record Connection : Type 0 where
  pub incoming : Bytes
  pub written : Bytes
  pub writes : List (Outcome (Unit {0}))

abbrev pub Talk : Type 0 → Type 0
Talk A = Connection → Done Connection A

abbrev pub pure : {A : Type 0} → A → Talk A
pure a c = record { after = c; result = ok a }

abbrev pub fail : {A : Type 0} → Str → Talk A
fail e c = record { after = c; result = err e }

-- A result of code that does not touch the stream.
abbrev pub lift : {A : Type 0} → Outcome A → Talk A
lift r c = record { after = c; result = r }

abbrev pub go_on : {A B : Type 0} → Connection → Outcome A → (A → Talk B) → Done Connection B
go_on c (ok a) f = f a c
go_on c (err e) f = record { after = c; result = err e }
go_on c panic f = record { after = c; result = panic }

infixl 5 ◌>>=◌ ◌>>◌
abbrev pub ◌>>=◌ : {A B : Type 0} → Talk A → (A → Talk B) → Talk B
◌>>=◌ m f c = let d = m c in go_on d.after d.result f

abbrev pub ◌>>◌ : {B : Type 0} → Talk (Unit {0}) → Talk B → Talk B
m >> k = m >>= λ _. k

-- `Display` of the error, as anyhow shows it.
abbrev pub message : LapasProtocolError → Str
message io_error = codes "IO Error"
message (protocol_error e) = codes "ProtocolError: " ++ e

abbrev pub received : {A : Type 0} → Connection → Decoded A → Done Connection A
received c (got a rest) = record { after = record c { incoming = rest }; result = ok a }
received c (failed e) = record { after = record c { incoming = [] }; result = err (message e) }

abbrev pub put : Connection → Bytes → List (Outcome (Unit {0})) → Done Connection (Unit {0})
put c bytes [] = record { after = record c { written = c.written ++ bytes }; result = ok tt }
put c bytes (ok u ∷ ws) = record {
  after = record c { written = c.written ++ bytes; writes = ws };
  result = ok tt;
}
put c bytes (err e ∷ ws) = record { after = record c { writes = ws }; result = err e }
put c bytes (panic ∷ ws) = record { after = record c { writes = ws }; result = panic }

module _ (chrono : Chrono) where
  open chrono use {DateTime}

  -- `LapasProtocol::decode(stream).await?`
  unfoldable pub receive : Talk (LapasProtocol DateTime)
  receive c = received c (decode_packet chrono c.incoming)

  -- `packet.encode(stream).await?`
  unfoldable pub send : LapasProtocol DateTime → Talk (Unit {0})
  send p c = put c (encode_packet chrono p) c.writes
