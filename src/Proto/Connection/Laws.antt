-- ===== src/Proto/Connection/Laws.antt =====
-- A packet that was encoded arrives as it was sent.
use lapas.Prelude.{
  refl, append_assoc, Outcome, ◌≡◌, ap, List, [], ◌∷◌, ◌++◌, ok, sym, append-nil, ◌∙◌, append_assoc,
}
use lapas.Proto.Serde.{Bytes, Chrono}
use lapas.Proto.Packet.{LapasProtocol, encode_packet}
use lapas.Proto.RoundTrip.{IsPacket, IsRfc3339}
use lapas.Proto.RoundTrip.Packets.{packet-Reads}
use lapas.Proto.Connection.{lift, Talk, ◌>>=◌, received, receive, Talk, Connection, go_on}

-- A step that ends well, and what follows it.
pub bind_ok :
    {A B : Type 0} (m : Talk A) (f : A → Talk B) {c d : Connection} {a : A}
    → m c ≡ record { after = d; result = ok a }
    → (m >>= f) c ≡ f a d
bind_ok m f e = ap (λ r. go_on r.after r.result f) e

pub lift_ok :
    {A : Type 0} (r : Outcome A) (c : Connection) {a : A}
    → r ≡ ok a
    → lift r c ≡ record { after = c; result = ok a }
lift_ok r c e = ap (λ x. lift x c) e

module _ (chrono : Chrono) where
  open chrono use {DateTime}

  -- What a sender of packets has written.
  abbrev pub encode_all : List (LapasProtocol DateTime) → Bytes
  encode_all [] = []
  encode_all (p ∷ ps) = encode_packet chrono p ++ encode_all ps

  pub encode_all-append :
      (ps qs : List (LapasProtocol DateTime))
      → encode_all (ps ++ qs) ≡ encode_all ps ++ encode_all qs
  encode_all-append [] qs = refl
  encode_all-append (p ∷ ps) qs =
      ap (◌++◌ (encode_packet chrono p)) (encode_all-append ps qs)
      ∙ sym (append_assoc (encode_packet chrono p) (encode_all ps) (encode_all qs))

  pub receive_sent :
      IsRfc3339 chrono
      → (p : LapasProtocol DateTime) (rest w : Bytes) → IsPacket p
      → receive chrono
          (record { incoming = encode_packet chrono p ++ rest; written = w; writes = [] })
        ≡ record { after = record { incoming = rest; written = w; writes = [] }; result = ok p }
  unfolding receive
  receive_sent laws p rest w h =
      ap (received (record { incoming = encode_packet chrono p ++ rest; written = w; writes = [] }))
        (packet-Reads chrono laws p h rest)

  -- The same of a packet that nothing stands behind.
  pub receive_last :
      IsRfc3339 chrono
      → (p : LapasProtocol DateTime) (w : Bytes) → IsPacket p
      → receive chrono (record { incoming = encode_packet chrono p; written = w; writes = [] })
        ≡ record { after = record { incoming = []; written = w; writes = [] }; result = ok p }
  receive_last laws p w h =
      ap (λ (s : Bytes). receive chrono (record { incoming = s; written = w; writes = [] }))
        (sym (append-nil (encode_packet chrono p)))
      ∙ receive_sent laws p [] w h
