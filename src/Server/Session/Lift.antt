-- ===== src/Server/Session/Lift.antt =====
-- What holds of a session before a round and is kept by the handling of its packet holds after it.
use lapas.Prelude.{[], ◌∷◌, ◌≡◌, refl, Outcome, ok, err, panic, []}
use lapas.Proto.Packet.{LapasProtocol}
use lapas.Prelude.Text.{Str}
use lapas.Proto.Serde.{Result}
use lapas.Server.State.{State}
use lapas.Prelude.{Bool, true, false}
use lapas.Server.Session.{
  Turn, respond, guarded, Session, Step, on_packet, continue_with, Crates, Peer, serve, round,
}

module _ {D : Type 0} (P : Session D → Type 0) where
  pub on_packet_keeps :
      (s : Session D) (r : Outcome (LapasProtocol D)) (handle : LapasProtocol D → Step D)
      → P s
      → ((p : LapasProtocol D) → r ≡ ok p → P (handle p).after)
      → P (on_packet s r handle).after
  on_packet_keeps s (ok p) handle h k = k p refl
  on_packet_keeps s (err e) handle h k = h
  on_packet_keeps s panic handle h k = h

  pub continue_keeps :
      (d : Step D) (more : Session D → Step D) (r : Outcome (Unit {0}))
      → P d.after
      → P (more d.after).after
      → P (continue_with d more r).after
  continue_keeps d more (ok u) h k = k
  continue_keeps d more (err e) h k = h
  continue_keeps d more panic h k = h

-- The same of the shared state: sending a packet leaves it alone.
module _ {D : Type 0} (P : State D → Type 0) (t : Turn D) (s : Session D) where
  pub respond_keeps :
      {A : Type 0} (response : Result A Str → LapasProtocol D) (r : Outcome A)
      → P s.state
      → P (respond t response s r).after.state
  unfolding respond
  respond_keeps response (ok a) h = h
  respond_keeps response (err e) h = h
  respond_keeps response panic h = h

  pub guarded_keeps :
      {A : Type 0} (response : Result A Str → LapasProtocol D) (c : Outcome Bool) (granted : Step D)
      → P s.state
      → P granted.after.state
      → P (guarded t response s c granted).after.state
  unfolding guarded
  guarded_keeps response (ok true) granted h k = k
  guarded_keeps response (ok false) granted h k = h
  guarded_keeps response (err e) granted h k = h
  guarded_keeps response panic granted h k = h

-- The last round of a session leaves what it left.
module _ {D : Type 0} (crates : Crates D) (sha512_hex : Str → Str) (peer : Peer) where
  continue_with_last :
      (d : Step D) (r : Outcome (Unit {0}))
      → (continue_with d (serve crates sha512_hex peer []) r).after ≡ d.after
  unfolding serve
  continue_with_last d (ok u) = refl
  continue_with_last d (err e) = refl
  continue_with_last d panic = refl

  pub serve_one :
      (t : Turn D) (s : Session D)
      → (serve crates sha512_hex peer (t ∷ []) s).after ≡ (round crates sha512_hex peer t s).after
  unfolding serve
  serve_one t s = continue_with_last (round crates sha512_hex peer t s) _
