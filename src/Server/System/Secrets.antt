-- ===== src/Server/System/Secrets.antt =====
-- What a client without the password is sent, among others that may have it.
use lapas.Prelude.{ℕ, ◌≡◌, refl, List, All, Bool-cases, inl, inr, ◌==◌, arith}
use lapas.Prelude.Text.{Str}
use lapas.Proto.Packet.{LapasProtocol}
use lapas.Server.Users.{Crates}
use lapas.Server.Session.{Session}
use lapas.Server.Session.Guarded.{
  IsPublic, IsHarmless, IsGuest, handle_handshake-IsHarmless, round-IsHarmless,
}
use lapas.Server.System.{System, update, Move, greets, asks, Reach, start, later}

updated_IsPublic :
    {D : Type 0} (sent : ℕ → List (LapasProtocol D)) (j i : ℕ) (after : List (LapasProtocol D))
    → All IsPublic (sent i)
    → (All IsPublic (sent j) → j ≡ i → All IsPublic after)
    → All IsPublic (update sent j after i)
updated_IsPublic sent j i after h k = elim (Bool-cases (j == i)) [
  | inl e ↦ let here : j ≡ i = ground arith in rw e (k (rw here h) here)
  | inr e ↦ rw e h
]

module _ {D : Type 0} (crates : Crates D) (sha512_hex : Str → Str) (i : ℕ) where
  -- If the move is a round of client `i`, its packet shows no accepted password.
  abbrev pub Guest : {s v : System D} → Move crates sha512_hex s v → Type 0
  Guest (greets j t e) = Unit
  Guest {s} (asks peer t e) = peer.number ≡ i → IsGuest sha512_hex s.state.config t

  abbrev pub Everywhere : {s v : System D} {n : ℕ} → Reach crates sha512_hex s n v → Type 0
  Everywhere start = Unit
  Everywhere (later r mv q) = Guest mv × Everywhere r

  unchanged : (s : Session D) → All IsPublic s.sent → IsHarmless s.state s
  unchanged s h = record {
    config = refl;
    config_text = refl;
    users = refl;
    hosts = refl;
    notified = refl;
    sent = h;
  }

  Move-IsPublic :
      {s v : System D} (mv : Move crates sha512_hex s v)
      → All IsPublic (s.sent i)
      → Guest mv
      → All IsPublic (v.sent i)
  Move-IsPublic {s} (greets j t e) h g =
      updated_IsPublic s.sent j i _ h
        (λ k q. (handle_handshake-IsHarmless s.state t _ (unchanged _ k)).sent)
  Move-IsPublic {s} (asks peer t e) h g =
      updated_IsPublic s.sent peer.number i _ h
        (λ k q. (round-IsHarmless crates sha512_hex peer s.state t _ (unchanged _ k) (g q)).sent)

  -- However the rounds of any number of clients interleave: a client that shows no accepted password
  -- in any of its rounds is sent no list of password hashes, whatever the others ask for.
  pub Reach-IsPublic :
      {s v : System D} {n : ℕ} (r : Reach crates sha512_hex s n v)
      → All IsPublic (s.sent i)
      → Everywhere r
      → All IsPublic (v.sent i)
  Reach-IsPublic start h g = h
  Reach-IsPublic (later r mv q) h (g, gs) = Move-IsPublic mv (Reach-IsPublic r h gs) g
