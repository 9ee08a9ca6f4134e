-- ===== src/Server/Tests/Interleaved.antt =====
-- Clients that take turns.
use lapas.Prelude.{◌≡◌, ◌⊎◌, refl, [], All, arith}
use lapas.Prelude.Text.{Str, codes, str_eq}
use lapas.Proto.Models.{password}
use lapas.Proto.Packet.{LapasProtocol, control_handshake, shadow_get_list}
use lapas.Server.Users.Sound.{IsSound}
use lapas.Server.State.{Peer, check_auth, config_get}
use lapas.Server.Session.{
  handle_handshake, answer_handshake, round, handle_packet, guarded, respond,
}
use lapas.Server.Session.Guarded.{IsPublic}
use lapas.Server.System as System
use lapas.Server.System.{System, greeting, serving, moved, greets, asks, Reach, start, later}
use lapas.Server.System.Safety.{Somewhere, Reach-users, Reach-IsSound}
use lapas.Server.System.Grows.{Extends, Reach-Extends}
use lapas.Server.System.Secrets.{Everywhere, Reach-IsPublic}
use lapas.Server.Tests.Texts.{crates}
use lapas.Server.Tests.{hashed, session, turn, peer, register, turn-IsGuest, service-IsSound}

abbrev open_server : System (Unit {0})
open_server = record { state = session.state; phase = λ i. greeting; sent = λ i. [] }

abbrev greeted_server : System (Unit {0})
greeted_server =
    moved crates hashed open_server 1
      (handle_handshake (turn (control_handshake 6)) (System.session crates hashed open_server 1))

served_phase : greeted_server.phase 1 ≡ serving
unfolding handle_handshake answer_handshake
served_phase = refl

abbrev registered_server : System (Unit {0})
registered_server = moved crates hashed greeted_server 1 (
    round crates hashed peer (register (codes "admin"))
      (System.session crates hashed greeted_server 1))

-- The same client greets, and registers a user.
way : Reach crates hashed open_server 2 registered_server
way =
    later (later start (greets 1 (turn (control_handshake 6)) refl) refl)
      (asks peer (register (codes "admin")) served_phase) refl

Reach-users_example :
    Somewhere crates hashed way
    ⊎ (registered_server.state.user_service ≡ open_server.state.user_service)
Reach-users_example = Reach-users crates hashed way

Reach-IsSound_example : IsSound registered_server.state.user_service.user_index
Reach-IsSound_example = Reach-IsSound crates hashed way service-IsSound (omega arith)

-- A second client greets while the first is served, and guesses the password of the hashes, which the
-- first one knows.
abbrev other : Peer
other = record { number = 2; ip = codes "10.0.0.8" }

abbrev hashes : Str → LapasProtocol (Unit {0})
hashes pw = shadow_get_list (password pw)

abbrev joined : System (Unit {0})
joined =
    moved crates hashed greeted_server 2 (
      handle_handshake (turn (control_handshake 6)) (System.session crates hashed greeted_server 2))

abbrev shown : System (Unit {0})
shown = moved crates hashed joined 1 (
    round crates hashed peer (turn (hashes (codes "admin")))
      (System.session crates hashed joined 1))

abbrev guessed : System (Unit {0})
guessed = moved crates hashed shown 2 (
    round crates hashed other (turn (hashes (codes "guess")))
      (System.session crates hashed shown 2))

joined_phase : joined.phase 1 ≡ serving
unfolding handle_handshake answer_handshake
joined_phase = refl

shown_phase : shown.phase 2 ≡ serving
unfolding handle_handshake answer_handshake
shown_phase = refl

meeting : Reach crates hashed open_server 4 guessed
meeting =
    later
      (later
        (later (later start (greets 1 (turn (control_handshake 6)) refl) refl)
          (greets 2 (turn (control_handshake 6)) refl) refl)
        (asks peer (turn (hashes (codes "admin"))) joined_phase) refl)
      (asks other (turn (hashes (codes "guess"))) shown_phase) refl

meeting-Everywhere : Everywhere crates hashed 2 meeting
unfolding meeting check_auth config_get str_eq round handle_packet guarded handle_handshake
    answer_handshake respond
meeting-Everywhere = (
  λ q. turn-IsGuest (hashes (codes "guess")) (λ e. cc),
  (λ q. absurd (omega arith), (tt, (tt, tt))),
)

Reach-IsPublic_example : All IsPublic (guessed.sent 2)
Reach-IsPublic_example = Reach-IsPublic crates hashed 2 meeting tt meeting-Everywhere

Reach-Extends_example : Extends open_server.state.user_service registered_server.state.user_service
Reach-Extends_example = Reach-Extends crates hashed way
