-- ===== src/Server/Session.antt =====
-- bin/lapas_api_server/src/api_server.rs: the session of one client, as the rounds of its loop. What a
-- round meets outside is in its `Turn`; an error or a panic ends the session.
pub mod Lift
pub mod Keeps
pub mod Guarded
pub mod Distinct
pub mod Handshake
pub mod Answers
use lapas.Prelude.{
  Done, Bool, true, false, List, [], ◌∷◌, ◌++◌, Outcome, ok, err, panic, ◌>>=◌, ◌>>◌, if◌then◌else◌,
  ◌==◌,
}
use lapas.Prelude.Text.{Str, codes}
use lapas.Proto.Serde.{Result}
use lapas.Proto.Models.{ApiAuth}
use lapas.Proto.Packet.{
  version, LapasProtocol, control_handshake, control_handshake_response, control_listen_events,
  control_check_auth, control_check_auth_response, user_register, user_register_response,
  user_dns_mapping, user_dns_mapping_response, passwd_get_list, passwd_get_list_response,
  shadow_get_list, shadow_get_list_response,
}
use lapas.Server.Users.{Crates, Outside}
use lapas.Server.State.{
  State, Peer, DnsOutside, check_auth, add_user, create_user_host_mapping, register_event_listener,
  passwd_all, shadow_all,
}

-- What one round meets: what `recv` returns, whether `send` succeeds, and the services' surroundings.
pub record Turn (DateTime : Type 0) : Type 0 where
  pub received : Outcome (LapasProtocol DateTime)
  pub send : Outcome (Unit {0})
  pub users : Outside DateTime
  pub dns : DnsOutside

-- The shared state, and the packets that were handed to `send`.
pub record Session (DateTime : Type 0) : Type 0 where
  pub state : State DateTime
  pub sent : List (LapasProtocol DateTime)

abbrev pub Step : Type 0 → Type 0
Step DateTime = Done (Session DateTime) (Unit {0})

module _ {DateTime : Type 0} where
  abbrev pub sending : LapasProtocol DateTime → Session DateTime → Session DateTime
  sending p s = record s { sent = s.sent ++ (p ∷ []) }

  unfoldable pub answer_handshake :
      Turn DateTime → Session DateTime → LapasProtocol DateTime → Step DateTime
  answer_handshake t s (control_handshake v) =
      if v == version
      then record { after = sending (control_handshake_response (Result.ok tt)) s; result = t.send }
      else record {
        after =
            sending
              (control_handshake_response (Result.err (codes "Incompatible Protocol Version"))) s;
        result = t.send >> err (codes "Incompatible Protocol Version");
      }
  answer_handshake t s _ = record { after = s; result = err (codes "Received unexpected packet!") }

  -- `rx.recv().await?`, and what is done with the packet.
  abbrev pub on_packet :
      Session DateTime
      → Outcome (LapasProtocol DateTime)
      → (LapasProtocol DateTime → Step DateTime)
      → Step DateTime
  on_packet s (ok p) handle = handle p
  on_packet s (err e) handle = record { after = s; result = err e }
  on_packet s panic handle = record { after = s; result = panic }

  unfoldable pub handle_handshake : Turn DateTime → Session DateTime → Step DateTime
  handle_handshake t s = on_packet s t.received (answer_handshake t s)

  -- `handle_request!` after the check of the authentication: the result is sent in its packet.
  unfoldable pub respond :
      {A : Type 0}
      → Turn DateTime
      → (Result A Str → LapasProtocol DateTime)
      → Session DateTime
      → Outcome A
      → Step DateTime
  respond t response s (ok a) = record {
    after = sending (response (Result.ok a)) s;
    result = t.send;
  }
  respond t response s (err e) = record {
    after = sending (response (Result.err e)) s;
    result = t.send;
  }
  respond t response s panic = record { after = s; result = panic }

  -- The check of the authentication in `handle_request!`.
  unfoldable pub guarded :
      {A : Type 0}
      → Turn DateTime
      → (Result A Str → LapasProtocol DateTime)
      → Session DateTime
      → Outcome Bool
      → Step DateTime
      → Step DateTime
  guarded t response s (ok true) granted = granted
  guarded t response s (ok false) granted = record {
    after = sending (response (Result.err (codes "Authentication failed"))) s;
    result = t.send >> err (codes "Authentication failed");
  }
  guarded t response s (err e) granted = record { after = s; result = err e }
  guarded t response s panic granted = record { after = s; result = panic }

  -- A request that changes the state, and its response.
  abbrev pub performed :
      Turn DateTime
      → (Result (Unit {0}) Str → LapasProtocol DateTime)
      → Session DateTime
      → Done (State DateTime) (Unit {0})
      → Step DateTime
  performed t response s d = respond t response (record s { state = d.after }) d.result

  abbrev pub continue_with :
      Step DateTime → (Session DateTime → Step DateTime) → Outcome (Unit {0}) → Step DateTime
  continue_with d more (ok _) = more d.after
  continue_with d more (err e) = d
  continue_with d more panic = d

module _ {DateTime : Type 0} (crates : Crates DateTime) (sha512_hex : Str → Str) (peer : Peer) where
  -- The `match` of the loop.
  unfoldable pub handle_packet :
      Turn DateTime → Session DateTime → LapasProtocol DateTime → Step DateTime
  handle_packet t s control_listen_events = record {
    after = record s { state = register_event_listener peer s.state };
    result = ok tt;
  }
  handle_packet t s (control_check_auth auth) =
      guarded t control_check_auth_response s (check_auth sha512_hex s.state.config auth)
        (respond t control_check_auth_response s (ok tt))
  handle_packet t s (user_register auth new_username new_password) =
      guarded t user_register_response s (check_auth sha512_hex s.state.config auth) (
        performed t user_register_response s
          (add_user crates t.users new_username new_password s.state))
  handle_packet t s (user_dns_mapping auth username) =
      guarded t user_dns_mapping_response s (check_auth sha512_hex s.state.config auth) (
        performed t user_dns_mapping_response s
          (create_user_host_mapping t.dns username peer.ip s.state))
  handle_packet t s passwd_get_list = respond t passwd_get_list_response s (passwd_all s.state)
  handle_packet t s (shadow_get_list auth) =
      guarded t shadow_get_list_response s (check_auth sha512_hex s.state.config auth)
        (respond t shadow_get_list_response s (shadow_all s.state))
  handle_packet t s _ = record { after = s; result = ok tt }

  -- One round of the loop.
  unfoldable pub round : Turn DateTime → Session DateTime → Step DateTime
  round t s = on_packet s t.received (handle_packet t s)

  -- The loop; after the last turn it waits for the next packet.
  unfoldable pub serve : List (Turn DateTime) → Session DateTime → Step DateTime
  serve [] s = record { after = s; result = ok tt }
  serve (t ∷ ts) s = let d = round t s in continue_with d (serve ts) d.result

  unfoldable pub handle_client : List (Turn DateTime) → Session DateTime → Step DateTime
  handle_client [] s = record { after = s; result = ok tt }
  handle_client (t ∷ ts) s = let d = handle_handshake t s in continue_with d (serve ts) d.result
