-- ===== src/Client/Daemon/Warmed.antt =====
-- The daemon against the server's handler, over the bytes of the connection.
use lapas.Prelude.{
  refl, ◌≡◌, ap, ◌∙◌, Bool, true, some, none, List, [], ◌∷◌, ◌++◌, Outcome, ok, append-nil, sym,
  arith, append_assoc,
}
use lapas.Prelude.Text.{Str}
use lapas.Proto.Serde.{Bytes, Result, Chrono}
use lapas.Proto.Models.{ApiAuth}
use lapas.Proto.Packet.{
  version, LapasProtocol, control_handshake, control_handshake_response, control_listen_events,
  shadow_get_list, shadow_get_list_response, encode_packet,
}
use lapas.Proto.RoundTrip.{IsPacket, IsRfc3339}
use lapas.Prelude.Text.Utf8.{is_utf8}
use lapas.Proto.Connection.{send}
use lapas.Proto.Connection.Laws.{encode_all, receive_sent}
use lapas.Server.Users.{Crates, Outside, shadow_all}
use lapas.Server.State.{State, Peer, DnsOutside, check_auth, register_event_listener}
use lapas.Server.Session.{
  Session, handle_client, handle_handshake, answer_handshake, serve, round, handle_packet, respond,
  guarded, sending,
}
use lapas.Server.Session.Lift.{serve_one}
use lapas.Client.Commands.Served.{asked, lapas_connect_lem}
use lapas.Client.Daemon.{
  arrival, run_daemon, follow_events, on_wake, handle_event, codes, false, send, UserCache, err,
}
use lapas.Client.Daemon.Events.{came}
use lapas.Client.Daemon.Follows.{at, run_daemon_lem}

module _ (chrono : Chrono) (laws : IsRfc3339 chrono) (crates : Crates chrono.DateTime)
    (sha512_hex : Str → Str) (peer : Peer) (os : Outside chrono.DateTime) (dns : DnsOutside)
    (s : State chrono.DateTime) (auth : ApiAuth) where
  open chrono use {DateTime}

  -- The server's session for the packets that the daemon starts with.
  abbrev pub warmed : Session DateTime
  warmed =
      (handle_client crates sha512_hex peer
        (asked os dns (control_handshake version)
          ∷ asked os dns control_listen_events
          ∷ asked os dns (shadow_get_list auth)
          ∷ [])
        (record { state = s; sent = [] })).after

  abbrev pub sent_to_daemon : List (LapasProtocol DateTime)
  sent_to_daemon = warmed.sent

  -- The session after the first two packets.
  abbrev listening : Session DateTime
  listening = record {
    state = record s { listeners = peer ∷ s.listeners };
    sent = control_handshake_response (Result.ok tt) ∷ [];
  }

  pub granted_lem :
      (c : Session DateTime)
      → check_auth sha512_hex c.state.config auth ≡ ok true
      → (round crates sha512_hex peer (asked os dns (shadow_get_list auth)) c).after
        ≡ sending (shadow_get_list_response (Result.ok (shadow_all c.state.user_service))) c
  unfolding round handle_packet guarded respond
  granted_lem c e = rw e

  -- The session after all three.
  abbrev pub listed : Session DateTime
  listed = sending (shadow_get_list_response (Result.ok (shadow_all s.user_service))) listening

  pub warmed_lem : check_auth sha512_hex s.config auth ≡ ok true → warmed ≡ listed
  unfolding handle_client handle_handshake answer_handshake serve round handle_packet
      register_event_listener
  warmed_lem c =
      serve_one crates sha512_hex peer (asked os dns (shadow_get_list auth)) listening
      ∙ granted_lem listening c

  sent_to_daemon_lem :
      check_auth sha512_hex s.config auth ≡ ok true
      → sent_to_daemon
        ≡ control_handshake_response (Result.ok tt)
          ∷ shadow_get_list_response (Result.ok (shadow_all s.user_service))
          ∷ []
  sent_to_daemon_lem c = ap (λ (t : Session DateTime). t.sent) (warmed_lem c)

  -- With the laws of chrono, users that fit a packet, and a password that the server accepts: the
  -- daemon that starts against the server sends it the three packets that its session is for, and has
  -- the users of the server's index with their hashes in its cache after the first packet that comes.
  pub daemon_served :
      (child : Outcome (Outcome Bool))
      → check_auth sha512_hex s.config auth ≡ ok true
      → IsPacket (shadow_get_list_response (Result.ok (shadow_all s.user_service)))
      → run_daemon chrono
          (ok tt)
          auth
          (arrival child ∷ [])
          (at chrono auth (encode_all chrono sent_to_daemon) [] none [])
        ≡ record {
          after =
              at chrono auth []
                (encode_all chrono
                  (control_handshake version ∷ control_listen_events ∷ shadow_get_list auth ∷ []))
                (some (shadow_all s.user_service))
                [];
          result = ok tt;
        }
  daemon_served child c h = rw (sent_to_daemon_lem c) (
      ap
        (λ (later : Bytes). run_daemon chrono (ok tt) auth (arrival child ∷ []) (
          at chrono auth (encode_packet chrono (control_handshake_response (Result.ok tt)) ++ later)
            [] none []))
        (sym (
          append-nil (
            encode_packet chrono (shadow_get_list_response (Result.ok (shadow_all s.user_service)))
            ++ [])))
      ∙ run_daemon_lem chrono laws auth
          (came child (shadow_get_list_response (Result.ok (shadow_all s.user_service))) ∷ []) []
          ((h, tt), tt))

  abbrev refusal : LapasProtocol DateTime
  refusal = shadow_get_list_response (Result.err (codes "Authentication failed"))

  round_refused :
      (c : Session DateTime)
      → check_auth sha512_hex c.state.config auth ≡ ok false
      → (round crates sha512_hex peer (asked os dns (shadow_get_list auth)) c).after.sent
        ≡ c.sent ++ (refusal ∷ [])
  unfolding round handle_packet guarded respond
  round_refused c e = rw e

  sent_to_daemon_refused :
      check_auth sha512_hex s.config auth ≡ ok false
      → sent_to_daemon ≡ control_handshake_response (Result.ok tt) ∷ refusal ∷ []
  unfolding handle_client handle_handshake answer_handshake serve round handle_packet
      register_event_listener
  sent_to_daemon_refused c =
      ap (λ (t : Session DateTime). t.sent)
        (serve_one crates sha512_hex peer (asked os dns (shadow_get_list auth)) listening)
      ∙ round_refused listening c

  refusal-IsPacket : IsPacket refusal
  unfolding is_utf8
  refusal-IsPacket = (refl, omega arith)

  -- With the laws of chrono, and a password that the server does not accept: the daemon ends with the
  -- server's error, and its cache stays as it was.
  pub daemon_refused :
      (child : Outcome (Outcome Bool)) (cache : UserCache DateTime)
      → check_auth sha512_hex s.config auth ≡ ok false
      → run_daemon chrono
          (ok tt)
          auth
          (arrival child ∷ [])
          (at chrono auth (encode_all chrono sent_to_daemon) [] cache [])
        ≡ record {
          after =
              at chrono auth []
                (encode_all chrono
                  (control_handshake version ∷ control_listen_events ∷ shadow_get_list auth ∷ []))
                cache
                [];
          result = err (
              codes "Acquiring new user shadow listing failed:\n" ++ codes "Authentication failed");
        }
  unfolding run_daemon follow_events on_wake handle_event send
  daemon_refused child cache c = rw (
    sent_to_daemon_refused c,
    lapas_connect_lem chrono laws (encode_packet chrono refusal ++ []),
    receive_sent chrono laws refusal [] _ refusal-IsPacket,
    append_assoc (encode_packet chrono (control_handshake version)),
    append-nil (encode_packet chrono (shadow_get_list auth)),
  )
