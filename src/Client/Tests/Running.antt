-- ===== src/Client/Tests/Running.antt =====
-- The daemon on concrete packets.
use lapas.Prelude.{
  ◌≡◌, refl, true, map, panic, none, some, List, [], ◌∷◌, ◌++◌, ok, err, arith, All, false,
}
use lapas.Prelude.Text.{str_eq, codes}
use lapas.Prelude.Text.Utf8.{is_utf8}
use lapas.Proto.Serde.{Result}
use lapas.Proto.Models.{ApiAuth, password}
use lapas.Proto.Packet.{
  version, control_handshake, encode_packet, shadow_get_list_response, control_handshake_response,
  notify_users_changed, notify_root_changed, control_listen_events, shadow_get_list, control_ping,
}
use lapas.Proto.RoundTrip.{IsPacket}
use lapas.Proto.Tests.{Moment, calendar, calendar-IsRfc3339, alice}
use lapas.Client.Commands.Served.{arriving}
use lapas.Client.Daemon.{remounted, timer, arrival, run_daemon, follow_events, handle_root_changed}
use lapas.Client.Daemon.Events.{Event, tick, came, wake_of, arrived, IsGood}
use lapas.Client.Daemon.Follows.{at, run_daemon_lem}
use lapas.Client.Daemon.Broken.{IsLost, follow_events-IsLost}
use lapas.Proto.Connection.Laws.{encode_all}
use lapas.Client.Daemon.Run.{Attempt, connect_loop}
use lapas.Client.Daemon.Kept.{IsFilled, connect_loop-IsFilled}
use lapas.Client.Commands.{lapas_connect}
use lapas.Proto.Connection.{send, receive}
use lapas.Proto.Packet.{decode_packet}
use lapas.Proto.Serde.{read_u32}
use lapas.Server.State.{check_auth, config_get}
use lapas.Server.Users.{shadow_all}
use lapas.Client.Tests.{crates, hashed, peer, outside, dns, server, accepted}
use lapas.Client.Daemon.Warmed.{sent_to_daemon, daemon_served, daemon_refused}

abbrev auth : ApiAuth
auth = password (codes "admin")

abbrev events : List (Event Moment)
events =
    tick
    ∷ came panic (shadow_get_list_response (Result.ok (alice ∷ [])))
    ∷ came panic notify_users_changed
    ∷ came (ok (ok true)) notify_root_changed
    ∷ []

events-IsGood : All IsGood events
unfolding is_utf8
events-IsGood = (
  tt,
  (
    ((omega arith, ((omega arith, (refl, omega arith), (refl, omega arith)), tt)), tt),
    ((tt, tt), ((tt, tt), tt)),
  ),
)

run_daemon_lem_example :
    run_daemon calendar (ok tt) auth (map wake_of events) (
      at calendar auth
        (encode_packet calendar (control_handshake_response (Result.ok tt))
          ++ (encode_all calendar (arrived events) ++ []))
        []
        none
        [])
    ≡ record {
      after =
          at calendar auth []
            (encode_all calendar (
              control_handshake version
              ∷ control_listen_events
              ∷ shadow_get_list auth
              ∷ control_ping
              ∷ shadow_get_list auth
              ∷ []))
            (some (alice ∷ []))
            (remounted ∷ []);
      result = ok tt;
    }
unfolding handle_root_changed
run_daemon_lem_example = run_daemon_lem calendar calendar-IsRfc3339 auth events [] events-IsGood

-- The timer takes two of the four bytes of a notification, and another one follows.
follow_events-IsLost_example : IsLost calendar (some (alice ∷ [])) (
    follow_events calendar auth (timer 2 ∷ arrival panic ∷ arrival panic ∷ []) (
      at calendar auth
        (encode_packet calendar notify_users_changed ++ encode_packet calendar notify_root_changed)
        []
        (some (alice ∷ []))
        []))
follow_events-IsLost_example =
    follow_events-IsLost calendar auth 2 notify_users_changed panic (arrival panic ∷ [])
      (encode_packet calendar notify_root_changed) [] (some (alice ∷ [])) [] (omega arith)
      (omega arith) tt

-- The server refuses a connection, then closes one.
abbrev attempts : List Attempt
attempts =
    record { connected = err (codes "refused"); connection = arriving [] []; wakes = [] }
    ∷ record { connected = ok tt; connection = arriving [] []; wakes = timer 0 ∷ [] }
    ∷ []

attempts_end : connect_loop calendar auth attempts (some (alice ∷ [])) ≡ ok (some (alice ∷ []))
unfolding connect_loop run_daemon lapas_connect send receive decode_packet read_u32
attempts_end = refl

connect_loop-IsFilled_example : IsFilled calendar (some (alice ∷ []))
connect_loop-IsFilled_example =
    connect_loop-IsFilled calendar auth attempts (some (alice ∷ [])) (some (alice ∷ [])) tt
      attempts_end

two_shadows :
    IsPacket {D = Moment} (shadow_get_list_response (Result.ok (shadow_all server.user_service)))
unfolding shadow_all is_utf8
two_shadows = (
  omega arith,
  (
    (omega arith, (refl, omega arith), (refl, omega arith)),
    ((omega arith, (refl, omega arith), (refl, omega arith)), tt),
  ),
)

daemon_served_example :
    run_daemon calendar (ok tt) auth (arrival panic ∷ []) (
      at calendar auth
        (encode_all calendar
          (sent_to_daemon calendar calendar-IsRfc3339 crates hashed peer outside dns server auth))
        []
        none
        [])
    ≡ record {
      after =
          at calendar auth []
            (encode_all calendar
              (control_handshake version ∷ control_listen_events ∷ shadow_get_list auth ∷ []))
            (some (shadow_all server.user_service))
            [];
      result = ok tt;
    }
daemon_served_example =
    daemon_served calendar calendar-IsRfc3339 crates hashed peer outside dns server auth panic
      accepted two_shadows

abbrev guess : ApiAuth
guess = password (codes "guess")

refused : check_auth hashed server.config guess ≡ ok false
unfolding check_auth config_get str_eq
refused = refl

daemon_refused_example :
    run_daemon calendar (ok tt) guess (arrival panic ∷ []) (
      at calendar guess
        (encode_all calendar
          (sent_to_daemon calendar calendar-IsRfc3339 crates hashed peer outside dns server guess))
        []
        (some (alice ∷ []))
        [])
    ≡ record {
      after =
          at calendar guess []
            (encode_all calendar
              (control_handshake version ∷ control_listen_events ∷ shadow_get_list guess ∷ []))
            (some (alice ∷ []))
            [];
      result =
          err
            (codes "Acquiring new user shadow listing failed:\n" ++ codes "Authentication failed");
    }
daemon_refused_example =
    daemon_refused calendar calendar-IsRfc3339 crates hashed peer outside dns server guess panic
      (some (alice ∷ [])) refused
