-- ===== src/Client/Daemon/Informed.antt =====
-- The daemon, the server and another client, which registers a user in a session of its own.
use lapas.Prelude.{
  ◌≡◌, ◌∙◌, refl, ap, sym, Bool, true, none, some, List, [], ◌∷◌, ◌++◌, length, drop, drop_append,
  append-nil, map, Outcome, ok, arith, Done,
}
use lapas.Prelude.Text.{Str}
use lapas.Proto.Serde.{Result, Chrono, Bytes}
use lapas.Proto.Models.{ApiAuth}
use lapas.Proto.Packet.{
  version, LapasProtocol, control_handshake, control_handshake_response, control_listen_events,
  user_register, user_register_response, shadow_get_list, shadow_get_list_response,
  notify_users_changed, encode_packet,
}
use lapas.Proto.RoundTrip.{IsPacket, IsRfc3339}
use lapas.Proto.Connection.Laws.{encode_all}
use lapas.Server.Broadcast.{Broadcast, IsBroadcast}
use lapas.Server.Notifier.{forward_notifications}
use lapas.Server.Notifier.Service.{notified, polled, new, send, rounds, add}
use lapas.Server.Users.{Crates, Outside, UserService, shadow_all}
use lapas.Server.Users as Users
use lapas.Server.State.{State, Peer, DnsOutside, check_auth, notify, add_user}
use lapas.Server.Session.{
  Session, handle_client, handle_handshake, answer_handshake, round, handle_packet, respond,
  guarded, sending,
}
use lapas.Server.Session.Lift.{serve_one}
use lapas.Client.Commands.Served.{asked}
use lapas.Client.Daemon.{arrival, Daemon, run_daemon}
use lapas.Client.Daemon.Events.{came}
use lapas.Client.Daemon.Follows.{at, run_daemon_lem}
use lapas.Client.Daemon.Warmed.{warmed, listed, warmed_lem, granted_lem}

module _ {D : Type 0} (broadcast : Broadcast (LapasProtocol D)) where
  -- What the task of a listener sends of these notifications, in its first poll.
  abbrev pub forwarded : List (LapasProtocol D) → List (LapasProtocol D)
  forwarded ps = (add broadcast (new broadcast) (map notified ps ++ (polled (ok tt) ∷ []))).after

  forwarded_one : IsBroadcast broadcast → (p : LapasProtocol D) → forwarded (p ∷ []) ≡ p ∷ []
  unfolding add rounds send forward_notifications
  forwarded_one laws p =
      let s = (new broadcast).notifier in
      let r = broadcast.subscribe s in
      let g =
        laws.first (broadcast.send p s) r p [] (laws.sent p s r [] (laws.subscribed s))
          (rw (laws.capacity-send p s, laws.holds_one) (omega arith)) in
      rw (g.given, forwarded) refl

module _ (chrono : Chrono) (laws : IsRfc3339 chrono)
    (broadcast : Broadcast (LapasProtocol chrono.DateTime)) (crates : Crates chrono.DateTime)
    (sha512_hex : Str → Str) (peer guest : Peer) (os : Outside chrono.DateTime) (dns : DnsOutside)
    (s : State chrono.DateTime) (auth guest_auth : ApiAuth) (username new_password : Str) where
  open chrono use {DateTime}

  -- The other client's session, from this state of the server.
  abbrev registering : State DateTime → Session DateTime
  registering x =
      (handle_client crates sha512_hex guest
        (asked os dns (control_handshake version)
          ∷ asked os dns (user_register guest_auth username new_password)
          ∷ [])
        (record { state = x; sent = [] })).after

  -- The notifications that the other client's session has caused, where the daemon's is this one.
  abbrev news : Session DateTime → List (LapasProtocol DateTime)
  news c = drop (length c.state.notified) (registering c.state).state.notified

  -- The daemon's session afterwards: the task of its notifications sends, and the list is asked for
  -- again.
  abbrev informing : Session DateTime → Session DateTime
  informing c =
      (round crates sha512_hex peer (asked os dns (shadow_get_list auth)) (record {
        state = (registering c.state).state;
        sent = c.sent ++ forwarded broadcast (news c);
      })).after

  abbrev pub informed : Session DateTime
  informed = informing (warmed chrono laws crates sha512_hex peer os dns s auth)

  -- The daemon on the three packets that it is sent.
  abbrev pub caught_up : Outcome (Outcome Bool) → Done (Daemon DateTime) (Unit {0})
  caught_up child =
      run_daemon chrono (ok tt) auth (arrival child ∷ arrival child ∷ arrival child ∷ [])
        (at chrono auth (encode_all chrono informed.sent) [] none [])

  abbrev added : UserService DateTime
  added = (Users.add_user crates os username new_password s.user_service).after

  registers :
      (c : Session DateTime)
      → check_auth sha512_hex c.state.config guest_auth ≡ ok true
      → (Users.add_user crates os username new_password c.state.user_service).result ≡ ok tt
      → (round crates sha512_hex guest
          (asked os dns (user_register guest_auth username new_password))
          c).after
        ≡ sending (user_register_response (Result.ok tt)) (record c {
          state = notify notify_users_changed (record c.state {
            user_service =
                (Users.add_user crates os username new_password c.state.user_service).after;
          });
        })
  unfolding round handle_packet guarded respond add_user
  registers c e h = rw (e, h)

  -- The server's state after a user was registered.
  abbrev grown : State DateTime → State DateTime
  grown x = notify notify_users_changed (record x {
    user_service = (Users.add_user crates os username new_password x.user_service).after;
  })

  registering_lem :
      (x : State DateTime)
      → check_auth sha512_hex x.config guest_auth ≡ ok true
      → (Users.add_user crates os username new_password x.user_service).result ≡ ok tt
      → registering x ≡ record {
        state = grown x;
        sent =
            control_handshake_response (Result.ok tt) ∷ user_register_response (Result.ok tt) ∷ [];
      }
  unfolding handle_client handle_handshake answer_handshake
  registering_lem x g h =
      serve_one crates sha512_hex guest
        (asked os dns (user_register guest_auth username new_password))
        (record { state = x; sent = control_handshake_response (Result.ok tt) ∷ [] })
      ∙ registers _ g h

  abbrev listing : UserService DateTime → LapasProtocol DateTime
  listing service = shadow_get_list_response (Result.ok (shadow_all service))

  informing_lem :
      IsBroadcast broadcast
      → (c : Session DateTime) → check_auth sha512_hex c.state.config auth ≡ ok true
      → check_auth sha512_hex c.state.config guest_auth ≡ ok true
      → (Users.add_user crates os username new_password c.state.user_service).result ≡ ok tt
      → (informing c).sent
        ≡ (c.sent ++ (notify_users_changed ∷ []))
          ++ (listing (Users.add_user crates os username new_password c.state.user_service).after
              ∷ [])
  unfolding notify
  informing_lem b c a g h =
      ap
        (λ (r : Session DateTime).
          (round crates sha512_hex peer (asked os dns (shadow_get_list auth)) (record {
            state = r.state;
            sent = c.sent ++ forwarded broadcast (drop (length c.state.notified) r.state.notified);
          })).after.sent)
        (registering_lem c.state g h)
      ∙ ap (λ (r : Session DateTime). r.sent)
          (granted_lem chrono laws crates sha512_hex peer os dns s auth
            (record {
              state = grown c.state;
              sent =
                  c.sent
                  ++ forwarded broadcast (drop (length c.state.notified) (grown c.state).notified);
            })
            a)
      ∙ rw (drop_append c.state.notified (notify_users_changed ∷ []))
          (rw (forwarded_one broadcast b notify_users_changed) refl)

  informed_lem :
      IsBroadcast broadcast
      → check_auth sha512_hex s.config auth ≡ ok true
      → check_auth sha512_hex s.config guest_auth ≡ ok true
      → (Users.add_user crates os username new_password s.user_service).result ≡ ok tt
      → informed.sent
        ≡ control_handshake_response (Result.ok tt)
          ∷ listing s.user_service
          ∷ notify_users_changed
          ∷ listing added
          ∷ []
  informed_lem b a g h =
      ap (λ (c : Session DateTime). (informing c).sent)
        (warmed_lem chrono laws crates sha512_hex peer os dns s auth a)
      ∙ informing_lem b (listed chrono laws crates sha512_hex peer os dns s auth) a g h

  -- With the laws of chrono and the documented behaviour of the channel, and users that fit a packet:
  -- a daemon that has started against the server, while another client registers a user with an
  -- accepted password, is told so, asks for the list once more, and has the new user in its cache.
  pub caught_up_lem :
      (child : Outcome (Outcome Bool))
      → IsBroadcast broadcast
      → check_auth sha512_hex s.config auth ≡ ok true
      → check_auth sha512_hex s.config guest_auth ≡ ok true
      → (Users.add_user crates os username new_password s.user_service).result ≡ ok tt
      → IsPacket (listing s.user_service)
      → IsPacket (listing added)
      → caught_up child ≡ record {
        after =
            at chrono auth []
              (encode_all chrono (
                control_handshake version
                ∷ control_listen_events
                ∷ shadow_get_list auth
                ∷ shadow_get_list auth
                ∷ []))
              (some (shadow_all added))
              [];
        result = ok tt;
      }
  caught_up_lem child b a g h old young = rw (informed_lem b a g h) (
      ap
        (λ (later : Bytes).
          run_daemon chrono (ok tt) auth (arrival child ∷ arrival child ∷ arrival child ∷ []) (
            at chrono auth
              (encode_packet chrono (control_handshake_response (Result.ok tt)) ++ later) [] none
              []))
        (sym (append-nil _))
      ∙ run_daemon_lem chrono laws auth
          (came child (listing s.user_service)
            ∷ came child notify_users_changed
            ∷ came child (listing added)
            ∷ [])
          [] ((old, tt), ((tt, tt), ((young, tt), tt))))
