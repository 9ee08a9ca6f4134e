-- ===== src/Client/Daemon/Follows.antt =====
-- The daemon on a stream of packets.
use lapas.Prelude.{
  ◌≡◌, ap, ◌∙◌, Bool, All, List, [], ◌∷◌, ◌++◌, map, none, Outcome, Done, ok, append-nil,
  append_assoc,
}
use lapas.Proto.Serde.{Bytes, Result, Chrono}
use lapas.Proto.Models.{ApiAuth}
use lapas.Proto.Packet.{
  version, LapasProtocol, control_handshake, control_handshake_response, control_ping,
  control_listen_events, control_check_auth, control_check_auth_response, user_register,
  user_register_response, user_dns_mapping, user_dns_mapping_response, passwd_get_list,
  passwd_get_list_response, shadow_get_list, shadow_get_list_response, notify_root_changed,
  notify_dns_mappings_changed, notify_users_changed, encode_packet,
}
use lapas.Proto.RoundTrip.{IsRfc3339}
use lapas.Proto.Connection.{send}
use lapas.Proto.Connection.Laws.{encode_all, encode_all-append, receive_sent}
use lapas.Client.Cache as Cache
use lapas.Client.Cache.{UserCache}
use lapas.Client.Commands.Served.{arriving, lapas_connect_lem}
use lapas.Client.Daemon.Events.{
  Event, tick, came, wake_of, arrived, request_of, requests, newer, newest, program_of, programs,
  IsGranted, IsGood,
}
use lapas.Client.Daemon.{
  Report, Daemon, go_on, handle_users_changed, handle_event, on_wake, follow_events, run_daemon,
}

module _ (chrono : Chrono) (auth : ApiAuth) where
  open chrono use {DateTime}

  -- The daemon on a connection where no write fails.
  abbrev pub at : Bytes → Bytes → UserCache DateTime → List Report → Daemon DateTime
  at incoming written cache reports = record {
    connection = arriving incoming written;
    user_cache = cache;
    reports = reports;
  }

  abbrev well : Daemon DateTime → Done (Daemon DateTime) (Unit {0})
  well d = record { after = d; result = ok tt }

  handle_event_lem :
      (child : Outcome (Outcome Bool)) (p : LapasProtocol DateTime) (rest w : Bytes)
      (cache : UserCache DateTime) (rs : List Report)
      → IsGranted p
      → handle_event chrono auth child p (at rest w cache rs)
        ≡ well (
            at rest
              (w ++ encode_all chrono (request_of auth (came child p)))
              (newer cache (came child p))
              (rs ++ program_of (came child p)))
  unfolding handle_event handle_users_changed send Cache.set
  handle_event_lem child notify_users_changed rest w cache rs h =
      rw (append-nil (encode_packet chrono (shadow_get_list auth)), append-nil rs)
  handle_event_lem child notify_root_changed rest w cache rs h = rw (append-nil w)
  handle_event_lem child notify_dns_mappings_changed rest w cache rs h = rw (append-nil w)
  handle_event_lem child (shadow_get_list_response (Result.ok users)) rest w cache rs h =
      rw (append-nil w, append-nil rs)
  handle_event_lem child (shadow_get_list_response (Result.err e)) rest w cache rs h = absurd h
  handle_event_lem child (control_handshake v) rest w cache rs h = rw (append-nil w, append-nil rs)
  handle_event_lem child (control_handshake_response r) rest w cache rs h =
      rw (append-nil w, append-nil rs)
  handle_event_lem child control_ping rest w cache rs h = rw (append-nil w, append-nil rs)
  handle_event_lem child control_listen_events rest w cache rs h = rw (append-nil w, append-nil rs)
  handle_event_lem child (control_check_auth a) rest w cache rs h = rw (append-nil w, append-nil rs)
  handle_event_lem child (control_check_auth_response r) rest w cache rs h =
      rw (append-nil w, append-nil rs)
  handle_event_lem child (user_register a n p) rest w cache rs h = rw (append-nil w, append-nil rs)
  handle_event_lem child (user_register_response r) rest w cache rs h =
      rw (append-nil w, append-nil rs)
  handle_event_lem child (user_dns_mapping a n) rest w cache rs h = rw (append-nil w, append-nil rs)
  handle_event_lem child (user_dns_mapping_response r) rest w cache rs h =
      rw (append-nil w, append-nil rs)
  handle_event_lem child passwd_get_list rest w cache rs h = rw (append-nil w, append-nil rs)
  handle_event_lem child (passwd_get_list_response r) rest w cache rs h =
      rw (append-nil w, append-nil rs)
  handle_event_lem child (shadow_get_list a) rest w cache rs h = rw (append-nil w, append-nil rs)

module _ (chrono : Chrono) (laws : IsRfc3339 chrono) (auth : ApiAuth) where
  open chrono use {DateTime}

  -- What an event brings stands in front of what arrives later.
  abbrev bytes_of : List (Event DateTime) → Bytes → Bytes
  bytes_of es rest = encode_all chrono (arrived es) ++ rest

  on_wake_lem :
      (e : Event DateTime) (es : List (Event DateTime)) (rest w : Bytes)
      (cache : UserCache DateTime) (rs : List Report)
      → IsGood e
      → on_wake chrono auth (wake_of e) (at chrono auth (bytes_of (e ∷ es) rest) w cache rs)
        ≡ well chrono auth (
            at chrono auth
              (bytes_of es rest)
              (w ++ encode_all chrono (request_of auth e))
              (newer cache e)
              (rs ++ program_of e))
  unfolding on_wake send
  on_wake_lem tick es rest w cache rs h =
      rw (append-nil (encode_packet chrono control_ping), append-nil rs)
  on_wake_lem (came child p) es rest w cache rs (h, g) =
      rw
        (
          append_assoc (encode_packet chrono p) (encode_all chrono (arrived es)) rest,
          receive_sent chrono laws p (bytes_of es rest) w h,
        )
        (handle_event_lem chrono auth child p (bytes_of es rest) w cache rs g)

  follow_events_lem :
      (es : List (Event DateTime)) (rest w : Bytes) (cache : UserCache DateTime) (rs : List Report)
      → All IsGood es
      → follow_events chrono auth (map wake_of es) (at chrono auth (bytes_of es rest) w cache rs)
        ≡ well chrono auth (
            at chrono auth rest
              (w ++ encode_all chrono (requests auth es))
              (newest cache es)
              (rs ++ programs es))
  unfolding follow_events
  follow_events_lem [] rest w cache rs h = rw (append-nil w, append-nil rs)
  follow_events_lem (e ∷ es) rest w cache rs (h, hs) =
      ap
        (λ (r : Done (Daemon DateTime) (Unit {0})).
          go_on chrono r.after r.result (λ u. follow_events chrono auth (map wake_of es)))
        (on_wake_lem e es rest w cache rs h)
      ∙ follow_events_lem es rest _ _ _ hs
      ∙ rw (
        encode_all-append chrono (request_of auth e) (requests auth es),
        append_assoc w,
        append_assoc rs,
      )

  -- With the laws of chrono, and a server that accepts the handshake and then sends packets that fit
  -- the protocol, none an error in place of a list, where the timer goes off between packets only and
  -- no write fails: the daemon goes on, has registered for events and asked for the list at the start
  -- and once more for each change of the users, has pinged at each tick, its cache holds the newest
  -- list that came, and it has run the programs for the other changes, in order.
  pub run_daemon_lem :
      (es : List (Event DateTime)) (rest : Bytes)
      → All IsGood es
      → run_daemon chrono (ok tt) auth (map wake_of es) (
          at chrono auth
            (encode_packet chrono (control_handshake_response (Result.ok tt)) ++ bytes_of es rest)
            []
            none
            [])
        ≡ well chrono auth (
            at chrono auth rest
              (encode_all chrono (
                control_handshake version
                ∷ control_listen_events
                ∷ shadow_get_list auth
                ∷ requests auth es))
              (newest none es)
              (programs es))
  unfolding run_daemon send
  run_daemon_lem es rest h = rw (lapas_connect_lem chrono laws (bytes_of es rest)) (
      follow_events_lem es rest _ none [] h
      ∙ rw (
        append_assoc (encode_packet chrono (control_handshake version)),
        append_assoc (encode_packet chrono (control_handshake version)),
        append_assoc (encode_packet chrono control_listen_events),
      ))
