-- ===== src/Client/Daemon/Kept.antt =====
-- What a lost connection does to the cache.
use lapas.Prelude.{◌≡◌, Bool, none, some, List, [], ◌∷◌, Outcome, ok, err, panic, ok-injective}
use lapas.Proto.Serde.{Result, Chrono}
use lapas.Proto.Models.{ApiAuth}
use lapas.Proto.Packet.{
  LapasProtocol, control_handshake, control_handshake_response, control_ping, control_listen_events,
  control_check_auth, control_check_auth_response, user_register, user_register_response,
  user_dns_mapping, user_dns_mapping_response, passwd_get_list, passwd_get_list_response,
  shadow_get_list, shadow_get_list_response, notify_root_changed, notify_dns_mappings_changed,
  notify_users_changed,
}
use lapas.Client.Cache as Cache
use lapas.Client.Cache.{UserCache}
use lapas.Client.Commands.{lapas_connect}
use lapas.Client.Daemon.{
  Wake, timer, arrival, Daemon, Run, go_on, talk, handle_users_changed, handle_event, on_wake,
  follow_events, run_daemon, ◌>>◌, announce, codes,
}
use lapas.Client.Daemon.Run.{Attempt, attempt, connect_loop}

module _ (chrono : Chrono) where
  open chrono use {DateTime}

  abbrev pub IsFilled : UserCache DateTime → Type 0
  IsFilled none = ⊥
  IsFilled (some users) = Unit

  -- A part of the run that never empties the cache.
  abbrev Keeps : {A : Type 0} → Run chrono A → Type 0
  Keeps {A} m = (d : Daemon DateTime) → IsFilled d.user_cache → IsFilled (m d).after.user_cache

  go_on-Keeps :
      {A B : Type 0} (d : Daemon DateTime) (r : Outcome A) (f : A → Run chrono B)
      → ((a : A) → Keeps (f a))
      → IsFilled d.user_cache
      → IsFilled (go_on chrono d r f).after.user_cache
  go_on-Keeps d (ok a) f h q = h a d q
  go_on-Keeps d (err e) f h q = q
  go_on-Keeps d panic f h q = q

  handle_event-Keeps :
      (auth : ApiAuth) (child : Outcome (Outcome Bool)) (p : LapasProtocol DateTime)
      → Keeps (handle_event chrono auth child p)
  unfolding handle_event handle_users_changed Cache.set
  handle_event-Keeps auth child (shadow_get_list_response (Result.ok users)) d q = tt
  handle_event-Keeps auth child (shadow_get_list_response (Result.err e)) d q = q
  handle_event-Keeps auth child (control_handshake v) d q = q
  handle_event-Keeps auth child (control_handshake_response r) d q = q
  handle_event-Keeps auth child control_ping d q = q
  handle_event-Keeps auth child control_listen_events d q = q
  handle_event-Keeps auth child (control_check_auth a) d q = q
  handle_event-Keeps auth child (control_check_auth_response r) d q = q
  handle_event-Keeps auth child (user_register a n p) d q = q
  handle_event-Keeps auth child (user_register_response r) d q = q
  handle_event-Keeps auth child (user_dns_mapping a n) d q = q
  handle_event-Keeps auth child (user_dns_mapping_response r) d q = q
  handle_event-Keeps auth child passwd_get_list d q = q
  handle_event-Keeps auth child (passwd_get_list_response r) d q = q
  handle_event-Keeps auth child (shadow_get_list a) d q = q
  handle_event-Keeps auth child notify_root_changed d q = q
  handle_event-Keeps auth child notify_dns_mappings_changed d q = q
  handle_event-Keeps auth child notify_users_changed d q = q

  on_wake-Keeps : (auth : ApiAuth) (w : Wake) → Keeps (on_wake chrono auth w)
  unfolding on_wake
  on_wake-Keeps auth (timer n) d q = q
  on_wake-Keeps auth (arrival child) d q =
      go_on-Keeps _ _ (handle_event chrono auth child) (handle_event-Keeps auth child) q

  follow_events-Keeps : (auth : ApiAuth) (ws : List Wake) → Keeps (follow_events chrono auth ws)
  unfolding follow_events
  follow_events-Keeps auth [] d q = q
  follow_events-Keeps auth (w ∷ ws) d q =
      go_on-Keeps _ _ (λ u. follow_events chrono auth ws) (λ u. follow_events-Keeps auth ws)
        (on_wake-Keeps auth w d q)

  then-Keeps :
      {B : Type 0} (m : Run chrono (Unit {0})) (k : Run chrono B)
      → Keeps m
      → Keeps k
      → Keeps (◌>>◌ chrono m k)
  then-Keeps m k h l d q = go_on-Keeps (m d).after (m d).result (λ u. k) (λ u. l) (h d q)

  run_daemon-Keeps :
      (connected : Outcome (Unit {0})) (auth : ApiAuth) (ws : List Wake)
      → Keeps (run_daemon chrono connected auth ws)
  unfolding run_daemon
  run_daemon-Keeps connected auth ws =
      let hello : Run chrono (Unit {0}) = talk chrono (lapas_connect chrono connected) in
      let listen : Run chrono (Unit {0}) =
        announce chrono (codes "Registering for server events") control_listen_events in
      let warm : Run chrono (Unit {0}) =
        announce chrono (codes "Request shadow list for initial cache warming")
          (shadow_get_list auth) in
      then-Keeps (◌>>◌ chrono (◌>>◌ chrono hello listen) warm) (follow_events chrono auth ws)
        (then-Keeps (◌>>◌ chrono hello listen) warm (then-Keeps hello listen (λ d q. q) (λ d q. q))
          (λ d q. q))
        (follow_events-Keeps auth ws)

  goes_on :
      {A : Type 0} (r : Outcome (Unit {0})) (rest : Outcome A) (x : A)
      → (elim r [ ok u ↦ rest | err e ↦ rest | panic ↦ panic ]) ≡ ok x
      → rest ≡ ok x
  goes_on (ok u) rest x h = h
  goes_on (err e) rest x h = h
  goes_on panic rest x h = cc

  -- However often the connection is lost and whatever fails: once the cache of the daemon holds a list,
  -- it does as long as the program runs on without a panic.
  pub connect_loop-IsFilled :
      (auth : ApiAuth) (attempts : List Attempt) (cache after : UserCache DateTime)
      → IsFilled cache
      → connect_loop chrono auth attempts cache ≡ ok after
      → IsFilled after
  unfolding connect_loop
  connect_loop-IsFilled auth [] cache after h e = rw⁻¹ (ok-injective _ _ e) h
  connect_loop-IsFilled auth (a ∷ attempts) cache after h e =
      connect_loop-IsFilled auth attempts (attempt chrono auth a cache).after.user_cache after
        (run_daemon-Keeps a.connected auth a.wakes _ h)
        (goes_on (attempt chrono auth a cache).result _ after e)
