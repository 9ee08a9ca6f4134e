-- ===== src/Server/Session/Guarded.antt =====
-- What a client can do before the handshake, and without the password.
use lapas.Prelude.{
  ◌≡◌, ◌≢◌, refl, Bool, true, false, List, [], ◌∷◌, Outcome, ok, err, panic, All, Bool-cases, inl,
  inr, ◌==◌,
}
use lapas.Prelude.Text.{Str}
use lapas.Proto.Serde.{Result}
use lapas.Proto.Packet.{
  version, LapasProtocol, control_handshake, control_handshake_response, control_ping,
  control_listen_events, control_check_auth, control_check_auth_response, user_register,
  user_register_response, user_dns_mapping, user_dns_mapping_response, passwd_get_list,
  passwd_get_list_response, shadow_get_list, shadow_get_list_response, notify_root_changed,
  notify_dns_mappings_changed, notify_users_changed,
}
use lapas.Server.Users.{Crates}
use lapas.Server.Users.Sound.{All-push}
use lapas.Server.State.{State, Config, Peer, check_auth, register_event_listener}
use lapas.Server.Session.Lift.{on_packet_keeps, continue_keeps}
use lapas.Server.Session.{
  Turn, Session, Step, sending, respond, guarded, handle_packet, round, serve, answer_handshake,
  handle_handshake, handle_client,
}

module _ {D : Type 0} where
  -- A packet that shows no password hashes.
  abbrev pub IsPublic : LapasProtocol D → Type 0
  IsPublic (shadow_get_list_response (Result.ok us)) = ⊥
  IsPublic _ = Unit

  -- Users, host names, notifications and the configuration are as before, and only public packets
  -- were sent.
  pub record IsHarmless (before : State D) (s : Session D) : Type 0 where
    pub config : s.state.config ≡ before.config
    pub config_text : s.state.config_text ≡ before.config_text
    pub users : s.state.user_service ≡ before.user_service
    pub hosts : s.state.hosts ≡ before.hosts
    pub notified : s.state.notified ≡ before.notified
    pub sent : All IsPublic s.sent

  module _ (before : State D) (t : Turn D) (s : Session D) (h : IsHarmless before s) where
    sending-IsHarmless : (p : LapasProtocol D) → IsPublic p → IsHarmless before (sending p s)
    sending-IsHarmless p k = record {
      config = h.config;
      config_text = h.config_text;
      users = h.users;
      hosts = h.hosts;
      notified = h.notified;
      sent = All-push IsPublic s.sent p h.sent k;
    }

    respond-IsHarmless :
        {A : Type 0} (response : Result A Str → LapasProtocol D) (r : Outcome A)
        → ((x : Result A Str) → IsPublic (response x))
        → IsHarmless before (respond t response s r).after
    unfolding respond
    respond-IsHarmless response (ok a) k = sending-IsHarmless _ (k (Result.ok a))
    respond-IsHarmless response (err e) k = sending-IsHarmless _ (k (Result.err e))
    respond-IsHarmless response panic k = h

    guarded-IsHarmless :
        {A : Type 0} (response : Result A Str → LapasProtocol D) (c : Outcome Bool)
        (granted : Step D)
        → ((e : Str) → IsPublic (response (Result.err e)))
        → c ≢ ok true
        → IsHarmless before (guarded t response s c granted).after
    unfolding guarded
    guarded-IsHarmless response (ok true) granted k n = absurd (n refl)
    guarded-IsHarmless response (ok false) granted k n = sending-IsHarmless _ (k _)
    guarded-IsHarmless response (err e) granted k n = h
    guarded-IsHarmless response panic granted k n = h

    answer_handshake-IsHarmless :
        (p : LapasProtocol D) → IsHarmless before (answer_handshake t s p).after
    unfolding answer_handshake
    answer_handshake-IsHarmless (control_handshake v) = elim (Bool-cases (v == version)) [
      | inl e ↦ rw e (sending-IsHarmless _ tt)
      | inr e ↦ rw e (sending-IsHarmless _ tt)
    ]
    answer_handshake-IsHarmless (control_handshake_response r) = h
    answer_handshake-IsHarmless control_ping = h
    answer_handshake-IsHarmless control_listen_events = h
    answer_handshake-IsHarmless (control_check_auth a) = h
    answer_handshake-IsHarmless (control_check_auth_response r) = h
    answer_handshake-IsHarmless (user_register a n p) = h
    answer_handshake-IsHarmless (user_register_response r) = h
    answer_handshake-IsHarmless (user_dns_mapping a n) = h
    answer_handshake-IsHarmless (user_dns_mapping_response r) = h
    answer_handshake-IsHarmless passwd_get_list = h
    answer_handshake-IsHarmless (passwd_get_list_response r) = h
    answer_handshake-IsHarmless (shadow_get_list a) = h
    answer_handshake-IsHarmless (shadow_get_list_response r) = h
    answer_handshake-IsHarmless notify_root_changed = h
    answer_handshake-IsHarmless notify_dns_mappings_changed = h
    answer_handshake-IsHarmless notify_users_changed = h

    pub handle_handshake-IsHarmless : IsHarmless before (handle_handshake t s).after
    unfolding handle_handshake
    handle_handshake-IsHarmless =
        on_packet_keeps (IsHarmless before) s t.received (answer_handshake t s) h
          (λ p e. answer_handshake-IsHarmless p)

module _ {D : Type 0} (sha512_hex : Str → Str) where
  -- No password in the packet is accepted.
  abbrev pub IsRefused : Config → LapasProtocol D → Type 0
  IsRefused config (control_check_auth a) = check_auth sha512_hex config a ≢ ok true
  IsRefused config (user_register a n p) = check_auth sha512_hex config a ≢ ok true
  IsRefused config (user_dns_mapping a n) = check_auth sha512_hex config a ≢ ok true
  IsRefused config (shadow_get_list a) = check_auth sha512_hex config a ≢ ok true
  IsRefused config _ = Unit

  -- The packet of a turn, if there is one, shows no accepted password.
  abbrev pub IsGuest : Config → Turn D → Type 0
  IsGuest config t = (p : LapasProtocol D) → t.received ≡ ok p → IsRefused config p

module _ {D : Type 0} (crates : Crates D) (sha512_hex : Str → Str) (peer : Peer) where
  handle_packet-IsHarmless :
      (before : State D) (t : Turn D) (s : Session D) (p : LapasProtocol D)
      → IsHarmless before s
      → IsRefused sha512_hex s.state.config p
      → IsHarmless before (handle_packet crates sha512_hex peer t s p).after
  unfolding handle_packet register_event_listener
  handle_packet-IsHarmless before t s control_listen_events h n = record {
    config = h.config;
    config_text = h.config_text;
    users = h.users;
    hosts = h.hosts;
    notified = h.notified;
    sent = h.sent;
  }
  handle_packet-IsHarmless before t s (control_check_auth a) h n =
      guarded-IsHarmless before t s h control_check_auth_response _ _ (λ e. tt) n
  handle_packet-IsHarmless before t s (user_register a u p) h n =
      guarded-IsHarmless before t s h user_register_response _ _ (λ e. tt) n
  handle_packet-IsHarmless before t s (user_dns_mapping a u) h n =
      guarded-IsHarmless before t s h user_dns_mapping_response _ _ (λ e. tt) n
  handle_packet-IsHarmless before t s passwd_get_list h n =
      respond-IsHarmless before t s h passwd_get_list_response _ (λ r. tt)
  handle_packet-IsHarmless before t s (shadow_get_list a) h n =
      guarded-IsHarmless before t s h shadow_get_list_response _ _ (λ e. tt) n
  handle_packet-IsHarmless before t s (control_handshake v) h n = h
  handle_packet-IsHarmless before t s (control_handshake_response r) h n = h
  handle_packet-IsHarmless before t s control_ping h n = h
  handle_packet-IsHarmless before t s (control_check_auth_response r) h n = h
  handle_packet-IsHarmless before t s (user_register_response r) h n = h
  handle_packet-IsHarmless before t s (user_dns_mapping_response r) h n = h
  handle_packet-IsHarmless before t s (passwd_get_list_response r) h n = h
  handle_packet-IsHarmless before t s (shadow_get_list_response r) h n = h
  handle_packet-IsHarmless before t s notify_root_changed h n = h
  handle_packet-IsHarmless before t s notify_dns_mappings_changed h n = h
  handle_packet-IsHarmless before t s notify_users_changed h n = h

  pub round-IsHarmless :
      (before : State D) (t : Turn D) (s : Session D)
      → IsHarmless before s
      → IsGuest sha512_hex before.config t
      → IsHarmless before (round crates sha512_hex peer t s).after
  unfolding round
  round-IsHarmless before t s h g =
      on_packet_keeps (IsHarmless before) s t.received (handle_packet crates sha512_hex peer t s) h
        (λ p e. handle_packet-IsHarmless before t s p h (rw h.config (g p e)))

  serve-IsHarmless :
      (before : State D) (ts : List (Turn D)) (s : Session D)
      → IsHarmless before s
      → All (IsGuest sha512_hex before.config) ts
      → IsHarmless before (serve crates sha512_hex peer ts s).after
  unfolding serve
  serve-IsHarmless before [] s h g = h
  serve-IsHarmless before (t ∷ ts) s h (g, gs) =
      let k = round-IsHarmless before t s h g in
      continue_keeps (IsHarmless before) (round crates sha512_hex peer t s)
        (serve crates sha512_hex peer ts) _ k (serve-IsHarmless before ts _ k gs)

  -- Whatever is outside: a client that shows no accepted password changes no user, no host name and
  -- not the configuration, notifies nobody, and is sent no list of password hashes.
  pub handle_client-IsHarmless :
      (ts : List (Turn D)) (s : Session D)
      → All IsPublic s.sent
      → All (IsGuest sha512_hex s.state.config) ts
      → IsHarmless s.state (handle_client crates sha512_hex peer ts s).after
  unfolding handle_client
  handle_client-IsHarmless [] s k g = record {
    config = refl;
    config_text = refl;
    users = refl;
    hosts = refl;
    notified = refl;
    sent = k;
  }
  handle_client-IsHarmless (t ∷ ts) s k (g, gs) =
      let start : IsHarmless s.state s = record {
        config = refl;
        config_text = refl;
        users = refl;
        hosts = refl;
        notified = refl;
        sent = k;
      } in
      let h = handle_handshake-IsHarmless s.state t s start in
      continue_keeps (IsHarmless s.state) (handle_handshake t s) (serve crates sha512_hex peer ts) _
        h (serve-IsHarmless s.state ts _ h gs)
