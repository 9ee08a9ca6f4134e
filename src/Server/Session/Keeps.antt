-- ===== src/Server/Session/Keeps.antt =====
-- What holds of the users before a round, and after `add_user` in it, holds after the round.
use lapas.Prelude.{Option, ◌≡◌, refl, Outcome, ok, err, panic}
use lapas.Prelude.Text.{Str}
use lapas.Proto.Models.{ApiAuth}
use lapas.Proto.Packet.{
  LapasProtocol, control_handshake, control_handshake_response, control_ping, control_listen_events,
  control_check_auth, control_check_auth_response, user_register, user_register_response,
  user_dns_mapping, user_dns_mapping_response, passwd_get_list, passwd_get_list_response,
  shadow_get_list, shadow_get_list_response, notify_root_changed, notify_dns_mappings_changed,
  notify_users_changed,
}
use lapas.Server.Users.{Crates, UserService}
use lapas.Server.Users as Users
use lapas.Server.State.{
  State, Peer, add_user, create_user_host_mapping, register_event_listener, announced, notify,
}
use lapas.Server.Session.{Turn, Session, handle_packet, round}
use lapas.Server.Session.Lift.{on_packet_keeps, guarded_keeps, respond_keeps}

module _ {D : Type 0} where
  pub announced_users :
      (r : Outcome (Unit {0})) (p : LapasProtocol D) (s : State D)
      → (announced r p s).user_service ≡ s.user_service
  unfolding notify
  announced_users (ok u) p s = refl
  announced_users (err e) p s = refl
  announced_users panic p s = refl

  pub announced_settings :
      (r : Outcome (Unit {0})) (p : LapasProtocol D) (s : State D)
      → ((announced r p s).config ≡ s.config) × ((announced r p s).dns_service ≡ s.dns_service)
  unfolding notify
  announced_settings (ok u) p s = (refl, refl)
  announced_settings (err e) p s = (refl, refl)
  announced_settings panic p s = (refl, refl)

  pub announced_text :
      (r : Outcome (Unit {0})) (p : LapasProtocol D) (s : State D)
      → (announced r p s).config_text ≡ s.config_text
  unfolding notify
  announced_text (ok u) p s = refl
  announced_text (err e) p s = refl
  announced_text panic p s = refl

  -- What `State::init` has read is the same.
  abbrev pub IsSame : State D → State D → Type 0
  IsSame x y = (y.config ≡ x.config) × (y.dns_service ≡ x.dns_service)

-- A property of the shared state that each of its operations keeps.
module _ {D : Type 0} (crates : Crates D) (sha512_hex : Str → Str) (peer : Peer)
    (Held : State D → Type 0) (t : Turn D) (s : Session D) (h : Held s.state)
    (added : (u p : Str) → Held (add_user crates t.users u p s.state).after)
    (mapped : (a : ApiAuth) (u : Str)
      → t.received ≡ ok (user_dns_mapping a u)
      → Held (create_user_host_mapping t.dns u peer.ip s.state).after)
    (registered : Held (register_event_listener peer s.state)) where
  handle_packet_holds :
      (p : LapasProtocol D)
      → t.received ≡ ok p
      → Held (handle_packet crates sha512_hex peer t s p).after.state
  unfolding handle_packet
  handle_packet_holds control_listen_events e = registered
  handle_packet_holds (control_check_auth a) e =
      guarded_keeps Held t s control_check_auth_response _ _ h
        (respond_keeps Held t s control_check_auth_response (ok tt) h)
  handle_packet_holds (user_register a u p) e =
      guarded_keeps Held t s user_register_response _ _ h
        (respond_keeps Held t _ user_register_response _ (added u p))
  handle_packet_holds (user_dns_mapping a u) e =
      guarded_keeps Held t s user_dns_mapping_response _ _ h
        (respond_keeps Held t _ user_dns_mapping_response _ (mapped a u e))
  handle_packet_holds passwd_get_list e = respond_keeps Held t s passwd_get_list_response _ h
  handle_packet_holds (shadow_get_list a) e =
      guarded_keeps Held t s shadow_get_list_response _ _ h
        (respond_keeps Held t s shadow_get_list_response _ h)
  handle_packet_holds (control_handshake v) e = h
  handle_packet_holds (control_handshake_response r) e = h
  handle_packet_holds control_ping e = h
  handle_packet_holds (control_check_auth_response r) e = h
  handle_packet_holds (user_register_response r) e = h
  handle_packet_holds (user_dns_mapping_response r) e = h
  handle_packet_holds (passwd_get_list_response r) e = h
  handle_packet_holds (shadow_get_list_response r) e = h
  handle_packet_holds notify_root_changed e = h
  handle_packet_holds notify_dns_mappings_changed e = h
  handle_packet_holds notify_users_changed e = h

  pub round_holds : Held (round crates sha512_hex peer t s).after.state
  unfolding round
  round_holds =
      on_packet_keeps (λ x. Held x.state) s t.received (handle_packet crates sha512_hex peer t s) h
        (λ p e. handle_packet_holds p e)

module _ {D : Type 0} (crates : Crates D) (sha512_hex : Str → Str) (peer : Peer) where
  -- Of the users alone, whatever is written into their file.
  pub round_keeps :
      (Q : UserService D → Type 0) (t : Turn D) (s : Session D)
      → Q s.state.user_service
      → ((u p : Str) → Q (Users.add_user crates t.users u p s.state.user_service).after)
      → ((text : Option Str) → Q (record s.state.user_service { file = text }))
      → Q (round crates sha512_hex peer t s).after.state.user_service
  unfolding add_user create_user_host_mapping register_event_listener
  round_keeps Q t s h k m =
      round_holds crates sha512_hex peer (λ (x : State D). Q x.user_service) t s h
        (λ u p. rw announced_users (k u p)) (λ a u e. rw announced_users (m _)) h

  pub round-IsSame :
      (t : Turn D) (s : Session D) → IsSame s.state (round crates sha512_hex peer t s).after.state
  unfolding add_user create_user_host_mapping register_event_listener
  round-IsSame t s =
      round_holds crates sha512_hex peer (IsSame s.state) t s (refl, refl)
        (λ u p. announced_settings _ _ _) (λ a u e. announced_settings _ _ _) (refl, refl)
