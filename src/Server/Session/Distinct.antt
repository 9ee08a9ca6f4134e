-- ===== src/Server/Session/Distinct.antt =====
-- Sessions keep the names and the ids of users distinct.
use lapas.Prelude.{
  ℕ, suc, ◌+◌, ◌^◌, ◌<◌, ◌≤◌, ◌≡◌, refl, List, [], ◌∷◌, length, arith, inl, inr, Bool-cases, ◌==◌,
}
use lapas.Prelude.Text.{Str}
use lapas.Proto.Packet.{
  version, LapasProtocol, control_handshake, control_handshake_response, control_ping,
  control_listen_events, control_check_auth, control_check_auth_response, user_register,
  user_register_response, user_dns_mapping, user_dns_mapping_response, passwd_get_list,
  passwd_get_list_response, shadow_get_list, shadow_get_list_response, notify_root_changed,
  notify_dns_mappings_changed, notify_users_changed,
}
use lapas.Server.Users.{Crates, Outside, UserIndex, UserService, push_user}
use lapas.Server.Users as Users
use lapas.Server.Users.Sound.{IsSound, add_user-IsSound, add_user-cases}
use lapas.Server.State.{State, Peer}
use lapas.Server.Session.{
  Turn, Session, round, serve, answer_handshake, handle_handshake, handle_client,
}
use lapas.Server.Session.Keeps.{round_keeps}
use lapas.Server.Session.Lift.{on_packet_keeps, continue_keeps}

module _ {D : Type 0} where
  -- The users are sound, and there are ids for `n` more.
  pub record HasRoom (n : ℕ) (index : UserIndex D) : Type 0 where
    pub sound : IsSound index
    pub room : index.next_id + n < 2 ^ 64

  pub HasRoom-fewer : (n : ℕ) (index : UserIndex D) → HasRoom (suc n) index → HasRoom n index
  HasRoom-fewer n index h = record { sound = h.sound; room = let r = h.room in omega arith }

  -- A property of the shared state.
  abbrev pub Room : ℕ → State D → Type 0
  Room n s = HasRoom n s.user_service.user_index

  add_user-next_id :
      (crates : Crates D) (os : Outside D) (username new_password : Str) (s : UserService D)
      → (Users.add_user crates os username new_password s).after.user_index.next_id
        ≤ s.user_index.next_id + 1
  unfolding push_user
  add_user-next_id crates os username new_password s =
      elim (add_user-cases crates os username new_password s) [
        | inl (message, e) ↦ rw e (omega arith)
        | inr (free, e) ↦ rw e (omega arith)
      ]

  add_user-HasRoom :
      (crates : Crates D) (os : Outside D) (username new_password : Str) (n : ℕ) (s : UserService D)
      → HasRoom (suc n) s.user_index
      → HasRoom n (Users.add_user crates os username new_password s).after.user_index
  add_user-HasRoom crates os username new_password n s h = record {
    sound =
        add_user-IsSound crates os username new_password s (let r = h.room in omega arith) h.sound;
    room =
        let r = h.room in let m = add_user-next_id crates os username new_password s in omega arith;
  }

  answer_handshake_state :
      (t : Turn D) (s : Session D) (p : LapasProtocol D)
      → (answer_handshake t s p).after.state ≡ s.state
  unfolding answer_handshake
  answer_handshake_state t s (control_handshake v) = elim (Bool-cases (v == version)) [
    | inl e ↦ rw e
    | inr e ↦ rw e
  ]
  answer_handshake_state t s (control_handshake_response r) = refl
  answer_handshake_state t s control_ping = refl
  answer_handshake_state t s control_listen_events = refl
  answer_handshake_state t s (control_check_auth a) = refl
  answer_handshake_state t s (control_check_auth_response r) = refl
  answer_handshake_state t s (user_register a n p) = refl
  answer_handshake_state t s (user_register_response r) = refl
  answer_handshake_state t s (user_dns_mapping a n) = refl
  answer_handshake_state t s (user_dns_mapping_response r) = refl
  answer_handshake_state t s passwd_get_list = refl
  answer_handshake_state t s (passwd_get_list_response r) = refl
  answer_handshake_state t s (shadow_get_list a) = refl
  answer_handshake_state t s (shadow_get_list_response r) = refl
  answer_handshake_state t s notify_root_changed = refl
  answer_handshake_state t s notify_dns_mappings_changed = refl
  answer_handshake_state t s notify_users_changed = refl

  pub handle_handshake_state :
      (t : Turn D) (s : Session D) → (handle_handshake t s).after.state ≡ s.state
  unfolding handle_handshake
  handle_handshake_state t s =
      on_packet_keeps (λ x. x.state ≡ s.state) s t.received (answer_handshake t s) refl
        (λ p e. answer_handshake_state t s p)

module _ {D : Type 0} (crates : Crates D) (sha512_hex : Str → Str) (peer : Peer) where
  pub round-HasRoom :
      (n : ℕ) (t : Turn D) (s : Session D)
      → HasRoom (suc n) s.state.user_service.user_index
      → HasRoom n (round crates sha512_hex peer t s).after.state.user_service.user_index
  round-HasRoom n t s h =
      round_keeps crates sha512_hex peer (λ x. HasRoom n x.user_index) t s (HasRoom-fewer n _ h)
        (λ u p. add_user-HasRoom crates t.users u p n s.state.user_service h)
        (λ text. HasRoom-fewer n _ h)

  serve-IsSound :
      (ts : List (Turn D)) (s : Session D)
      → HasRoom (length ts) s.state.user_service.user_index
      → IsSound (serve crates sha512_hex peer ts s).after.state.user_service.user_index
  unfolding serve
  serve-IsSound [] s h = h.sound
  serve-IsSound (t ∷ ts) s h =
      let after = round-HasRoom (length ts) t s h in
      continue_keeps (λ x. IsSound x.state.user_service.user_index)
        (round crates sha512_hex peer t s) (serve crates sha512_hex peer ts) _ after.sound
        (serve-IsSound ts _ after)

  -- Whatever is outside: a session that starts with distinct names, distinct ids below `next_id` and
  -- more ids left than it has rounds ends with distinct names and distinct ids below `next_id`.
  handle_client-IsSound :
      (ts : List (Turn D)) (s : Session D)
      → IsSound s.state.user_service.user_index
      → s.state.user_service.user_index.next_id + length ts < 2 ^ 64
      → IsSound (handle_client crates sha512_hex peer ts s).after.state.user_service.user_index
  unfolding handle_client
  handle_client-IsSound [] s h l = h
  handle_client-IsSound (t ∷ ts) s h l =
      let room : HasRoom (length ts) s.state.user_service.user_index = record {
        sound = h;
        room = omega arith;
      } in
      let after : Room (length ts) (handle_handshake t s).after.state =
        rw (handle_handshake_state t s) room in
      continue_keeps (λ x. IsSound x.state.user_service.user_index) (handle_handshake t s)
        (serve crates sha512_hex peer ts) _ after.sound (serve-IsSound ts _ after)
