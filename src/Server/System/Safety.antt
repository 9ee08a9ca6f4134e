-- ===== src/Server/System/Safety.antt =====
-- What holds in every interleaving of the clients' tasks.
use lapas.Prelude.{
  Outcome-cases, ℕ, suc, ◌+◌, ◌^◌, ◌<◌, ◌≡◌, ◌⊎◌, inl, inr, refl, ap, Bool, true, false, Outcome,
  ok, err, panic, arith, ◌∙◌,
}
use lapas.Prelude.Text.{Str}
use lapas.Proto.Serde.{Result}
use lapas.Proto.Packet.{
  LapasProtocol, control_handshake, control_handshake_response, control_ping, control_listen_events,
  control_check_auth, control_check_auth_response, user_register, user_register_response,
  user_dns_mapping, user_dns_mapping_response, passwd_get_list, passwd_get_list_response,
  shadow_get_list, shadow_get_list_response, notify_root_changed, notify_dns_mappings_changed,
  notify_users_changed,
}
use lapas.Server.Users.{Crates}
use lapas.Server.Users.Sound.{IsSound}
use lapas.Server.State.{
  DnsOutside, DnsService, Target, host_file, user_file, config_file, Files, store, files_of,
  mapping_path, create_mapping, State, Peer, check_auth, create_user_host_mapping,
  register_event_listener,
}
use lapas.Server.Session.{Turn, Session, Step, guarded, handle_packet, round}
use lapas.Server.Session.Lift.{on_packet_keeps, respond_keeps, guarded_keeps}
use lapas.Server.Session.Distinct.{HasRoom-fewer, Room, round-HasRoom, handle_handshake_state}
use lapas.Server.Session.Keeps.{announced_users}
use lapas.Server.System.{System, Move, greets, asks, Reach, start, later}

module _ {D : Type 0} (crates : Crates D) (sha512_hex : Str → Str) where
  Move-HasRoom :
      {s v : System D} (n : ℕ) → Move crates sha512_hex s v → Room (suc n) s.state → Room n v.state
  Move-HasRoom {s} n (greets i t e) h = rw (handle_handshake_state t _) (HasRoom-fewer n _ h)
  Move-HasRoom {s} n (asks peer t e) h = round-HasRoom crates sha512_hex peer n t _ h

  Reach-HasRoom :
      {s v : System D} {n : ℕ} (k m : ℕ)
      → Reach crates sha512_hex s n v
      → n + k ≡ m
      → Room m s.state
      → Room k v.state
  Reach-HasRoom k m start e h = let q : m ≡ k = omega arith in rw (← q) h
  Reach-HasRoom k m (later {n} r mv q) e h =
      Move-HasRoom k mv (Reach-HasRoom (suc k) m r (omega arith) h)

  -- A packet that asks, with an accepted password, for a user, or for a host name whose path names the
  -- file of the users.
  abbrev pub Registers : State D → DnsOutside → LapasProtocol D → Type 0
  Registers s os (user_register a n p) = check_auth sha512_hex s.config a ≡ ok true
  Registers s os (user_dns_mapping a n) =
      (check_auth sha512_hex s.config a ≡ ok true)
      × (os.target (mapping_path n s.dns_service) ≡ user_file)
  Registers s os _ = ⊥

  store_users :
      (target : Target) (path text : Str) (files : Files)
      → (target ≡ user_file) ⊎ ((store target path text files).user_text ≡ files.user_text)
  store_users host_file path text files = inr refl
  store_users user_file path text files = inl refl
  store_users config_file path text files = inr refl

  create_mapping_users :
      (os : DnsOutside) (n ip : Str) (dns : DnsService) (files : Files)
      → (os.target (mapping_path n dns) ≡ user_file)
        ⊎ ((create_mapping os n ip dns files).after.user_text ≡ files.user_text)
  unfolding create_mapping
  create_mapping_users os n ip dns files = elim (Outcome-cases os.create) [
    | inl (u, e) ↦ rw e (store_users (os.target (mapping_path n dns)) (mapping_path n dns) _ files)
    | inr (inl (m, e)) ↦ inr (rw e refl)
    | inr (inr e) ↦ inr (rw e refl)
  ]

  abbrev SameUsers : State D → State D → Type 0
  SameUsers s x = x.user_service ≡ s.user_service

  guarded_state :
      {A : Type 0} (t : Turn D) (s : Session D) (response : Result A Str → LapasProtocol D)
      (c : Outcome Bool) (granted : Step D)
      → (c ≡ ok true) ⊎ ((guarded t response s c granted).after.state ≡ s.state)
  unfolding guarded
  guarded_state t s response (ok true) granted = inl refl
  guarded_state t s response (ok false) granted = inr refl
  guarded_state t s response (err e) granted = inr refl
  guarded_state t s response panic granted = inr refl

  handle_packet-users :
      (peer : Peer) (t : Turn D) (s : Session D) (p : LapasProtocol D)
      → Registers s.state t.dns p
        ⊎ ((handle_packet crates sha512_hex peer t s p).after.state.user_service
            ≡ s.state.user_service)
  unfolding handle_packet register_event_listener create_user_host_mapping
  handle_packet-users peer t s (user_register a n p) =
      elim (guarded_state t s user_register_response (check_auth sha512_hex s.state.config a) _) [
        | inl e ↦ inl e
        | inr e ↦ inr (ap (λ (x : State D). x.user_service) e)
      ]
  handle_packet-users peer t s (user_dns_mapping a n) =
      elim (guarded_state t s user_dns_mapping_response (check_auth sha512_hex s.state.config a)
        _) [
          | inl e ↦
              elim (create_mapping_users t.dns n peer.ip s.state.dns_service (files_of s.state)) [
                | inl q ↦ inl (e, q)
                | inr q ↦ inr (
                    guarded_keeps (SameUsers s.state) t s user_dns_mapping_response _ _ refl (
                      respond_keeps (SameUsers s.state) t _ user_dns_mapping_response _ (
                        announced_users _ _ _
                        ∙ ap (λ file. record s.state.user_service { file = file }) q)))
              ]
          | inr e ↦ inr (ap (λ (x : State D). x.user_service) e)
        ]
  handle_packet-users peer t s (control_check_auth a) = inr (
      guarded_keeps (SameUsers s.state) t s control_check_auth_response _ _ refl
        (respond_keeps (SameUsers s.state) t s control_check_auth_response (ok tt) refl))
  handle_packet-users peer t s (shadow_get_list a) = inr (
      guarded_keeps (SameUsers s.state) t s shadow_get_list_response _ _ refl
        (respond_keeps (SameUsers s.state) t s shadow_get_list_response _ refl))
  handle_packet-users peer t s passwd_get_list =
      inr (respond_keeps (SameUsers s.state) t s passwd_get_list_response _ refl)
  handle_packet-users peer t s control_listen_events = inr refl
  handle_packet-users peer t s (control_handshake v) = inr refl
  handle_packet-users peer t s (control_handshake_response r) = inr refl
  handle_packet-users peer t s control_ping = inr refl
  handle_packet-users peer t s (control_check_auth_response r) = inr refl
  handle_packet-users peer t s (user_register_response r) = inr refl
  handle_packet-users peer t s (user_dns_mapping_response r) = inr refl
  handle_packet-users peer t s (passwd_get_list_response r) = inr refl
  handle_packet-users peer t s (shadow_get_list_response r) = inr refl
  handle_packet-users peer t s notify_root_changed = inr refl
  handle_packet-users peer t s notify_dns_mappings_changed = inr refl
  handle_packet-users peer t s notify_users_changed = inr refl

  -- The round of a client that has greeted and sends such a packet.
  abbrev pub Registered : {s v : System D} → Move crates sha512_hex s v → Type 0
  Registered (greets i t e) = ⊥
  Registered {s} (asks peer t e) =
      (p : LapasProtocol D) × (t.received ≡ ok p) × Registers s.state t.dns p

  Move-users :
      {s v : System D} (mv : Move crates sha512_hex s v)
      → Registered mv ⊎ (v.state.user_service ≡ s.state.user_service)
  unfolding round
  Move-users {s} (greets i t e) =
      inr (ap (λ (x : State D). x.user_service) (handle_handshake_state t _))
  Move-users {s} (asks peer t e) =
      on_packet_keeps
        (λ x.
          ((p : LapasProtocol D) × (t.received ≡ ok p) × Registers s.state t.dns p)
          ⊎ (x.state.user_service ≡ s.state.user_service))
        _ t.received (handle_packet crates sha512_hex peer t _) (inr refl)
        (λ p q. elim (handle_packet-users peer t _ p) [ inl r ↦ inl (p, q, r) | inr k ↦ inr k ])

  -- Such a round took place somewhere on the way.
  abbrev pub Somewhere : {s v : System D} {n : ℕ} → Reach crates sha512_hex s n v → Type 0
  Somewhere start = ⊥
  Somewhere (later r mv q) = Registered mv ⊎ Somewhere r

  -- However the rounds of any number of clients interleave and whatever fails outside: the users, in
  -- memory and in the file, change only where a client that has greeted the server asks, with an
  -- accepted password, for a new user, or for a host name whose path names the file of the users.
  pub Reach-users :
      {s v : System D} {n : ℕ} (r : Reach crates sha512_hex s n v)
      → Somewhere r ⊎ (v.state.user_service ≡ s.state.user_service)
  Reach-users start = inr refl
  Reach-users (later r mv q) = elim (Move-users mv) [
    | inl a ↦ inl (inl a)
    | inr a ↦ elim (Reach-users r) [ inl b ↦ inl (inr b) | inr b ↦ inr (a ∙ b) ]
  ]

  -- However the rounds of any number of clients interleave and whatever fails outside: names and ids
  -- stay distinct, and ids below `next_id`, for as many rounds as there were ids left.
  pub Reach-IsSound :
      {s v : System D} {n : ℕ}
      → Reach crates sha512_hex s n v
      → IsSound s.state.user_service.user_index
      → s.state.user_service.user_index.next_id + n < 2 ^ 64
      → IsSound v.state.user_service.user_index
  Reach-IsSound {n} r h l =
      (Reach-HasRoom 0 n r (omega arith) (record { sound = h; room = l })).sound
