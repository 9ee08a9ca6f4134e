-- ===== src/Server/System/Durable.antt =====
-- The file of the users behind any interleaving.
use lapas.Prelude.{ℕ, ◌≡◌, ◌∙◌, ap, refl, ok, inl, inr, Outcome-cases}
use lapas.Prelude.Text.{Str}
use lapas.Server.Users.{
  Crates, Outside, UserIndex, UserService, new, pushed, push_user, write_user_index, write_text,
}
use lapas.Server.Users as Users
use lapas.Server.Users.Sound.{add_user-cases}
use lapas.Server.Users.Stored.{ReadsBack, new-add_user}
use lapas.Server.Session.Distinct.{handle_handshake_state}
use lapas.Server.Session.Keeps.{announced_users, announced_text, round_holds}
use lapas.Server.State.{
  DnsOutside, DnsService, State, Files, files_of, host_file, mapping_path, create_mapping, add_user,
  create_user_host_mapping, register_event_listener,
}
use lapas.Server.Session.{Turn}
use lapas.Proto.Models.{ApiAuth}
use lapas.Proto.Packet.{user_dns_mapping}
use lapas.Server.System.{System, Move, greets, asks, Reach, start, later}

-- No call of the file system fails.
abbrev pub IsQuiet : {D : Type 0} → Outside D → Type 0
IsQuiet os =
    (os.create ≡ ok tt)
    × (os.write_all ≡ ok tt)
    × (os.metadata ≡ ok tt)
    × (os.set_permissions ≡ ok tt)

-- What serde_json promises of these records: every index has a text.
abbrev pub HasText : {D : Type 0} → Crates D → Type 0
HasText {D} crates =
    (index : UserIndex D) → (text : Str) × (crates.to_string_pretty index ≡ ok text)

module _ {D : Type 0} (crates : Crates D) where
  -- A new start of the service finds the same users, and the same `next_id`.
  abbrev pub IsDurable : UserService D → Type 0
  IsDurable s = new crates s.file ≡ ok s

  pub push_user-quiet :
      HasText crates
      → (os : Outside D) → IsQuiet os
      → (username password : Str) (s : UserService D)
      → (push_user crates os username password s).result ≡ ok tt
  unfolding push_user write_user_index write_text
  push_user-quiet texts os (c, w, m, p) username password s =
      let (text, e) = texts (pushed crates os username password s.user_index) in rw (c, e, w, m, p)

  add_user-IsDurable :
      ReadsBack crates
      → HasText crates
      → (os : Outside D) → IsQuiet os
      → os.written ≡ ok tt
      → (username password : Str) (s : UserService D) → IsDurable s
      → IsDurable (Users.add_user crates os username password s).after
  add_user-IsDurable laws texts os quiet written username password s h =
      elim (add_user-cases crates os username password s) [
        | inl (message, e) ↦ rw e h
        | inr (free, e) ↦
            new-add_user crates laws os username password s
              (ap (λ d. d.result) e ∙ push_user-quiet texts os quiet username password s) written
      ]

module _ (os : DnsOutside) (n ip : Str) (dns : DnsService) (files : Files)
    (apart : os.target (mapping_path n dns) ≡ host_file) where
  create_mapping_text : (create_mapping os n ip dns files).after.user_text ≡ files.user_text
  unfolding create_mapping
  create_mapping_text = elim (Outcome-cases os.create) [
    | inl (u, e) ↦ rw (e, apart) refl
    | inr (inl (m, e)) ↦ rw e refl
    | inr (inr e) ↦ rw e refl
  ]

  create_mapping_config : (create_mapping os n ip dns files).after.config_text ≡ files.config_text
  unfolding create_mapping
  create_mapping_config = elim (Outcome-cases os.create) [
    | inl (u, e) ↦ rw (e, apart) refl
    | inr (inl (m, e)) ↦ rw e refl
    | inr (inr e) ↦ rw e refl
  ]

module _ {D : Type 0} (crates : Crates D) (sha512_hex : Str → Str) where
  abbrev pub Quiet : {s v : System D} → Move crates sha512_hex s v → Type 0
  Quiet (greets i t e) = Unit
  Quiet (asks peer t e) = IsQuiet t.users

  -- No round meets a file system that fails.
  abbrev pub Undisturbed : {s v : System D} {n : ℕ} → Reach crates sha512_hex s n v → Type 0
  Undisturbed start = Unit
  Undisturbed (later r mv q) = Quiet mv × Undisturbed r

  -- A mapping that the packet asks for goes to a file that is not one of the server's own.
  abbrev pub IsApart : Turn D → DnsService → Type 0
  IsApart t dns =
      (a : ApiAuth) (n : Str)
      → t.received ≡ ok (user_dns_mapping a n)
      → t.dns.target (mapping_path n dns) ≡ host_file

  abbrev pub Keeps : {s v : System D} → Move crates sha512_hex s v → Type 0
  Keeps (greets i t e) = Unit
  Keeps {s} (asks peer t e) = (t.users.written ≡ ok tt) × IsApart t s.state.dns_service

  -- No write of the file of the users fails in the background, and no mapping is asked for over the
  -- server's own files.
  abbrev pub Keeping : {s v : System D} {n : ℕ} → Reach crates sha512_hex s n v → Type 0
  Keeping start = Unit
  Keeping (later r mv q) = Keeps mv × Keeping r

  -- What a new start reads: the file of the users, and the text of the configuration.
  abbrev pub IsKept : Str → State D → Type 0
  IsKept text x = IsDurable crates x.user_service × (x.config_text ≡ text)

  Move-IsKept :
      ReadsBack crates
      → HasText crates
      → (text : Str) {s v : System D} (mv : Move crates sha512_hex s v) → Quiet mv
      → Keeps mv
      → IsKept text s.state
      → IsKept text v.state
  unfolding add_user create_user_host_mapping register_event_listener
  Move-IsKept laws texts text (greets i t e) q k h = rw (handle_handshake_state t _) h
  Move-IsKept laws texts text {s} (asks peer t e) quiet (written, apart) (h, c) =
      round_holds crates sha512_hex peer (IsKept text) t _ (h, c)
        (λ u p. (
          rw announced_users (
              add_user-IsDurable crates laws texts t.users quiet written u p s.state.user_service
                h),
          announced_text _ _ _ ∙ c,
        ))
        (λ a u q. (
          rw
              (
                announced_users,
                create_mapping_text t.dns u peer.ip s.state.dns_service (files_of s.state)
                    (apart a u q),
              )
              h,
          announced_text _ _ _
              ∙ create_mapping_config t.dns u peer.ip s.state.dns_service (files_of s.state)
                  (apart a u q)
              ∙ c,
        ))
        (h, c)

  -- With serde_json writing every index and reading back what it writes: however the rounds of any
  -- number of clients interleave, where the file system does not fail, in the background neither, and no
  -- mapping is asked for over the server's own files, a new start of the service finds the users, and the `next_id`, that the
  -- running one has, and the text of the configuration is what it was.
  pub Reach-IsKept :
      ReadsBack crates
      → HasText crates
      → (text : Str) {s v : System D} {n : ℕ} (r : Reach crates sha512_hex s n v) → Undisturbed r
      → Keeping r
      → IsKept text s.state
      → IsKept text v.state
  Reach-IsKept laws texts text start u k h = h
  Reach-IsKept laws texts text (later r mv q) (m, u) (l, k) h =
      Move-IsKept laws texts text mv m l (Reach-IsKept laws texts text r u k h)
