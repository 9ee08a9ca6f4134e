-- ===== src/Client/Daemon/Broken.antt =====
-- The timer in the middle of a packet.
use lapas.Prelude.{
  zero, suc, ℕ, ◌≡◌, ◌≤◌, ◌<◌, ◌⊎◌, inl, inr, refl, ◌++◌, Bool, List, [], ◌∷◌, drop, Outcome, err,
  arith,
}
use lapas.Prelude.Text.{codes}
use lapas.Proto.Serde.{Bytes, Chrono, failed, protocol_error, read_u32, write_u32, io_error}
use lapas.Proto.Models.{ApiAuth}
use lapas.Proto.Packet.{
  LapasProtocol, control_handshake, control_handshake_response, control_ping, control_listen_events,
  control_check_auth, control_check_auth_response, user_register, user_register_response,
  user_dns_mapping, user_dns_mapping_response, passwd_get_list, passwd_get_list_response,
  shadow_get_list, shadow_get_list_response, notify_root_changed, notify_dns_mappings_changed,
  notify_users_changed, decode_packet, decode_fields, encode_packet,
}
use lapas.Proto.Connection.{send, receive}
use lapas.Client.Cache.{UserCache}
use lapas.Client.Daemon.{Report, Wake, timer, arrival, Daemon, on_wake, follow_events, Done}
use lapas.Client.Daemon.Follows.{at}

module _ (chrono : Chrono) where
  open chrono use {DateTime}

  decode_fields-unknown :
      (tag : ℕ) (s : Bytes)
      → 17 ≤ tag
      → decode_fields chrono tag s ≡ failed (protocol_error (codes "Unknown Packet received"))
  unfolding decode_fields
  decode_fields-unknown tag s l = ground arith

  -- Bytes that no packet can be read from.
  abbrev IsUnread : Bytes → Type 0
  IsUnread s =
      (decode_packet chrono s ≡ failed io_error)
      ⊎ (decode_packet chrono s ≡ failed (protocol_error (codes "Unknown Packet received")))

  -- Three, two or one bytes of a packet's number stand in front of other bytes.
  shifted_1-IsUnread : (t : ℕ) (s : Bytes) → 1 ≤ t → IsUnread (0 ∷ 0 ∷ t ∷ s)
  unfolding decode_packet read_u32
  shifted_1-IsUnread t [] l = inl refl
  shifted_1-IsUnread t (a ∷ s) l = inr (decode_fields-unknown _ s (omega arith))

  shifted_2-IsUnread : (t : ℕ) (s : Bytes) → 1 ≤ t → IsUnread (0 ∷ t ∷ s)
  unfolding decode_packet read_u32
  shifted_2-IsUnread t [] l = inl refl
  shifted_2-IsUnread t (a ∷ []) l = inl refl
  shifted_2-IsUnread t (a ∷ b ∷ s) l = inr (decode_fields-unknown _ s (omega arith))

  shifted_3-IsUnread : (t : ℕ) (s : Bytes) → 1 ≤ t → IsUnread (t ∷ s)
  unfolding decode_packet read_u32
  shifted_3-IsUnread t [] l = inl refl
  shifted_3-IsUnread t (a ∷ []) l = inl refl
  shifted_3-IsUnread t (a ∷ b ∷ []) l = inl refl
  shifted_3-IsUnread t (a ∷ b ∷ c ∷ s) l = inr (decode_fields-unknown _ s (omega arith))

  shifted-IsUnread :
      (k t : ℕ) (s : Bytes) → 1 ≤ k → k < 4 → 1 ≤ t → IsUnread (drop k (0 ∷ 0 ∷ 0 ∷ t ∷ s))
  shifted-IsUnread zero t s l m n = absurd (omega arith)
  shifted-IsUnread (suc zero) t s l m n = shifted_1-IsUnread t s n
  shifted-IsUnread (suc (suc zero)) t s l m n = shifted_2-IsUnread t s n
  shifted-IsUnread (suc (suc (suc zero))) t s l m n = shifted_3-IsUnread t s n
  shifted-IsUnread (suc (suc (suc (suc k)))) t s l m n = absurd (omega arith)

  -- Any packet but a handshake, whose number is 0.
  abbrev pub IsNumbered : LapasProtocol DateTime → Type 0
  IsNumbered (control_handshake v) = ⊥
  IsNumbered _ = Unit

  encode_packet-number :
      (p : LapasProtocol DateTime)
      → IsNumbered p
      → (t : ℕ) × (s : Bytes) × (1 ≤ t) × (encode_packet chrono p ≡ 0 ∷ 0 ∷ 0 ∷ t ∷ s)
  unfolding encode_packet write_u32
  encode_packet-number (control_handshake v) h = absurd h
  encode_packet-number (control_handshake_response r) h = (1, _, omega arith, refl)
  encode_packet-number control_ping h = (2, _, omega arith, refl)
  encode_packet-number control_listen_events h = (3, _, omega arith, refl)
  encode_packet-number (control_check_auth a) h = (4, _, omega arith, refl)
  encode_packet-number (control_check_auth_response r) h = (5, _, omega arith, refl)
  encode_packet-number (user_register a n q) h = (6, _, omega arith, refl)
  encode_packet-number (user_register_response r) h = (7, _, omega arith, refl)
  encode_packet-number (user_dns_mapping a n) h = (8, _, omega arith, refl)
  encode_packet-number (user_dns_mapping_response r) h = (9, _, omega arith, refl)
  encode_packet-number passwd_get_list h = (10, _, omega arith, refl)
  encode_packet-number (passwd_get_list_response r) h = (11, _, omega arith, refl)
  encode_packet-number (shadow_get_list a) h = (12, _, omega arith, refl)
  encode_packet-number (shadow_get_list_response r) h = (13, _, omega arith, refl)
  encode_packet-number notify_root_changed h = (14, _, omega arith, refl)
  encode_packet-number notify_dns_mappings_changed h = (15, _, omega arith, refl)
  encode_packet-number notify_users_changed h = (16, _, omega arith, refl)

  -- The daemon has ended with an error of the stream, and the cache is as it was.
  abbrev pub IsLost : UserCache DateTime → Done (Daemon DateTime) (Unit {0}) → Type 0
  IsLost cache r =
      ((r.result ≡ err (codes "IO Error"))
        ⊎ (r.result ≡ err (codes "ProtocolError: Unknown Packet received")))
      × (r.after.user_cache ≡ cache)

  follow_events_unread :
      (auth : ApiAuth) (child : Outcome (Outcome Bool)) (ws : List Wake) (s w : Bytes)
      (cache : UserCache DateTime) (rs : List Report)
      → IsUnread s
      → IsLost cache (follow_events chrono auth (arrival child ∷ ws) (at chrono auth s w cache rs))
  unfolding follow_events on_wake receive
  follow_events_unread auth child ws s w cache rs (inl e) = rw e (inl refl, refl)
  follow_events_unread auth child ws s w cache rs (inr e) = rw e (inr refl, refl)

  -- Where no write fails, and the timer of `select!` goes off while one to three bytes of a packet
  -- other than a handshake have been read, those bytes are gone: whatever stands behind the packet,
  -- the daemon ends with an error at the next packet that it reads, and the cache does not change.
  pub follow_events-IsLost :
      (auth : ApiAuth) (k : ℕ) (p : LapasProtocol DateTime) (child : Outcome (Outcome Bool))
      (ws : List Wake) (rest w : Bytes) (cache : UserCache DateTime) (rs : List Report)
      → 1 ≤ k
      → k < 4
      → IsNumbered p
      → IsLost cache (
          follow_events chrono auth
            (timer k ∷ arrival child ∷ ws)
            (at chrono auth (encode_packet chrono p ++ rest) w cache rs))
  unfolding follow_events on_wake send
  follow_events-IsLost auth k p child ws rest w cache rs l m h =
      let (t, s, n, e) = encode_packet-number p h in
      follow_events_unread auth child ws (drop k (encode_packet chrono p ++ rest)) _ cache rs
        (rw e (shifted-IsUnread k t (s ++ rest) l m n))
