-- ===== src/Server/System/Announced.antt =====
-- The notifications behind any interleaving, against the users that it adds.
use lapas.Prelude.{
  Bool, true, false, Bool-cases, filter, ℕ, ◌+◌, ◌≡◌, ◌∙◌, refl, sym, arith, length, length-append,
  List, [], ◌∷◌, ◌++◌, append-nil, append_assoc, Outcome, ok, err, panic, inl, inr,
}
use lapas.Prelude.Text.{Str}
use lapas.Proto.Packet.{LapasProtocol, notify_users_changed, notify_dns_mappings_changed}
use lapas.Server.Users.{Crates, Outside, UserIndexEntry, push_user, new_user}
use lapas.Server.Users.Sound.{add_user-cases}
use lapas.Server.State.{
  Files, with_files, State, DnsOutside, announced, notify, add_user, create_user_host_mapping,
  register_event_listener, Peer,
}
use lapas.Server.Session.Distinct.{handle_handshake_state}
use lapas.Server.Session.Keeps.{round_holds}
use lapas.Server.System.{System, Move, greets, asks, Reach, start, later}
use lapas.Server.System.Durable.{IsQuiet, HasText, Quiet, Undisturbed, push_user-quiet}

module _ {D : Type 0} where
  abbrev pub is_users_changed : LapasProtocol D → Bool
  is_users_changed notify_users_changed = true
  is_users_changed p = false

  abbrev pub users_changes : List (LapasProtocol D) → ℕ
  users_changes ps = length (filter is_users_changed ps)

  users_changes-append :
      (ps qs : List (LapasProtocol D))
      → users_changes (ps ++ qs) ≡ users_changes ps + users_changes qs
  users_changes-append [] qs = omega arith
  users_changes-append (p ∷ ps) qs =
      let rest = users_changes-append ps qs in
      elim (Bool-cases (is_users_changed p)) [ inl e ↦ rw e (omega arith) | inr e ↦ rw e rest ]

  -- The notifications and the users that have come since the state `x`, as many of the one as of the
  -- other.
  pub record IsAnnounced (x y : State D) : Type 0 where
    pub more : List (LapasProtocol D)
    pub new_users : List (UserIndexEntry D)
    pub notified : y.notified ≡ x.notified ++ more
    pub users : y.user_service.user_index.users ≡ x.user_service.user_index.users ++ new_users
    pub each_once : users_changes more ≡ length new_users

  same-IsAnnounced : (x : State D) → IsAnnounced x x
  same-IsAnnounced x = record {
    more = [];
    new_users = [];
    notified = sym (append-nil x.notified);
    users = sym (append-nil x.user_service.user_index.users);
    each_once = refl;
  }

  module _ (x y : State D) (h : IsAnnounced x y) where
    -- A notification, with these users behind the others.
    next-IsAnnounced :
        (z : State D) (p : LapasProtocol D) (us : List (UserIndexEntry D))
        → z.notified ≡ y.notified ++ (p ∷ [])
        → z.user_service.user_index.users ≡ y.user_service.user_index.users ++ us
        → users_changes (p ∷ []) ≡ length us
        → IsAnnounced x z
    next-IsAnnounced z p us e f same = record {
      more = h.more ++ (p ∷ []);
      new_users = h.new_users ++ us;
      notified = e ∙ rw h.notified (append_assoc x.notified h.more (p ∷ []));
      users = f ∙ rw h.users (append_assoc x.user_service.user_index.users h.new_users us);
      each_once = omega (
        arith,
        users_changes-append h.more (p ∷ []),
        length-append h.new_users us,
        h.each_once,
        same,
      );
    }

    unannounced : (files : Files) → IsAnnounced x (with_files files y)
    unannounced files = record {
      more = h.more;
      new_users = h.new_users;
      notified = h.notified;
      users = h.users;
      each_once = h.each_once;
    }

    announced-IsAnnounced :
        (r : Outcome (Unit {0})) (files : Files)
        → IsAnnounced x (announced r notify_dns_mappings_changed (with_files files y))
    unfolding notify
    announced-IsAnnounced (ok u) files =
        next-IsAnnounced _ notify_dns_mappings_changed [] refl
          (sym (append-nil y.user_service.user_index.users)) refl
    announced-IsAnnounced (err e) files = unannounced files
    announced-IsAnnounced panic files = unannounced files

    mapped-IsAnnounced :
        (os : DnsOutside) (username ip : Str)
        → IsAnnounced x (create_user_host_mapping os username ip y).after
    unfolding create_user_host_mapping
    mapped-IsAnnounced os username ip = announced-IsAnnounced _ _

    added-IsAnnounced :
        (crates : Crates D)
        → HasText crates
        → (os : Outside D) → IsQuiet os
        → (username password : Str) → IsAnnounced x (add_user crates os username password y).after
    unfolding add_user notify push_user
    added-IsAnnounced crates texts os quiet username password =
        elim (add_user-cases crates os username password y.user_service) [
          | inl (message, e) ↦ rw e h
          | inr (free, e) ↦
              let ends = push_user-quiet crates texts os quiet username password y.user_service in
              rw (e, ends)
                (next-IsAnnounced _ notify_users_changed
                  (new_user crates os username password y.user_service.user_index.next_id ∷ []) refl
                  refl refl)
        ]

    listened-IsAnnounced : (peer : Peer) → IsAnnounced x (register_event_listener peer y)
    unfolding register_event_listener
    listened-IsAnnounced peer = record {
      more = h.more;
      new_users = h.new_users;
      notified = h.notified;
      users = h.users;
      each_once = h.each_once;
    }

module _ {D : Type 0} (crates : Crates D) (sha512_hex : Str → Str) where
  Move-IsAnnounced :
      HasText crates
      → (x : State D) {s v : System D} (mv : Move crates sha512_hex s v)
      → Quiet crates sha512_hex mv
      → IsAnnounced x s.state
      → IsAnnounced x v.state
  Move-IsAnnounced texts x (greets i t e) q h = rw (handle_handshake_state t _) h
  Move-IsAnnounced texts x {s} (asks peer t e) q h =
      round_holds crates sha512_hex peer (IsAnnounced x) t _ h
        (λ u p. added-IsAnnounced x s.state h crates texts t.users q u p)
        (λ a u e. mapped-IsAnnounced x s.state h t.dns u peer.ip)
        (listened-IsAnnounced x s.state h peer)

  -- With serde_json writing every index: however the rounds of any number of clients interleave, where
  -- the file system of the users does not fail, the notifications that were sent before stay, in
  -- order, and behind them stand as many of changed users as users were added.
  pub Reach-IsAnnounced :
      HasText crates
      → {s v : System D} {n : ℕ} (r : Reach crates sha512_hex s n v)
      → Undisturbed crates sha512_hex r
      → IsAnnounced s.state v.state
  Reach-IsAnnounced texts {s} start u = same-IsAnnounced s.state
  Reach-IsAnnounced texts {s} (later r mv q) (m, u) =
      Move-IsAnnounced texts s.state mv m (Reach-IsAnnounced texts r u)
