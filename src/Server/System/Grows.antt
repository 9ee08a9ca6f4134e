-- ===== src/Server/System/Grows.antt =====
-- No interleaving loses a user.
use lapas.Prelude.{ℕ, ◌≡◌, refl, sym, ◌∙◌, inl, inr, List, [], ◌++◌, append-nil, append_assoc}
use lapas.Prelude.Text.{Str}
use lapas.Server.Users.{Crates, Outside, UserIndexEntry, UserService, push_user, new_user}
use lapas.Server.Users as Users
use lapas.Server.Users.Sound.{add_user-cases}
use lapas.Server.Session.Distinct.{handle_handshake_state}
use lapas.Server.Session.Keeps.{round_keeps}
use lapas.Server.System.{System, Move, greets, asks, Reach, start, later}

module _ {D : Type 0} where
  -- The users of `x`, and then those of later calls.
  abbrev pub Extends : UserService D → UserService D → Type 0
  Extends x y = (more : List (UserIndexEntry D)) × (y.user_index.users ≡ x.user_index.users ++ more)

  Extends-same : (x : UserService D) → Extends x x
  Extends-same x = ([], sym (append-nil x.user_index.users))

  Extends-trans : (x y z : UserService D) → Extends x y → Extends y z → Extends x z
  Extends-trans x y z (m, e) (n, f) = (m ++ n, f ∙ rw e (append_assoc x.user_index.users m n))

  add_user-Extends :
      (crates : Crates D) (os : Outside D) (username new_password : Str) (s : UserService D)
      → Extends s (Users.add_user crates os username new_password s).after
  unfolding push_user
  add_user-Extends crates os username new_password s =
      elim (add_user-cases crates os username new_password s) [
        | inl (message, e) ↦ rw e (Extends-same s)
        | inr (free, e) ↦ rw e (_, refl)
      ]

module _ {D : Type 0} (crates : Crates D) (sha512_hex : Str → Str) where
  Move-Extends :
      {s v : System D}
      → Move crates sha512_hex s v
      → Extends s.state.user_service v.state.user_service
  Move-Extends {s} (greets i t e) =
      rw (handle_handshake_state t _) (Extends-same s.state.user_service)
  Move-Extends {s} (asks peer t e) =
      round_keeps crates sha512_hex peer (Extends s.state.user_service) t _
        (Extends-same s.state.user_service)
        (λ u p. add_user-Extends crates t.users u p s.state.user_service)
        (λ text. Extends-same s.state.user_service)

  -- However the rounds of any number of clients interleave and whatever fails outside: every user of
  -- the index stays, unchanged and in its place, and new ones stand behind.
  pub Reach-Extends :
      {s v : System D} {n : ℕ}
      → Reach crates sha512_hex s n v
      → Extends s.state.user_service v.state.user_service
  Reach-Extends {s} start = Extends-same s.state.user_service
  Reach-Extends {s} {v} (later {u} r mv q) =
      Extends-trans s.state.user_service u.state.user_service v.state.user_service (Reach-Extends r)
        (Move-Extends mv)
