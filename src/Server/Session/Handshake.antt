-- ===== src/Server/Session/Handshake.antt =====
-- A session goes on only behind a handshake with the server's version.
use lapas.Prelude.{
  ◌≡◌, ◌≢◌, refl, ap, List, ◌∷◌, Outcome, ok, err, panic, ◌>>◌, arith, inl, inr, Bool-cases, ◌==◌,
}
use lapas.Prelude.Text.{Str}
use lapas.Proto.Packet.{
  version, LapasProtocol, control_handshake, control_handshake_response, control_ping,
  control_listen_events, control_check_auth, control_check_auth_response, user_register,
  user_register_response, user_dns_mapping, user_dns_mapping_response, passwd_get_list,
  passwd_get_list_response, shadow_get_list, shadow_get_list_response, notify_root_changed,
  notify_dns_mappings_changed, notify_users_changed,
}
use lapas.Server.Users.{Crates}
use lapas.Server.State.{Peer}
use lapas.Server.Session.{
  Turn, Session, Step, on_packet, answer_handshake, handle_handshake, continue_with, serve,
  handle_client,
}

sent_error : (m : Outcome (Unit {0})) (e : Str) → (m >> err e) ≢ ok (tt {0})
sent_error (ok u) e h = cc
sent_error (err x) e h = cc
sent_error panic e h = cc

module _ {D : Type 0} where
  -- The session has ended, and the shared state is as before.
  abbrev pub IsOver : Session D → Step D → Type 0
  IsOver s d = (d.after.state ≡ s.state) × (d.result ≢ ok (tt {0}))

  answer_handshake-IsOver :
      (t : Turn D) (s : Session D) (p : LapasProtocol D)
      → p ≢ control_handshake version
      → IsOver s (answer_handshake t s p)
  unfolding answer_handshake
  answer_handshake-IsOver t s (control_handshake v) n = elim (Bool-cases (v == version)) [
    | inl e ↦ absurd (n (ap control_handshake (ground arith)))
    | inr e ↦ rw e (refl, sent_error t.send _)
  ]
  answer_handshake-IsOver t s (control_handshake_response r) n = (refl, λ e. cc)
  answer_handshake-IsOver t s control_ping n = (refl, λ e. cc)
  answer_handshake-IsOver t s control_listen_events n = (refl, λ e. cc)
  answer_handshake-IsOver t s (control_check_auth a) n = (refl, λ e. cc)
  answer_handshake-IsOver t s (control_check_auth_response r) n = (refl, λ e. cc)
  answer_handshake-IsOver t s (user_register a u p) n = (refl, λ e. cc)
  answer_handshake-IsOver t s (user_register_response r) n = (refl, λ e. cc)
  answer_handshake-IsOver t s (user_dns_mapping a u) n = (refl, λ e. cc)
  answer_handshake-IsOver t s (user_dns_mapping_response r) n = (refl, λ e. cc)
  answer_handshake-IsOver t s passwd_get_list n = (refl, λ e. cc)
  answer_handshake-IsOver t s (passwd_get_list_response r) n = (refl, λ e. cc)
  answer_handshake-IsOver t s (shadow_get_list a) n = (refl, λ e. cc)
  answer_handshake-IsOver t s (shadow_get_list_response r) n = (refl, λ e. cc)
  answer_handshake-IsOver t s notify_root_changed n = (refl, λ e. cc)
  answer_handshake-IsOver t s notify_dns_mappings_changed n = (refl, λ e. cc)
  answer_handshake-IsOver t s notify_users_changed n = (refl, λ e. cc)

  on_packet-IsOver :
      (t : Turn D) (s : Session D) (r : Outcome (LapasProtocol D))
      → r ≢ ok (control_handshake version)
      → IsOver s (on_packet s r (answer_handshake t s))
  on_packet-IsOver t s (ok p) n = answer_handshake-IsOver t s p (λ e. n (ap ok e))
  on_packet-IsOver t s (err e) n = (refl, λ h. cc)
  on_packet-IsOver t s panic n = (refl, λ h. cc)

  continue_with-IsOver :
      (s : Session D) (d : Step D) (more : Session D → Step D) (r : Outcome (Unit {0}))
      → d.result ≡ r
      → IsOver s d
      → IsOver s (continue_with d more r)
  continue_with-IsOver s d more (ok u) e h = let (_, bad) = h in absurd (bad e)
  continue_with-IsOver s d more (err m) e h = h
  continue_with-IsOver s d more panic e h = h

  -- A session that receives anything but a handshake with the server's version first, also an error,
  -- ends without a good result and leaves the shared state as it is, whatever would come after.
  pub handle_client-IsOver :
      (crates : Crates D) (sha512_hex : Str → Str) (peer : Peer) (t : Turn D) (ts : List (Turn D))
      (s : Session D)
      → t.received ≢ ok (control_handshake version)
      → IsOver s (handle_client crates sha512_hex peer (t ∷ ts) s)
  unfolding handle_client handle_handshake
  handle_client-IsOver crates sha512_hex peer t ts s n =
      continue_with-IsOver s (handle_handshake t s) (serve crates sha512_hex peer ts) _ refl
        (on_packet-IsOver t s t.received n)
