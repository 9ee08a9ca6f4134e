-- ===== src/Server/Session/Answers/Loop.antt =====
-- The loop of a session, against the requests that it receives.
use lapas.Prelude.{
  ◌≡◌, ◌∙◌, refl, ap, sym, List, [], ◌∷◌, ◌++◌, append-nil, append_assoc, Outcome, ok, err, panic,
  inl, inr,
}
use lapas.Prelude.Text.{Str}
use lapas.Proto.Serde.{Result}
use lapas.Proto.Packet.{
  version, LapasProtocol, control_handshake, control_handshake_response, control_ping,
  control_listen_events, control_check_auth, control_check_auth_response, user_register,
  user_register_response, user_dns_mapping, user_dns_mapping_response, passwd_get_list,
  passwd_get_list_response, shadow_get_list, shadow_get_list_response, notify_root_changed,
  notify_dns_mappings_changed, notify_users_changed,
}
use lapas.Server.Users.{Crates}
use lapas.Server.State.{Peer}
use lapas.Server.Session.{
  Turn, Session, Step, handle_packet, round, serve, continue_with, handle_client, handle_handshake,
  answer_handshake, sending, on_packet,
}
use lapas.Server.Session.Answers.{
  nothing, received, HasEnded, LeavesOut, IsAnswered, IsReplied, no_answer, respond-IsReplied,
  guarded-IsReplied,
}

module _ {D : Type 0} (crates : Crates D) (sha512_hex : Str → Str) (peer : Peer) where
  handle_packet-IsReplied :
      (t : Turn D) (s : Session D) (p : LapasProtocol D)
      → (let d = handle_packet crates sha512_hex peer t s p in
          IsReplied p s.sent d.after.sent d.result)
  unfolding handle_packet
  handle_packet-IsReplied t s (control_check_auth a) =
      guarded-IsReplied t _ s control_check_auth_response _ _ (λ r. tt)
        (respond-IsReplied t _ s control_check_auth_response s.state _ (λ r. tt))
  handle_packet-IsReplied t s (user_register a u p) =
      guarded-IsReplied t _ s user_register_response _ _ (λ r. tt)
        (respond-IsReplied t _ s user_register_response _ _ (λ r. tt))
  handle_packet-IsReplied t s (user_dns_mapping a u) =
      guarded-IsReplied t _ s user_dns_mapping_response _ _ (λ r. tt)
        (respond-IsReplied t _ s user_dns_mapping_response _ _ (λ r. tt))
  handle_packet-IsReplied t s passwd_get_list =
      respond-IsReplied t _ s passwd_get_list_response s.state _ (λ r. tt)
  handle_packet-IsReplied t s (shadow_get_list a) =
      guarded-IsReplied t _ s shadow_get_list_response _ _ (λ r. tt)
        (respond-IsReplied t _ s shadow_get_list_response s.state _ (λ r. tt))
  handle_packet-IsReplied t s control_listen_events = no_answer _ s.sent (ok tt) refl
  handle_packet-IsReplied t s (control_handshake v) = no_answer _ s.sent (ok tt) refl
  handle_packet-IsReplied t s (control_handshake_response r) = no_answer _ s.sent (ok tt) refl
  handle_packet-IsReplied t s control_ping = no_answer _ s.sent (ok tt) refl
  handle_packet-IsReplied t s (control_check_auth_response r) = no_answer _ s.sent (ok tt) refl
  handle_packet-IsReplied t s (user_register_response r) = no_answer _ s.sent (ok tt) refl
  handle_packet-IsReplied t s (user_dns_mapping_response r) = no_answer _ s.sent (ok tt) refl
  handle_packet-IsReplied t s (passwd_get_list_response r) = no_answer _ s.sent (ok tt) refl
  handle_packet-IsReplied t s (shadow_get_list_response r) = no_answer _ s.sent (ok tt) refl
  handle_packet-IsReplied t s notify_root_changed = no_answer _ s.sent (ok tt) refl
  handle_packet-IsReplied t s notify_dns_mappings_changed = no_answer _ s.sent (ok tt) refl
  handle_packet-IsReplied t s notify_users_changed = no_answer _ s.sent (ok tt) refl

  ended : (r : Outcome (Unit {0})) (rest : List (LapasProtocol D)) → HasEnded r → LeavesOut r rest
  ended (ok u) rest h = absurd h
  ended (err e) rest h = tt
  ended panic rest h = tt

  -- A round that is the session's last.
  last-IsAnswered :
      (p : LapasProtocol D) (ps : List (LapasProtocol D)) (s : Session D) (d : Step D)
      → IsReplied p s.sent d.after.sent d.result
      → HasEnded d.result
      → IsAnswered s.sent (p ∷ ps) d
  last-IsAnswered p ps s d (inl (qs, e, h)) over = record {
    handled = p ∷ [];
    rest = ps;
    replies = qs ++ [];
    parts = refl;
    sent = e ∙ ap (◌++◌ s.sent) (sym (append-nil qs));
    answers = h [] [] nothing;
    left_out = ended d.result ps over;
  }
  last-IsAnswered p ps s d (inr (e, h)) over = record {
    handled = [];
    rest = p ∷ ps;
    replies = [];
    parts = refl;
    sent = e ∙ sym (append-nil s.sent);
    answers = nothing;
    left_out = ended d.result (p ∷ ps) over;
  }

  -- A round, and those behind it.
  continued-IsAnswered :
      (p : LapasProtocol D) (ps : List (LapasProtocol D)) (s : Session D) (d : Step D)
      (more : Session D → Step D)
      → IsReplied p s.sent d.after.sent d.result
      → IsAnswered d.after.sent ps (more d.after)
      → (r : Outcome (Unit {0})) → d.result ≡ r
      → IsAnswered s.sent (p ∷ ps) (continue_with d more r)
  continued-IsAnswered p ps s d more (inl (qs, e, h)) a (ok u) same = record {
    handled = p ∷ a.handled;
    rest = a.rest;
    replies = qs ++ a.replies;
    parts = ap (◌∷◌ p) a.parts;
    sent = a.sent ∙ rw e (append_assoc s.sent qs a.replies);
    answers = h a.handled a.replies a.answers;
    left_out = a.left_out;
  }
  continued-IsAnswered p ps s d more (inr (e, h)) a (ok u) same = absurd (rw same at h)
  continued-IsAnswered p ps s d more reply a (err m) same =
      last-IsAnswered p ps s d reply (rw same tt)
  continued-IsAnswered p ps s d more reply a panic same =
      last-IsAnswered p ps s d reply (rw same tt)

  none_left : (r : Outcome (Unit {0})) → LeavesOut {D = D} r []
  none_left (ok u) = refl
  none_left (err e) = tt
  none_left panic = tt

  silent-IsAnswered :
      (s : Session D) (r : Outcome (Unit {0}))
      → IsAnswered s.sent [] (record { after = s; result = r })
  silent-IsAnswered s r = record {
    handled = [];
    rest = [];
    replies = [];
    parts = refl;
    sent = sym (append-nil s.sent);
    answers = nothing;
    left_out = none_left r;
  }

  -- A turn, by what it receives.
  turn-IsAnswered :
      (s : Session D) (ps : List (LapasProtocol D)) (handle : LapasProtocol D → Step D)
      (more : Session D → Step D)
      → ((p : LapasProtocol D) → IsReplied p s.sent (handle p).after.sent (handle p).result)
      → ((p : LapasProtocol D) → IsAnswered (handle p).after.sent ps (more (handle p).after))
      → (r : Outcome (LapasProtocol D))
      → IsAnswered s.sent
          (elim r [ ok p ↦ p ∷ ps | _ ↦ [] ])
          (continue_with (on_packet s r handle) more (on_packet s r handle).result)
  turn-IsAnswered s ps handle more h k (ok p) =
      continued-IsAnswered p ps s (handle p) more (h p) (k p) (handle p).result refl
  turn-IsAnswered s ps handle more h k (err m) = silent-IsAnswered s (err m)
  turn-IsAnswered s ps handle more h k panic = silent-IsAnswered s panic

  serve-IsAnswered :
      (ts : List (Turn D)) (s : Session D)
      → IsAnswered s.sent (received ts) (serve crates sha512_hex peer ts s)
  unfolding serve round
  serve-IsAnswered [] s = silent-IsAnswered s (ok tt)
  serve-IsAnswered (t ∷ ts) s =
      turn-IsAnswered s (received ts) (handle_packet crates sha512_hex peer t s)
        (serve crates sha512_hex peer ts) (handle_packet-IsReplied t s)
        (λ p. serve-IsAnswered ts (handle_packet crates sha512_hex peer t s p).after) t.received

  -- Whatever is outside: behind the response to a handshake with the server's version, a session
  -- sends one response of the request's own kind to each request that it receives, in order, and
  -- nothing for other packets, up to where it ends; one that still runs has left out none.
  pub handle_client-IsAnswered :
      (t : Turn D) (ts : List (Turn D)) (s : Session D)
      → t.received ≡ ok (control_handshake version)
      → t.send ≡ ok tt
      → IsAnswered
          (s.sent ++ (control_handshake_response (Result.ok tt) ∷ []))
          (received ts)
          (handle_client crates sha512_hex peer (t ∷ ts) s)
  unfolding handle_client handle_handshake answer_handshake
  handle_client-IsAnswered t ts s e k =
      rw (e, k) (serve-IsAnswered ts (sending (control_handshake_response (Result.ok tt)) s))
