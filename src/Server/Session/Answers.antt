-- ===== src/Server/Session/Answers.antt =====
-- The packets that a session sends, against the requests that it receives.
pub mod Loop
use lapas.Prelude.{
  ◌≡◌, ◌∙◌, refl, ap, sym, Bool, true, false, List, [], ◌∷◌, ◌++◌, append-nil, append_assoc,
  Outcome, ok, err, panic, ◌⊎◌, inl, inr, ◌>>◌,
}
use lapas.Prelude.Text.{Str, codes}
use lapas.Proto.Serde.{Result}
use lapas.Proto.Packet.{
  version, LapasProtocol, control_handshake, control_handshake_response, control_ping,
  control_listen_events, control_check_auth, control_check_auth_response, user_register,
  user_register_response, user_dns_mapping, user_dns_mapping_response, passwd_get_list,
  passwd_get_list_response, shadow_get_list, shadow_get_list_response, notify_root_changed,
  notify_dns_mappings_changed, notify_users_changed,
}
use lapas.Server.Users.{Crates}
use lapas.Server.State.{State, Peer}
use lapas.Server.Session.{
  Turn, Session, Step, respond, guarded, handle_packet, round, serve, continue_with, handle_client,
  handle_handshake, answer_handshake, sending, on_packet,
}

abbrev pub HasEnded : Outcome (Unit {0}) → Type 0
HasEnded (ok u) = ⊥
HasEnded (err e) = Unit
HasEnded panic = Unit

module _ {D : Type 0} where
  -- The response of the request's own kind.
  abbrev pub IsAnswer : LapasProtocol D → LapasProtocol D → Type 0
  IsAnswer (control_check_auth a) (control_check_auth_response r) = Unit
  IsAnswer (user_register a u p) (user_register_response r) = Unit
  IsAnswer (user_dns_mapping a u) (user_dns_mapping_response r) = Unit
  IsAnswer passwd_get_list (passwd_get_list_response r) = Unit
  IsAnswer (shadow_get_list a) (shadow_get_list_response r) = Unit
  IsAnswer p q = ⊥

  abbrev pub is_request : LapasProtocol D → Bool
  is_request (control_check_auth a) = true
  is_request (user_register a u p) = true
  is_request (user_dns_mapping a u) = true
  is_request passwd_get_list = true
  is_request (shadow_get_list a) = true
  is_request p = false

  -- One answer to each request among these packets, in order, and nothing to the others.
  pub data Replies : List (LapasProtocol D) → List (LapasProtocol D) → Type 0 where
    nothing : Replies [] []
    passed :
        {p : LapasProtocol D} {ps qs : List (LapasProtocol D)}
        → is_request p ≡ false
        → Replies ps qs
        → Replies (p ∷ ps) qs
    answered :
        {p q : LapasProtocol D} {ps qs : List (LapasProtocol D)}
        → IsAnswer p q
        → Replies ps qs
        → Replies (p ∷ ps) (q ∷ qs)

  -- The packets that arrive before the stream ends.
  abbrev pub received : List (Turn D) → List (LapasProtocol D)
  received [] = []
  received (t ∷ ts) = elim t.received [ ok p ↦ p ∷ received ts | _ ↦ [] ]

  -- A session that still runs has left nothing out.
  abbrev pub LeavesOut : Outcome (Unit {0}) → List (LapasProtocol D) → Type 0
  LeavesOut (ok u) rest = rest ≡ []
  LeavesOut (err e) rest = Unit
  LeavesOut panic rest = Unit

  -- Behind these packets, the session has sent the replies to the first of those that it received.
  pub record IsAnswered (before received : List (LapasProtocol D)) (d : Step D) : Type 0 where
    pub handled : List (LapasProtocol D)
    pub rest : List (LapasProtocol D)
    pub replies : List (LapasProtocol D)
    pub parts : received ≡ handled ++ rest
    pub sent : d.after.sent ≡ before ++ replies
    pub answers : Replies handled replies
    pub left_out : LeavesOut d.result rest

  -- What a round does with a packet, by what was sent before and after it and by its result: it
  -- replies to the packet, or ends the session without a word.
  abbrev pub IsReplied :
      LapasProtocol D
      → List (LapasProtocol D)
      → List (LapasProtocol D)
      → Outcome (Unit {0})
      → Type 0
  IsReplied p before after r =
      ((replies : List (LapasProtocol D)) × (after ≡ before ++ replies)
        × ((ps qs : List (LapasProtocol D)) → Replies ps qs → Replies (p ∷ ps) (replies ++ qs)))
      ⊎ ((after ≡ before) × HasEnded r)

  pub answer :
      (p q : LapasProtocol D) (before : List (LapasProtocol D)) (r : Outcome (Unit {0}))
      → IsAnswer p q
      → IsReplied p before (before ++ (q ∷ [])) r
  answer p q before r a = inl (q ∷ [], refl, λ ps qs h. answered a h)

  pub no_answer :
      (p : LapasProtocol D) (before : List (LapasProtocol D)) (r : Outcome (Unit {0}))
      → is_request p ≡ false
      → IsReplied p before before r
  no_answer p before r a = inl ([], sym (append-nil before), λ ps qs h. passed a h)

  module _ (t : Turn D) (p : LapasProtocol D) (s : Session D) where
    pub respond-IsReplied :
        {A : Type 0} (response : Result A Str → LapasProtocol D) (x : State D) (r : Outcome A)
        → ((a : Result A Str) → IsAnswer p (response a))
        → (let d = respond t response (record s { state = x }) r in
            IsReplied p s.sent d.after.sent d.result)
    unfolding respond
    respond-IsReplied response x (ok a) h =
        answer p (response (Result.ok a)) s.sent t.send (h (Result.ok a))
    respond-IsReplied response x (err e) h =
        answer p (response (Result.err e)) s.sent t.send (h (Result.err e))
    respond-IsReplied response x panic h = inr (refl, tt)

    pub guarded-IsReplied :
        {A : Type 0} (response : Result A Str → LapasProtocol D) (c : Outcome Bool)
        (granted : Step D)
        → ((a : Result A Str) → IsAnswer p (response a))
        → IsReplied p s.sent granted.after.sent granted.result
        → (let d = guarded t response s c granted in IsReplied p s.sent d.after.sent d.result)
    unfolding guarded
    guarded-IsReplied response (ok true) granted h k = k
    guarded-IsReplied response (ok false) granted h k =
        answer p (response (Result.err (codes "Authentication failed"))) s.sent
          (t.send >> err (codes "Authentication failed"))
          (h (Result.err (codes "Authentication failed")))
    guarded-IsReplied response (err e) granted h k = inr (refl, tt)
    guarded-IsReplied response panic granted h k = inr (refl, tt)
