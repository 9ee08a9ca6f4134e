-- ===== src/Client/Commands/Served.antt =====
-- The commands against the server's handler, over the bytes of the connection.
use lapas.Prelude.{
  ◌∙◌, arith, if◌then◌else◌, ◌≡◌, refl, ap, Bool, true, false, Option, some, List, [], ◌∷◌, ◌++◌,
  map, Outcome, ok, err, if◌then◌else◌,
}
use lapas.Prelude.Text.{Str, codes}
use lapas.Prelude.Text.Utf8.{is_utf8}
use lapas.Server.Session.Lift.{serve_one}
use lapas.Proto.Serde.{Bytes, Result, Chrono}
use lapas.Proto.Models.{password, LapasUserPasswd}
use lapas.Proto.Packet.{
  version, LapasProtocol, control_handshake, control_handshake_response, user_register,
  user_register_response, passwd_get_list, passwd_get_list_response, encode_packet,
}
use lapas.Proto.RoundTrip.{IsPacket, IsRfc3339, IsResult}
use lapas.Proto.Connection.{Connection, send, go_on}
use lapas.Proto.Connection.Laws.{encode_all, receive_sent}
use lapas.Server.Users.{Crates, Outside, passwd_all}
use lapas.Server.State.{State, Peer, DnsOutside, check_auth, add_user}
use lapas.Server.Session.{
  Turn, handle_client, handle_handshake, answer_handshake, serve, round, handle_packet, respond,
  guarded, Session,
}
use lapas.Client.Sort.{sort_by_key}
use lapas.Client.Sort.Laws.{IsSortedBy, with_key, sort_by_key_lem}
use lapas.Client.Commands as Commands
use lapas.Client.Commands.{
  CliArgs, list_users, user_line, user_created, greeted, lapas_connect, perform_request,
  cmd_list_users, cmd_add_user, run_command, main_command, args_to_auth, ℕ,
}

-- A connection on which these bytes arrive, and nothing fails.
abbrev pub arriving : Bytes → Bytes → Connection
arriving incoming written = record { incoming = incoming; written = written; writes = [] }

module _ (chrono : Chrono) (laws : IsRfc3339 chrono) where
  open chrono use {DateTime}

  pub lapas_connect_lem :
      (rest : Bytes)
      → lapas_connect chrono
          (ok tt)
          (arriving (encode_packet chrono (control_handshake_response (Result.ok tt)) ++ rest) [])
        ≡ record {
          after = arriving rest (encode_packet chrono (control_handshake version));
          result = ok tt;
        }
  unfolding lapas_connect send greeted
  lapas_connect_lem rest =
      ap (λ d. go_on d.after d.result (greeted chrono)) (receive_sent chrono laws _ rest _ tt)

  pub perform_request_lem :
      {R : Type 0} (request response : LapasProtocol DateTime)
      (result_of : LapasProtocol DateTime → Option R) (r : R) (rest w : Bytes)
      → IsPacket response
      → result_of response ≡ some r
      → perform_request chrono request result_of
          (arriving (encode_packet chrono response ++ rest) w)
        ≡ record { after = arriving rest (w ++ encode_packet chrono request); result = ok r }
  unfolding perform_request send
  perform_request_lem request response result_of r rest w h e =
      rw (receive_sent chrono laws response rest _ h, e)

-- The server's round for a packet that arrives, with an answer that is sent.
abbrev pub asked : {D : Type 0} → Outside D → DnsOutside → LapasProtocol D → Turn D
asked os dns p = record { received = ok p; send = ok tt; users = os; dns = dns }

-- What the server sends in a session of a handshake and one request.
abbrev pub responses :
    {D : Type 0}
    → Crates D
    → (Str → Str)
    → Peer
    → Outside D
    → DnsOutside
    → State D
    → LapasProtocol D
    → List (LapasProtocol D)
responses crates sha512_hex peer os dns s request =
    (handle_client crates sha512_hex peer
      (asked os dns (control_handshake version) ∷ asked os dns request ∷ [])
      (record { state = s; sent = [] })).after.sent

-- What the command of a result prints or fails with.
abbrev pub printing :
    {A : Type 0}
    → Str
    → (A → List Commands.Printed)
    → Result A Str
    → Outcome (List Commands.Printed)
printing what show (Result.ok a) = ok (show a)
printing what show (Result.err e) = err (what ++ (codes ": " ++ e))

reported :
    {A : Type 0} (c : Connection) (what : Str) (show : A → List Commands.Printed) (r : Result A Str)
    → (go_on c (Commands.context what r) (λ a. Commands.pure (show a))).result
      ≡ printing what show r
reported c what show (Result.ok a) = refl
reported c what show (Result.err e) = refl

module _ (chrono : Chrono) (laws : IsRfc3339 chrono) (crates : Crates chrono.DateTime)
    (sha512_hex : Str → Str) (peer : Peer) (os : Outside chrono.DateTime) (dns : DnsOutside)
    (args : CliArgs) (s : State chrono.DateTime) where
  open chrono use {DateTime}

  -- The bytes that the server sends to the client of a request.
  abbrev pub replies : LapasProtocol DateTime → Bytes
  replies request = encode_all chrono (responses crates sha512_hex peer os dns s request)

  -- With the laws of chrono, and users that fit a packet: `list_users` against the server writes the
  -- two packets that the server reads, and prints the users of the server's index in ascending order
  -- of the ids; those with the same id are all printed, in the order of the index.
  pub list_users_served :
      IsPacket {D = DateTime} (passwd_get_list_response (Result.ok (passwd_all s.user_service)))
      → (users : List LapasUserPasswd) × (main_command chrono
            (ok tt)
            args
            list_users
            (arriving (replies passwd_get_list) [])
          ≡ record {
            after = arriving [] (
                encode_packet chrono (control_handshake version)
                ++ encode_packet chrono passwd_get_list);
            result = ok (map (λ u. user_line u.id u.name) users);
          })
        × IsSortedBy (λ u. u.id) users
        × ((id : ℕ)
            → with_key (λ u. u.id) id users ≡ with_key (λ u. u.id) id (passwd_all s.user_service))
  unfolding main_command run_command cmd_list_users handle_client handle_handshake answer_handshake
      serve round handle_packet respond
  list_users_served h =
      let (sorted, same) =
        sort_by_key_lem (λ (u : LapasUserPasswd). u.id) (passwd_all s.user_service) in
      (
        sort_by_key (λ u. u.id) (passwd_all s.user_service),
        rw (
          lapas_connect_lem chrono laws _,
          perform_request_lem chrono laws passwd_get_list
              (passwd_get_list_response (Result.ok (passwd_all s.user_service)))
              (Commands.passwd_result chrono) (Result.ok (passwd_all s.user_service)) [] _ h refl,
        ),
        sorted,
        same,
      )

  -- An `anyhow::Result` as the server sends it.
  abbrev pub outcome_of : Result (Unit {0}) Str → Outcome (Unit {0})
  outcome_of (Result.ok u) = ok tt
  outcome_of (Result.err e) = err e

  -- The result of a request by its authentication, and by the call that it makes.
  abbrev pub answered : Bool → Result (Unit {0}) Str → Result (Unit {0}) Str
  answered granted r = if granted then r else Result.err (codes "Authentication failed")

  abbrev register : Str → Str → Str → LapasProtocol DateTime
  register api_password username new_password =
      user_register (password api_password) username new_password

  answered_text :
      (granted : Bool) (r : Result (Unit {0}) Str)
      → IsResult (λ x. Unit {0}) r
      → IsResult (λ x. Unit {0}) (answered granted r)
  unfolding is_utf8
  answered_text true r h = h
  answered_text false r h = (refl, omega arith)

  round-register :
      (t : Session DateTime) (api_password username new_password : Str) (granted : Bool)
      (r : Result (Unit {0}) Str)
      → check_auth sha512_hex t.state.config (password api_password) ≡ ok granted
      → (add_user crates os username new_password t.state).result ≡ outcome_of r
      → (round crates sha512_hex peer
          (asked os dns (register api_password username new_password))
          t).after.sent
        ≡ t.sent ++ (user_register_response (answered granted r) ∷ [])
  unfolding round handle_packet respond guarded
  round-register t api_password username new_password true (Result.ok u) c e = rw (c, e)
  round-register t api_password username new_password true (Result.err m) c e = rw (c, e)
  round-register t api_password username new_password false r c e = rw c

  responses-register :
      (api_password username new_password : Str) (granted : Bool) (r : Result (Unit {0}) Str)
      → check_auth sha512_hex s.config (password api_password) ≡ ok granted
      → (add_user crates os username new_password s).result ≡ outcome_of r
      → responses crates sha512_hex peer os dns s (register api_password username new_password)
        ≡ control_handshake_response (Result.ok tt)
          ∷ user_register_response (answered granted r)
          ∷ []
  unfolding handle_client handle_handshake answer_handshake
  responses-register api_password username new_password granted r c e =
      ap (λ (t : Session DateTime). t.sent) (serve_one crates sha512_hex peer _ _)
      ∙ round-register _ api_password username new_password granted r c e

  -- With the laws of chrono, and an error text that fits a packet: `add_user` against the server
  -- reports what the server's `add_user` returned, or that the password was not accepted.
  pub add_user_served :
      (api_password username new_password : Str) (granted : Bool) (r : Result (Unit {0}) Str)
      → check_auth sha512_hex s.config (password api_password) ≡ ok granted
      → (add_user crates os username new_password s).result ≡ outcome_of r
      → IsResult (λ x. Unit {0}) r
      → (main_command chrono
          (ok tt)
          (record args { api_password = some api_password })
          (Commands.add_user username new_password)
          (arriving (replies (register api_password username new_password)) [])).result
        ≡ printing
            (codes "Registering new user")
            (λ u. user_created username ∷ [])
            (answered granted r)
  unfolding main_command run_command cmd_add_user args_to_auth
  add_user_served api_password username new_password granted r c e h =
      rw
        (
          responses-register api_password username new_password granted r c e,
          lapas_connect_lem chrono laws _,
          perform_request_lem chrono laws (register api_password username new_password)
              (user_register_response (answered granted r)) (Commands.register_result chrono)
              (answered granted r) [] _ (answered_text granted r h) refl,
        )
        (reported _ (codes "Registering new user") (λ u. user_created username ∷ [])
          (answered granted r))
