-- ===== src/Nss/Served.antt =====
-- The library against the daemon's local server, over the bytes of the socket.
use lapas.Prelude.{
  Done, sym, append-nil, ◌≡◌, refl, ap, ◌∙◌, Bool, true, false, List, [], ◌++◌, map, ok, err,
  unwrap, arith, if◌then◌else◌,
}
use lapas.Prelude.Text.{Str, codes, str_eq}
use lapas.Proto.Serde.{read_u32, Bytes, Result, Chrono}
use lapas.Proto.Models.{ApiAuth, password, LapasUserPasswd, LapasUserShadow}
use lapas.Proto.Packet.{
  version, LapasProtocol, control_handshake, control_handshake_response, passwd_get_list,
  passwd_get_list_response, shadow_get_list, shadow_get_list_response, encode_packet, decode_packet,
}
use lapas.Proto.RoundTrip.{IsPacket, IsRfc3339, IsText}
use lapas.Proto.Connection.{lift, ◌>>◌, Connection, send, receive, go_on, ◌>>=◌}
use lapas.Proto.Connection.Laws.{bind_ok, lift_ok, receive_sent, receive_last}
use lapas.Client.Cache.{Polls, get}
use lapas.Client.LocalAuth.{passwd_of, check_handshake, answer, handle_local_auth_client}
use lapas.Client.Commands.Served.{arriving}
use lapas.Nss.Api.{
  Host, get_api_password, greeted, lapas_connect, passwd_list, passwd_result, shadow_list,
  shadow_result,
}

module _ (chrono : Chrono) where
  open chrono use {DateTime}

  -- What the local server sends to a client that greets it and makes this request.
  abbrev pub local_replies : ApiAuth → Polls DateTime → LapasProtocol DateTime → Bytes
  local_replies auth cache request =
      (handle_local_auth_client chrono auth cache (
        arriving (encode_packet chrono (control_handshake version) ++ encode_packet chrono request)
          [])).after.written

  abbrev welcome : Bytes
  welcome = encode_packet chrono (control_handshake_response (Result.ok tt))

module _ (chrono : Chrono) (laws : IsRfc3339 chrono) where
  open chrono use {DateTime}

  welcomed :
      (rest : Bytes)
      → (receive chrono >>= check_handshake chrono)
          (arriving (encode_packet chrono (control_handshake version) ++ rest) [])
        ≡ record { after = arriving rest (welcome chrono); result = ok tt }
  unfolding check_handshake send
  welcomed rest =
      ap (λ d. go_on d.after d.result (check_handshake chrono))
        (receive_sent chrono laws (control_handshake version) rest [] (omega arith))

  -- The answer to the request ends what the local server writes.
  local_reply :
      (auth : ApiAuth) (cache : Polls DateTime) (request : LapasProtocol DateTime)
      → IsPacket request
      → local_replies chrono auth cache request
        ≡ (answer chrono auth cache request (arriving [] (welcome chrono))).after.written
  unfolding handle_local_auth_client
  local_reply auth cache request h =
      ap
        (λ (d : Done Connection (Unit {0})).
          (go_on d.after d.result (λ u. receive chrono >>= answer chrono auth cache)).after.written)
        (welcomed (encode_packet chrono request))
      ∙ ap
          (λ (d : Done Connection (LapasProtocol DateTime)).
            (go_on d.after d.result (answer chrono auth cache)).after.written)
          (receive_last chrono laws request (welcome chrono) h)

  local_passwd :
      (auth : ApiAuth) (cache : Polls DateTime)
      → local_replies chrono auth cache passwd_get_list
        ≡ (welcome chrono)
          ++ encode_packet chrono (passwd_get_list_response (Result.ok (map passwd_of (get cache))))
  unfolding answer send
  local_passwd auth cache = local_reply auth cache passwd_get_list tt

  local_shadow :
      (cache : Polls DateTime) (is_auth auth : Str) (same : Bool)
      → IsText is_auth
      → str_eq is_auth auth ≡ same
      → local_replies chrono (password auth) cache (shadow_get_list (password is_auth))
        ≡ (welcome chrono)
          ++ (if same
              then encode_packet chrono (shadow_get_list_response (Result.ok (get cache)))
              else [])
  unfolding answer send
  local_shadow cache is_auth auth true h e =
      local_reply (password auth) cache (shadow_get_list (password is_auth)) h ∙ rw e
  local_shadow cache is_auth auth false h e =
      local_reply (password auth) cache (shadow_get_list (password is_auth)) h
      ∙ rw e (sym (append-nil (welcome chrono)))

  connected :
      (rest : Bytes) (host : Host)
      → host.connected ≡ ok tt
      → lapas_connect chrono host (arriving ((welcome chrono) ++ rest) []) ≡ record {
        after = arriving rest (encode_packet chrono (control_handshake version));
        result = ok tt;
      }
  unfolding lapas_connect send greeted
  connected rest host e = rw e (
      ap (λ d. go_on d.after d.result (greeted chrono))
        (receive_sent chrono laws (control_handshake_response (Result.ok tt)) rest _ tt))

  started :
      (rest : Bytes) (host : Host)
      → host.runtime ≡ ok tt
      → host.connected ≡ ok tt
      → (lift (unwrap host.runtime) >> lapas_connect chrono host)
          (arriving ((welcome chrono) ++ rest) [])
        ≡ record {
          after = arriving rest (encode_packet chrono (control_handshake version));
          result = ok tt;
        }
  started rest host run up =
      bind_ok (lift (unwrap host.runtime)) (λ u. lapas_connect chrono host) (rw run)
      ∙ connected rest host up

  pub passwd_served :
      (auth : ApiAuth) (cache : Polls DateTime) (host : Host)
      → host.runtime ≡ ok tt
      → host.connected ≡ ok tt
      → IsPacket {D = DateTime} (passwd_get_list_response (Result.ok (map passwd_of (get cache))))
      → (passwd_list chrono host
          (arriving (local_replies chrono auth cache passwd_get_list) [])).result
        ≡ ok (map passwd_of (get cache))
  unfolding passwd_list passwd_result send
  passwd_served auth cache host run up h = rw (local_passwd auth cache) (
      ap (λ (d : Done Connection (List LapasUserPasswd)). d.result)
        (bind_ok
            (lift (unwrap host.runtime) >> lapas_connect chrono host >> send chrono passwd_get_list)
            (λ u. receive chrono >>= passwd_result chrono)
            (bind_ok (lift (unwrap host.runtime) >> lapas_connect chrono host)
              (λ u. send chrono passwd_get_list) (started _ host run up))
          ∙ bind_ok (receive chrono) (passwd_result chrono) (receive_last chrono laws _ _ h)))

  shadow_reply :
      (cache : Polls DateTime) (same : Bool) (w : Bytes)
      → IsPacket (shadow_get_list_response (Result.ok (get cache)))
      → ((receive chrono >>= shadow_result chrono) (
          arriving
            (if same
              then encode_packet chrono (shadow_get_list_response (Result.ok (get cache)))
              else [])
            w)).result
        ≡ (if same then ok (get cache) else err (codes "IO Error"))
  unfolding shadow_result
  shadow_reply cache true w h =
      ap (λ (d : Done Connection (List (LapasUserShadow DateTime))). d.result)
        (bind_ok (receive chrono) (shadow_result chrono) (receive_last chrono laws _ w h))
  shadow_reply cache false w h = unfold receive decode_packet read_u32 in refl

  -- With the laws of chrono, and users that fit a packet: where the password in the environment file
  -- is the daemon's, the library gets the cached users with their hashes; where it is another, the
  -- local server sends nothing more and the library has an error.
  pub shadow_served :
      (cache : Polls DateTime) (host : Host) (api_password auth : Str) (same : Bool)
      → host.runtime ≡ ok tt
      → host.connected ≡ ok tt
      → get_api_password host.env_file ≡ ok api_password
      → IsText api_password
      → str_eq api_password auth ≡ same
      → IsPacket (shadow_get_list_response (Result.ok (get cache)))
      → (shadow_list chrono host (
          arriving
            (local_replies chrono (password auth) cache (shadow_get_list (password api_password)))
            [])).result
        ≡ (if same then ok (get cache) else err (codes "IO Error"))
  unfolding shadow_list shadow_result send
  shadow_served cache host api_password auth same run up file text e h =
      rw (local_shadow cache api_password auth same text e) (
        ap (λ (d : Done Connection (List (LapasUserShadow DateTime))). d.result)
          (bind_ok
            (lift (unwrap host.runtime)
              >> lapas_connect chrono host
              >> (lift (get_api_password host.env_file)
                  >>= (λ x. send chrono (shadow_get_list (password x)))))
            (λ u. receive chrono >>= shadow_result chrono)
            (bind_ok (lift (unwrap host.runtime) >> lapas_connect chrono host)
                (λ u.
                  lift (get_api_password host.env_file)
                  >>= (λ x. send chrono (shadow_get_list (password x))))
                (started _ host run up)
              ∙ bind_ok (lift (get_api_password host.env_file))
                  (λ x. send chrono (shadow_get_list (password x)))
                  (lift_ok (get_api_password host.env_file) _ file)))
        ∙ shadow_reply cache same
            (encode_packet chrono (control_handshake version)
              ++ encode_packet chrono (shadow_get_list (password api_password)))
            h)
