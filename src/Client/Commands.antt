-- ===== src/Client/Commands.antt =====
-- bin/lapas_api_client/src/main.rs: the commands and `main`, behind the parsing of arguments by clap.
pub mod Served
use lapas.Prelude.{ℕ, Option, none, some, List, [], ◌∷◌, ◌++◌, map, Outcome, Done, ok, err, panic}
use lapas.Prelude.Text.{Str, codes}
use lapas.Proto.Serde.{Result, Chrono}
use lapas.Proto.Models.{ApiAuth, password, LapasUserPasswd}
use lapas.Proto.Packet.{
  version, LapasProtocol, control_handshake, control_handshake_response, control_check_auth,
  control_check_auth_response, user_register, user_register_response, user_dns_mapping,
  user_dns_mapping_response, passwd_get_list, passwd_get_list_response,
}
use lapas.Proto.Connection.{Talk, ◌>>=◌, ◌>>◌, pure, fail, lift, send, receive}
use lapas.Client.Sort.{sort_by_key}

pub data ClientCommand : Type 0 where
  daemon : ClientCommand
  check_auth : ClientCommand
  add_dns_mapping : Str → ClientCommand
  add_user : Str → Str → ClientCommand
  list_users : ClientCommand

pub record CliArgs : Type 0 where
  pub api_password : Option Str
  pub api_host : Str
  pub api_port : ℕ
  pub command : ClientCommand

-- The lines that the commands print.
pub data Printed : Type 0 where
  authenticated : Printed
  mapping_created user_created : Str → Printed
  user_line : ℕ → Str → Printed

unfoldable pub args_to_auth : CliArgs → Outcome ApiAuth
args_to_auth args = elim args.api_password [
  | some api_password ↦ ok (password api_password)
  | none ↦ err (codes "This action requires authentication")
]

-- anyhow's `context`, with the cause behind it.
abbrev pub context : {A : Type 0} → Str → Result A Str → Outcome A
context what (Result.ok a) = ok a
context what (Result.err e) = err (what ++ (codes ": " ++ e))

abbrev pub unexpected : {A : Type 0} → Talk A
unexpected = fail (codes "Received unexpected response")

module _ (chrono : Chrono) where
  open chrono use {DateTime}

  abbrev pub Packet : Type 0
  Packet = LapasProtocol DateTime

  unfoldable pub greeted : Packet → Talk (Unit {0})
  greeted (control_handshake_response (Result.ok u)) = pure tt
  greeted (control_handshake_response (Result.err e)) =
      fail (codes "Conncting to lapas api server failed: " ++ e)
  greeted _ = unexpected

  -- `connected` is the outcome of `TcpStream::connect`.
  unfoldable pub lapas_connect : Outcome (Unit {0}) → Talk (Unit {0})
  unfolding send receive greeted
  lapas_connect connected =
      lift connected >> send chrono (control_handshake version) >> (receive chrono >>= greeted)

  -- `perform_request!`: `result_of` takes the result out of the response packet.
  unfoldable pub perform_request : {R : Type 0} → Packet → (Packet → Option R) → Talk R
  unfolding send receive
  perform_request request result_of =
      send chrono request
      >> receive chrono
      >>= (λ response. elim (result_of response) [ some result ↦ pure result | none ↦ unexpected ])

  abbrev pub check_auth_result : Packet → Option (Result (Unit {0}) Str)
  check_auth_result (control_check_auth_response result) = some result
  check_auth_result _ = none

  abbrev pub dns_mapping_result : Packet → Option (Result (Unit {0}) Str)
  dns_mapping_result (user_dns_mapping_response result) = some result
  dns_mapping_result _ = none

  abbrev pub register_result : Packet → Option (Result (Unit {0}) Str)
  register_result (user_register_response result) = some result
  register_result _ = none

  abbrev pub passwd_result : Packet → Option (Result (List LapasUserPasswd) Str)
  passwd_result (passwd_get_list_response result) = some result
  passwd_result _ = none

  unfoldable pub cmd_check_auth : CliArgs → Talk (List Printed)
  unfolding perform_request args_to_auth
  cmd_check_auth args =
      lift (args_to_auth args)
      >>= (λ auth. perform_request (control_check_auth auth) check_auth_result)
      >>= (λ result. lift (context (codes "Checking API authentication") result))
      >>= (λ u. pure (authenticated ∷ []))

  unfoldable pub cmd_add_dns_mapping : CliArgs → Str → Talk (List Printed)
  unfolding perform_request args_to_auth
  cmd_add_dns_mapping args username =
      lift (args_to_auth args)
      >>= (λ auth. perform_request (user_dns_mapping auth username) dns_mapping_result)
      >>= (λ result. lift (context (codes "Adding DNS Mapping for this machine") result))
      >>= (λ u. pure (mapping_created username ∷ []))

  unfoldable pub cmd_add_user : CliArgs → Str → Str → Talk (List Printed)
  unfolding perform_request args_to_auth
  cmd_add_user args username new_password =
      lift (args_to_auth args)
      >>= (λ auth. perform_request (user_register auth username new_password) register_result)
      >>= (λ result. lift (context (codes "Registering new user") result))
      >>= (λ u. pure (user_created username ∷ []))

  unfoldable pub cmd_list_users : Talk (List Printed)
  unfolding perform_request sort_by_key
  cmd_list_users =
      perform_request passwd_get_list passwd_result
      >>= (λ result. lift (context (codes "Acquiring list of registered users") result))
      >>= (λ users. pure (map (λ u. user_line u.id u.name) (sort_by_key (λ u. u.id) users)))

  unfoldable pub run_command : CliArgs → ClientCommand → Talk (List Printed)
  run_command args check_auth = cmd_check_auth args
  run_command args (add_dns_mapping username) = cmd_add_dns_mapping args username
  run_command args (add_user username new_password) = cmd_add_user args username new_password
  run_command args list_users = cmd_list_users
  run_command args daemon = lift panic

  -- A command of `main` other than the daemon.
  unfoldable pub main_command : Outcome (Unit {0}) → CliArgs → ClientCommand → Talk (List Printed)
  main_command connected args command = lapas_connect connected >> run_command args command

  -- `main`; `run` is `daemon::run`, which returns only with an error.
  unfoldable pub main : Talk (List Printed) → Outcome (Unit {0}) → CliArgs → Talk (List Printed)
  unfolding main_command
  main run connected args = elim args.api_password [
    | none ↦ fail (codes "Authentication option required")
    | some api_password ↦ elim args.command [
      | daemon ↦ run
      | other ↦ main_command connected args other
    ]
  ]
