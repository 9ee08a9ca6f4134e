-- ===== src/Server/State.antt =====
-- bin/lapas_api_server/src/state.rs: what all sessions share, and the host names of
-- bin/lapas_api_server/src/api_services/dns.rs. SHA-512 with its hexadecimal text is a parameter.
use lapas.Prelude.{
  Option, some, Done, Bool, ◌||◌, List, [], ◌∷◌, ◌++◌, ℕ, Outcome, ok, err, panic, ◌>>=◌, ◌>>◌,
  if◌then◌else◌,
}
use lapas.Prelude.Text.{Str, codes, str_eq, starts_with, ends_with}
use lapas.Proto.Models.{ApiAuth, password, LapasUserPasswd, LapasUserShadow}
use lapas.Proto.Packet.{LapasProtocol, notify_users_changed, notify_dns_mappings_changed}
use lapas.Server.Users as Users
use lapas.Server.Users.{Crates, Outside, UserService}

-- The newest entry of a key is in front.
abbrev pub Config : Type 0
Config = List (Str × Str)

-- `config.get(key).expect(…)`.
unfoldable pub config_get : Str → Config → Outcome Str
config_get key [] = panic
config_get key ((k, v) ∷ config) =
    let rest = config_get key config in if str_eq k key then ok v else rest

-- The file that a path names: nothing keeps the path of a mapping out of the server's own files.
pub data Target : Type 0 where
  host_file user_file config_file : Target

-- What `create_mapping` meets outside, with what a write that fails leaves in the file. The operating
-- system says which file a path names, with its links and every `..` followed.
pub record DnsOutside : Type 0 where
  pub target : Str → Target
  pub create : Outcome (Unit {0})
  pub write_all : Outcome (Unit {0})
  pub flush : Outcome (Unit {0})
  pub partial_write : Str

pub record DnsService : Type 0 where
  pub dns_domain : Str
  pub hosts_dir : Str

-- A client by number, with the text of its IP address.
pub record Peer : Type 0 where
  pub number : ℕ
  pub ip : Str

-- The host files are by path, the newest text of a path in front; `config_text` is the text of the
-- configuration file.
pub record State (DateTime : Type 0) : Type 0 where
  pub config : Config
  pub user_service : UserService DateTime
  pub dns_service : DnsService
  pub hosts : List (Str × Str)
  pub config_text : Str
  -- The notifications that were handed to the broadcast channel, and who receives them.
  pub notified : List (LapasProtocol DateTime)
  pub listeners : List Peer

-- `PathBuf::push`: an absolute path takes the place of the whole.
unfoldable pub push_path : Str → Str → Str
unfolding starts_with ends_with
push_path dir name =
    if starts_with name (codes "/")
    then name
    else if str_eq dir [] || ends_with b'/' dir
    then dir ++ name
    else dir ++ (b'/' ∷ name)

unfoldable pub mapping_text : Str → Str → Str → Str
mapping_text ip username domain = ip ++ (b' ' ∷ (username ++ (b'.' ∷ (domain ++ (b'\n' ∷ [])))))

-- The path of a mapping.
abbrev pub mapping_path : Str → DnsService → Str
mapping_path username dns = push_path dns.hosts_dir username

-- The files that a mapping may be written to.
pub record Files : Type 0 where
  pub hosts : List (Str × Str)
  pub user_text : Option Str
  pub config_text : Str

abbrev pub store : Target → Str → Str → Files → Files
store host_file path text files = record files { hosts = (path, text) ∷ files.hosts }
store user_file path text files = record files { user_text = some text }
store config_file path text files = record files { config_text = text }

-- The files after the call, with its result.
unfoldable pub create_mapping : DnsOutside → Str → Str → DnsService → Files → Done Files (Unit {0})
create_mapping os username ip dns files = elim os.create [
  | ok _ ↦ record {
    after =
        store (os.target (mapping_path username dns)) (mapping_path username dns)
          (elim (os.write_all >> os.flush) [
            | ok _ ↦ mapping_text ip username dns.dns_domain
            | _ ↦ os.partial_write
          ])
          files;
    result = os.write_all >> os.flush;
  }
  | err e ↦ record { after = files; result = err e }
  | panic ↦ record { after = files; result = panic }
]

-- SHA-512 with its hexadecimal text is the first argument.
unfoldable pub check_auth : (Str → Str) → Config → ApiAuth → Outcome Bool
check_auth sha512_hex config (password api_password) = do
  salt ← config_get (codes "LAPAS_PASSWORD_SALT") config
  hash ← config_get (codes "LAPAS_PASSWORD_HASH") config
  ok (str_eq hash (sha512_hex (salt ++ api_password)))

module _ {DateTime : Type 0} where
  unfoldable pub notify : LapasProtocol DateTime → State DateTime → State DateTime
  notify notification s = record s { notified = s.notified ++ (notification ∷ []) }

  -- `if let Ok(_) = result { self.notify(…); }`
  abbrev pub announced :
      Outcome (Unit {0}) → LapasProtocol DateTime → State DateTime → State DateTime
  announced (ok _) notification s = notify notification s
  announced (err e) notification s = s
  announced panic notification s = s

  unfoldable pub add_user :
      Crates DateTime
      → Outside DateTime
      → Str
      → Str
      → State DateTime
      → Done (State DateTime) (Unit {0})
  add_user crates os username new_password s =
      let d = Users.add_user crates os username new_password s.user_service in
      record {
        after = announced d.result notify_users_changed (record s { user_service = d.after });
        result = d.result;
      }

  -- The state with these files.
  abbrev pub with_files : Files → State DateTime → State DateTime
  with_files files s = record s {
    user_service = record s.user_service { file = files.user_text };
    hosts = files.hosts;
    config_text = files.config_text;
  }

  abbrev pub files_of : State DateTime → Files
  files_of s = record {
    hosts = s.hosts;
    user_text = s.user_service.file;
    config_text = s.config_text;
  }

  unfoldable pub create_user_host_mapping :
      DnsOutside → Str → Str → State DateTime → Done (State DateTime) (Unit {0})
  create_user_host_mapping os username ip s =
      let d = create_mapping os username ip s.dns_service (files_of s) in
      record {
        after = announced d.result notify_dns_mappings_changed (with_files d.after s);
        result = d.result;
      }

  unfoldable pub register_event_listener : Peer → State DateTime → State DateTime
  register_event_listener peer s = record s { listeners = peer ∷ s.listeners }

  -- `State::passwd_all` and `State::shadow_all`; what they call does not fail.
  abbrev pub passwd_all : State DateTime → Outcome (List LapasUserPasswd)
  passwd_all s = ok (Users.passwd_all s.user_service)

  abbrev pub shadow_all : State DateTime → Outcome (List (LapasUserShadow DateTime))
  shadow_all s = ok (Users.shadow_all s.user_service)
