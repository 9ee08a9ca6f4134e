-- ===== src/Server/Config.antt =====
-- bin/lapas_api_server/src/state.rs: `State::init`, which reads the configuration file of the scripts,
-- and `DnsService::new` of bin/lapas_api_server/src/api_services/dns.rs.
pub mod Reads
use lapas.Prelude.{
  ◌-◌, Bool, ◌&&◌, Option, List, [], ◌∷◌, length, take, drop, ltb, Outcome, ok, err, ◌>>=◌, ◌>>◌,
  if◌then◌else◌,
}
use lapas.Prelude.Text.{Str, codes, starts_with, ends_with, splitn, lines}
use lapas.Prelude.Text.Utf8.{is_utf8}
use lapas.Server.Users.{Crates, new}
use lapas.Server.State.{Config, config_get, State, DnsService, push_path}

-- A value without the quotation marks round it.
unfoldable pub unquoted : Str → Str
unfolding starts_with ends_with
unquoted value =
    if ltb 1 (length value) && starts_with value (codes "\"") && ends_with b'"' value
    then take (length value - 1 - 1) (drop 1 value)
    else value

-- The parts of a line that `splitn` gives, inserted into the map.
unfoldable pub insert_parts : Config → List Str → Outcome Config
unfolding unquoted
insert_parts config (key ∷ value ∷ []) = ok ((key, unquoted value) ∷ config)
insert_parts config _ = err (codes "Invalid config file")

unfoldable pub read_line : Config → Str → Outcome Config
unfolding starts_with insert_parts splitn
read_line config line =
    if starts_with line (codes "#") then ok config else insert_parts config (splitn 2 b'=' line)

-- The loop over the lines; one that is not UTF-8 is an error of `next_line`.
unfoldable pub read_lines : Config → List Str → Outcome Config
read_lines config [] = ok config
read_lines config (line ∷ rest) = do
  config' ←
      (if is_utf8 line
        then read_line config line
        else err (codes "stream did not contain valid UTF-8"))
  read_lines config' rest

-- What `State::init` finds on the disk: the configuration file, the file at a path, and the folder of
-- the host names.
pub record Disk : Type 0 where
  pub config_file : Outcome Str
  pub user_index : Str → Outcome (Option Str)
  pub hosts_exists : Bool
  pub create_dir_all : Outcome (Unit {0})
  pub hosts_is_dir : Bool

-- `DnsService::new`.
unfoldable pub new_dns : Disk → Str → Str → Outcome DnsService
new_dns disk dns_domain hosts_dir = do
  (if disk.hosts_exists then ok tt else disk.create_dir_all)
  if disk.hosts_is_dir
      then ok (record { dns_domain = dns_domain; hosts_dir = hosts_dir })
      else err (codes "Failed to create dnsmasq hostsdir!")

module _ {DateTime : Type 0} (crates : Crates DateTime) where
  unfoldable pub init : Disk → List (Str × Str) → Outcome (State DateTime)
  unfolding read_lines lines config_get push_path new_dns
  init disk hosts = do
    content ← disk.config_file
    config ← read_lines [] (lines content)
    homes_dir ← config_get (codes "LAPAS_USERHOMES_DIR") config
    dns_domain ← config_get (codes "LAPAS_NET_DOMAIN") config
    hosts_dir ← config_get (codes "LAPAS_DNS_HOSTMAPPINGS_DIR") config
    file ← disk.user_index (push_path homes_dir (codes "USER_INDEX"))
    user_service ← new crates file
    dns_service ← new_dns disk dns_domain hosts_dir
    ok (record {
      config = config;
      user_service = user_service;
      dns_service = dns_service;
      hosts = hosts;
      config_text = content;
      notified = [];
      listeners = [];
    })
