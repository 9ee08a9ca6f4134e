-- ===== src/Client/Tests.antt =====
-- The commands and the cache at concrete users, with plain texts for the crates' work.
mod Running
use lapas.Prelude.{
  ◌⊎◌, ℕ, ◌≡◌, ◌<◌, refl, true, map, panic, none, some, List, [], ◌∷◌, ◌++◌, ok, err, arith, ltb,
  if◌then◌else◌, All,
}
use lapas.Prelude.Text.{Str, codes, str_eq}
use lapas.Prelude.Text.Utf8.{is_utf8}
use lapas.Proto.Serde.{Result}
use lapas.Proto.Models.{ApiAuth, password, LapasUserPasswd}
use lapas.Proto.Packet.{
  version, control_handshake, user_register, passwd_get_list, passwd_get_list_response,
  encode_packet, shadow_get_list_response, control_handshake_response, notify_users_changed,
  notify_root_changed, control_listen_events, shadow_get_list, control_ping,
}
use lapas.Proto.RoundTrip.{IsPacket}
use lapas.Proto.Tests.{Moment, launch, calendar, calendar-IsRfc3339, alice}
use lapas.Server.Users as Users
use lapas.Server.Users.{Crates, Outside, UserIndexEntry, passwd_all}
use lapas.Server.State as State
use lapas.Server.State.{host_file, State, Peer, DnsOutside, check_auth, config_get}
use lapas.Client.Sort.{sort_by_key, insert_by_key}
use lapas.Client.Sort.Laws.{IsSortedBy, with_key}
use lapas.Client.Commands as Commands
use lapas.Client.Commands.{CliArgs, list_users, user_line, user_created, main_command}
use lapas.Client.Commands.Served.{arriving, replies, list_users_served, add_user_served}
use lapas.Client.Daemon.{remounted, timer, arrival, run_daemon, follow_events, handle_root_changed}
use lapas.Client.Daemon.Events.{Event, tick, came, wake_of, arrived, IsGood}
use lapas.Client.Daemon.Follows.{at, run_daemon_lem}
use lapas.Client.Daemon.Broken.{IsLost, follow_events-IsLost}
use lapas.Proto.Connection.Laws.{encode_all}
use lapas.Client.Daemon.Run.{Attempt, connect_loop}
use lapas.Client.Daemon.Kept.{IsFilled, connect_loop-IsFilled}
use lapas.Client.Commands.{lapas_connect}
use lapas.Proto.Connection.{send, receive}
use lapas.Proto.Packet.{decode_packet}
use lapas.Proto.Serde.{read_u32}
use lapas.Client.Cache.{Polls, get}
use lapas.Client.Cache.Waits.{FoundBelow, EmptyBelow, get-cases}
use lapas.Server.Users.{Crates, Outside, passwd_all, add_user}

abbrev pub crates : Crates Moment
crates = record {
  to_string_pretty = λ index. ok [];
  from_str = λ s. err (codes "unsupported");
  sha512_crypt_b64 = λ p s. p;
}

abbrev pub outside : Outside Moment
outside = record {
  salt = codes "salt";
  created = launch;
  updated = launch;
  create = ok tt;
  write_all = ok tt;
  written = ok tt;
  metadata = ok tt;
  set_permissions = ok tt;
  partial_write = [];
}

abbrev pub dns : DnsOutside
dns = record {
  target = λ path. host_file;
  create = ok tt;
  write_all = ok tt;
  flush = ok tt;
  partial_write = [];
}

abbrev pub peer : Peer
peer = record { number = 1; ip = codes "10.0.0.7" }

abbrev entry : ℕ → Str → UserIndexEntry Moment
entry id name = record {
  id = id;
  name = name;
  password_hash = codes "hash";
  creation_ts = launch;
  last_update_ts = launch;
}

abbrev pub server : State Moment
server = record {
  config =
      (codes "LAPAS_PASSWORD_HASH", codes "saltadmin")
      ∷ (codes "LAPAS_PASSWORD_SALT", codes "salt")
      ∷ [];
  user_service = record {
    user_index = record {
      next_id = 1002;
      users = entry 1001 (codes "bob") ∷ entry 1000 (codes "alice") ∷ [];
    };
    file = none;
  };
  dns_service = record { dns_domain = codes "lan"; hosts_dir = codes "/hosts" };
  hosts = [];
  config_text = [];
  notified = [];
  listeners = [];
}

abbrev args : CliArgs
args = record {
  api_password = some (codes "admin");
  api_host = codes "lapas";
  api_port = 1337;
  command = list_users;
}

abbrev pub hashed : Str → Str
hashed s = s

two_users :
    IsPacket {D = Moment} (passwd_get_list_response (Result.ok (passwd_all server.user_service)))
unfolding passwd_all is_utf8
two_users =
    (omega arith, ((omega arith, (refl, omega arith)), ((omega arith, (refl, omega arith)), tt)))

list_users_served_example :
    (users : List LapasUserPasswd) × (main_command calendar (ok tt) args list_users (
        arriving
          (replies calendar calendar-IsRfc3339 crates hashed peer outside dns args server
            passwd_get_list)
          [])
      ≡ record {
        after = arriving [] (
            encode_packet calendar (control_handshake version)
            ++ encode_packet calendar passwd_get_list);
        result = ok (map (λ u. user_line u.id u.name) users);
      })
    × IsSortedBy (λ u. u.id) users
    × ((id : ℕ)
        → with_key (λ u. u.id) id users ≡ with_key (λ u. u.id) id (passwd_all server.user_service))
list_users_served_example =
    list_users_served calendar calendar-IsRfc3339 crates hashed peer outside dns args server
      two_users

pub accepted : check_auth hashed server.config (password (codes "admin")) ≡ ok true
unfolding check_auth config_get str_eq
accepted = refl

added : (State.add_user crates outside (codes "carol") (codes "pw") server).result ≡ ok tt
unfolding State.add_user Users.add_user Users.push_user Users.taken Users.write_user_index
    Users.write_text str_eq
added = refl

add_user_served_example :
    (main_command calendar (ok tt) args (Commands.add_user (codes "carol") (codes "pw")) (
      arriving
        (replies calendar calendar-IsRfc3339 crates hashed peer outside dns args server
          (user_register (password (codes "admin")) (codes "carol") (codes "pw")))
        [])).result
    ≡ ok (user_created (codes "carol") ∷ [])
add_user_served_example =
    add_user_served calendar calendar-IsRfc3339 crates hashed peer outside dns args server
      (codes "admin") (codes "carol") (codes "pw") true (Result.ok tt) accepted added tt

sorted : sort_by_key (λ (n : ℕ). n) (3 ∷ 1 ∷ 2 ∷ []) ≡ 1 ∷ 2 ∷ 3 ∷ []
unfolding sort_by_key insert_by_key
sorted = refl

-- A cache that is filled at the third poll.
abbrev late : Polls Moment
late i = if ltb i 2 then none else some (alice ∷ [])

get-cases_example :
    ((k : ℕ) × FoundBelow late 50 k (get late)) ⊎ (EmptyBelow late 50 × (get late ≡ []))
get-cases_example = get-cases late
