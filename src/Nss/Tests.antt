-- ===== src/Nss/Tests.antt =====
-- The hooks at concrete files, caches and users.
mod Registering
use lapas.Prelude.{
  ℕ, ◌≡◌, ◌<◌, ◌^◌, refl, true, false, none, some, List, [], ◌∷◌, ◌++◌, ok, err, panic, arith, ltb,
  if◌then◌else◌,
}
use lapas.Prelude.Text.{Str, codes, str_eq, lines, split}
use lapas.Prelude.Text.Utf8.{is_utf8}
use lapas.Proto.Serde.{Result}
use lapas.Proto.Models.{password, LapasUserPasswd, LapasUserShadow}
use lapas.Proto.Packet.{
  passwd_get_list, passwd_get_list_response, shadow_get_list, shadow_get_list_response,
}
use lapas.Proto.RoundTrip.{IsPacket}
use lapas.Proto.Tests.{Moment, launch, calendar, calendar-IsRfc3339, alice}
use lapas.Server.Users.{UserIndexEntry, UserService, passwd_all, shadow_all}
use lapas.Server.Users.Sound.{Apart, IsSound}
use lapas.Client.Cache.{Polls, get, poll}
use lapas.Client.Commands.Served.{arriving}
use lapas.Nss.Api.{Host, key, is_password_line, get_api_password, passwd_list, shadow_list}
use lapas.Nss.Passwd.{
  Passwd, success, user_to_passwd, get_all_entries, get_entry_by_uid, get_entry_by_name,
}
use lapas.Nss.Passwd.Uids.{entry_of, get_all_entries-Apart}
use lapas.Nss.Password.{IsPassed, get_api_password-found, get_api_password-panics}
use lapas.Nss.Served.{local_replies, shadow_served}
use lapas.Nss.Lookup.{lookup_served}

abbrev port : Str
port = codes "API_PORT=1337"

abbrev env_file : Str
env_file = port ++ (10 ∷ (codes "API_PASSWORD=\"a\"b\"" ++ (10 ∷ [])))

abbrev broken_file : Str
broken_file = port ++ (10 ∷ (codes "API_PASSWORD=\"" ++ (10 ∷ [])))

env_file-lines : lines env_file ≡ port ∷ codes "API_PASSWORD=\"a\"b\"" ∷ []
unfolding lines split
env_file-lines = refl

broken_file-lines : lines broken_file ≡ port ∷ key ∷ []
unfolding lines split
broken_file-lines = refl

port-IsPassed : IsPassed port
unfolding is_utf8 is_password_line
port-IsPassed = (refl, refl)

password_line : is_utf8 (codes "API_PASSWORD=\"a\"b\"") ≡ true
unfolding is_utf8
password_line = refl

get_api_password-found_example : get_api_password (ok env_file) ≡ ok (codes "a\"b")
get_api_password-found_example =
    get_api_password-found env_file (codes "a\"b") (port ∷ []) [] env_file-lines (port-IsPassed, tt)
      password_line

get_api_password-panics_example : get_api_password (ok broken_file) ≡ panic
get_api_password-panics_example =
    get_api_password-panics broken_file (port ∷ []) [] broken_file-lines (port-IsPassed, tt)

abbrev host : Host
host = record { runtime = ok tt; connected = ok tt; env_file = ok env_file }

-- A cache that is filled at the third poll.
abbrev late : List (LapasUserShadow Moment) → Polls Moment
late users i = if ltb i 2 then none else some users

late-before : (users : List (LapasUserShadow Moment)) (j : ℕ) → j < 2 → late users j ≡ none
late-before users j l = let e : ltb j 2 ≡ true = ground arith in rw e

alice_only : IsPacket (shadow_get_list_response (Result.ok (get (late (alice ∷ [])))))
unfolding is_utf8 get poll
alice_only = (omega arith, ((omega arith, (refl, omega arith), (refl, omega arith)), tt))

text : (is_utf8 (codes "a\"b") ≡ true) × (3 < 2 ^ 32)
unfolding is_utf8
text = (refl, omega arith)

other : str_eq (codes "a\"b") (codes "ab") ≡ false
unfolding str_eq
other = refl

shadow_served_example :
    (shadow_list calendar host (
      arriving
        (local_replies calendar
          (password (codes "ab"))
          (late (alice ∷ []))
          (shadow_get_list (password (codes "a\"b"))))
        [])).result
    ≡ err (codes "IO Error")
shadow_served_example =
    shadow_served calendar calendar-IsRfc3339 (late (alice ∷ [])) host (codes "a\"b") (codes "ab")
      false refl refl get_api_password-found_example text other alice_only

abbrev entry : ℕ → Str → UserIndexEntry Moment
entry id name = record {
  id = id;
  name = name;
  password_hash = codes "hash";
  creation_ts = launch;
  last_update_ts = launch;
}

abbrev service : UserService Moment
service = record {
  user_index = record {
    next_id = 1002;
    users = entry 1001 (codes "bob") ∷ entry 1000 (codes "al") ∷ [];
  };
  file = none;
}

service-IsSound : IsSound service.user_index
service-IsSound = record {
  given = (omega arith, (omega arith, tt));
  ids = (((λ e. omega arith), tt), (tt, tt));
  names = (((λ e. cc), tt), (tt, tt));
}

get_all_entries-Apart_example :
    (es : List Passwd) × (get_all_entries (ok (passwd_all service)) ≡ ok (success es))
    × Apart (λ e. e.uid) es
    × Apart (λ e. e.name) es
get_all_entries-Apart_example = get_all_entries-Apart service service-IsSound (omega arith)

two_users : IsPacket {D = Moment} (passwd_get_list_response (Result.ok (passwd_all service)))
unfolding passwd_all is_utf8
two_users =
    (omega arith, ((omega arith, (refl, omega arith)), ((omega arith, (refl, omega arith)), tt)))

lookup_served_example :
    (get_entry_by_name
        (codes "al")
        (passwd_list calendar host (
          arriving
            (local_replies calendar (password []) (late (shadow_all service)) passwd_get_list)
            [])).result
      ≡ ok (success (entry_of (entry 1000 (codes "al")))))
    × (get_entry_by_uid 1001
          (passwd_list calendar host (
            arriving
              (local_replies calendar (password []) (late (shadow_all service)) passwd_get_list)
              [])).result
        ≡ ok (success (entry_of (entry 1001 (codes "bob")))))
unfolding str_eq
lookup_served_example =
    lookup_served calendar calendar-IsRfc3339 (password []) (late (shadow_all service)) service host
      2 refl refl (omega arith) (late-before (shadow_all service)) refl two_users (codes "al") 1001
