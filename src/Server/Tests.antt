-- ===== src/Server/Tests.antt =====
-- The theorems on the server at concrete calls and sessions, with plain texts for the crates' work.
mod Interleaved
mod Texts
mod Starting
mod Files
pub mod Channel
use lapas.Prelude.{
  ℕ, ◌≡◌, ◌∙◌, refl, sym, ap, true, none, List, [], ◌∷◌, ◌++◌, ok, err, Outcome, arith, length, All,
  take, drop, take_append, drop_append, ◌⊎◌, ok-injective,
}
use lapas.Prelude.Text.{Str, codes, str_eq}
use lapas.Proto.Models.{password}
use lapas.Proto.Packet.{
  LapasProtocol, control_handshake, user_register, shadow_get_list, passwd_get_list,
}
use lapas.Server.Users.{
  UserIndexEntry, UserIndex, Crates, Outside, UserService, default_index, taken, new,
  read_user_index, write_user_index, write_text, push_user,
}
use lapas.Server.Users as Users
use lapas.Server.Users.Sound.{IsSound}
use lapas.Server.Users.Stored.{ReadsBack, new-add_user}
use lapas.Server.State.{host_file, Config, Peer, check_auth, config_get}
use lapas.Server.Session.{Turn, Session, handle_client, handle_handshake, answer_handshake, round}
use lapas.Server.Tests.Texts.{crates, crates-ReadsBack, entries_text}
use lapas.Server.System as System
use lapas.Server.System.{System, greeting, serving, moved, greets, asks, Reach, start, later}
use lapas.Server.System.Safety.{Somewhere, Reach-users, Reach-IsSound}
use lapas.Server.Session.Guarded.{IsRefused, IsGuest, IsHarmless, handle_client-IsHarmless}
use lapas.Server.Session.Handshake.{IsOver, handle_client-IsOver}
use lapas.Server.Session.Answers.Loop.{handle_client-IsAnswered}
use lapas.Server.Session.Answers.{IsAnswered, received}
use lapas.Proto.Packet.{control_handshake_response}
use lapas.Proto.Serde.{Result}

abbrev outside : Outside (Unit {0})
outside = record {
  salt = codes "salt";
  created = tt;
  updated = tt;
  create = ok tt;
  write_all = ok tt;
  written = ok tt;
  metadata = ok tt;
  set_permissions = ok tt;
  partial_write = [];
}

abbrev service : UserService (Unit {0})
service = record { user_index = default_index; file = none }

service-IsSound : IsSound service.user_index
service-IsSound = record { given = tt; ids = tt; names = tt }

abbrev added : UserService (Unit {0})
added = (Users.add_user crates outside (codes "alice") (codes "pw") service).after

added_ok : (Users.add_user crates outside (codes "alice") (codes "pw") service).result ≡ ok tt
unfolding Users.add_user push_user taken write_user_index write_text entries_text
added_ok = refl

new-add_user_example : new crates added.file ≡ ok added
new-add_user_example =
    new-add_user crates crates-ReadsBack outside (codes "alice") (codes "pw") service added_ok refl

-- A call on a full disk: `write_all` has handed the text over, and none of it arrives.
abbrev full : Outside (Unit {0})
full = record outside { written = err (codes "No space left on device"); partial_write = [] }

abbrev config : Config
config =
    (codes "LAPAS_PASSWORD_HASH", codes "saltadmin")
    ∷ (codes "LAPAS_PASSWORD_SALT", codes "salt")
    ∷ []

abbrev hashed : Str → Str
hashed s = s

accepted : check_auth hashed config (password (codes "admin")) ≡ ok true
unfolding check_auth config_get str_eq
accepted = refl

abbrev session : Session (Unit {0})
session = record {
  state = record {
    config = config;
    user_service = service;
    dns_service = record { dns_domain = codes "lan"; hosts_dir = codes "/hosts" };
    hosts = [];
    config_text = [];
    notified = [];
    listeners = [];
  };
  sent = [];
}

abbrev turn : LapasProtocol (Unit {0}) → Turn (Unit {0})
turn p = record {
  received = ok p;
  send = ok tt;
  users = outside;
  dns = record {
    target = λ path. host_file;
    create = ok tt;
    write_all = ok tt;
    flush = ok tt;
    partial_write = [];
  };
}

abbrev peer : Peer
peer = record { number = 1; ip = codes "10.0.0.7" }

abbrev register : Str → Turn (Unit {0})
register pw = turn (user_register (password pw) (codes "alice") (codes "pw"))

abbrev guest : List (Turn (Unit {0}))
guest =
    turn (control_handshake 6)
    ∷ register (codes "guess")
    ∷ turn (shadow_get_list (password []))
    ∷ []

turn-IsGuest :
    (p : LapasProtocol (Unit {0})) → IsRefused hashed config p → IsGuest hashed config (turn p)
turn-IsGuest p h q e = rw⁻¹ (ok-injective p q e) h

guest-IsGuest : All (IsGuest hashed config) guest
unfolding check_auth config_get str_eq
guest-IsGuest = (
  turn-IsGuest (control_handshake 6) tt,
  (
    turn-IsGuest (user_register (password (codes "guess")) (codes "alice") (codes "pw")) (λ e. cc),
    (turn-IsGuest (shadow_get_list (password [])) (λ e. cc), tt),
  ),
)

handle_client-IsHarmless_example :
    IsHarmless session.state (handle_client crates hashed peer guest session).after
handle_client-IsHarmless_example =
    handle_client-IsHarmless crates hashed peer guest session tt guest-IsGuest

-- A client that asks for the users at once, in place of a handshake.
handle_client-IsOver_example : IsOver session (
    handle_client crates hashed peer (turn passwd_get_list ∷ register (codes "admin") ∷ []) session)
handle_client-IsOver_example =
    handle_client-IsOver crates hashed peer (turn passwd_get_list) (register (codes "admin") ∷ [])
      session (λ e. cc)

-- A client that asks for the users and registers one.
abbrev visits : List (Turn (Unit {0}))
visits = turn passwd_get_list ∷ register (codes "admin") ∷ []

handle_client-IsAnswered_example :
    IsAnswered
      (control_handshake_response (Result.ok tt) ∷ [])
      (received visits)
      (handle_client crates hashed peer (turn (control_handshake 6) ∷ visits) session)
handle_client-IsAnswered_example =
    handle_client-IsAnswered crates hashed peer (turn (control_handshake 6)) visits session refl
      refl
