-- ===== src/Server/Users.antt =====
-- bin/lapas_api_server/src/api_services/user.rs: `UserService`, with the file USER_INDEX behind it.
-- serde_json, sha_crypt, the random salt, the clock and the answers of the file system are parameters.
pub mod Sound
pub mod Stored
pub mod Added
use lapas.Prelude.{
  ℕ, ◌+◌, ◌%◌, ◌^◌, Bool, true, false, ◌||◌, Option, none, some, List, [], ◌∷◌, ◌++◌, map, Outcome,
  panic, ok, err, ◌>>=◌, ◌>>◌, if◌then◌else◌, ◌==◌, ltb, length, Done,
}
use lapas.Prelude.Text.{Str, codes, str_eq}
use lapas.Proto.Models.{LapasUserPasswd, LapasUserShadow}

pub record UserIndexEntry (DateTime : Type 0) : Type 0 where
  pub id : ℕ
  pub name : Str
  pub password_hash : Str
  pub creation_ts : DateTime
  pub last_update_ts : DateTime

pub record UserIndex (DateTime : Type 0) : Type 0 where
  pub next_id : ℕ
  pub users : List (UserIndexEntry DateTime)

-- `UserIndex::default`.
abbrev pub default_index : {D : Type 0} → UserIndex D
default_index = record { next_id = 10000; users = [] }

-- The crates: serde_json on an index, and `sha512_crypt_b64` with 5000 rounds on a password and a salt.
pub record Crates (DateTime : Type 0) : Type 0 where
  pub to_string_pretty : UserIndex DateTime → Outcome Str
  pub from_str : Str → Outcome (UserIndex DateTime)
  pub sha512_crypt_b64 : Str → Str → Str

-- What one call meets outside: the salt, the two times, and the answers of the file system, with what
-- a write that fails leaves in the file. `write_all` hands the text to a write in the background;
-- `written` is how that ends, of which nothing is told where `flush` is not called.
pub record Outside (DateTime : Type 0) : Type 0 where
  pub salt : Str
  pub created : DateTime
  pub updated : DateTime
  pub create : Outcome (Unit {0})
  pub write_all : Outcome (Unit {0})
  pub written : Outcome (Unit {0})
  pub metadata : Outcome (Unit {0})
  pub set_permissions : Outcome (Unit {0})
  pub partial_write : Str

-- The index in memory, and the text of the file on the disk.
pub record UserService (DateTime : Type 0) : Type 0 where
  pub user_index : UserIndex DateTime
  pub file : Option Str

unfoldable pub taken : {D : Type 0} → Str → List (UserIndexEntry D) → Bool
taken username [] = false
taken username (u ∷ us) = str_eq u.name username || taken username us

module _ {DateTime : Type 0} (crates : Crates DateTime) where
  open crates use {to_string_pretty, from_str, sha512_crypt_b64}

  -- The file may be missing, or its text may be no index.
  unfoldable pub read_user_index : Option Str → Outcome (UserIndex DateTime)
  read_user_index none = ok default_index
  read_user_index (some file_data) = from_str file_data

  -- `File::create` empties the file before the index is turned into text.
  unfoldable pub write_text : Outside DateTime → Outcome Str → Done (Option Str) (Unit {0})
  write_text os (err e) = record { after = some []; result = err e }
  write_text os panic = record { after = some []; result = panic }
  write_text os (ok file_data) = record {
    after = elim (os.write_all >> os.written) [ ok _ ↦ some file_data | _ ↦ some os.partial_write ];
    result = os.write_all >> os.metadata >> os.set_permissions;
  }

  unfoldable pub write_user_index :
      Outside DateTime → UserIndex DateTime → Option Str → Done (Option Str) (Unit {0})
  unfolding write_text
  write_user_index os index file = elim os.create [
    | ok _ ↦ write_text os (to_string_pretty index)
    | err e ↦ record { after = file; result = err e }
    | panic ↦ record { after = file; result = panic }
  ]

  unfoldable pub password_to_ghost_random_salt : Str → Str → Str
  password_to_ghost_random_salt salt password =
      codes "$6$" ++ (salt ++ (b'$' ∷ sha512_crypt_b64 password salt))

  -- `UserService::new` on the file that it finds.
  unfoldable pub new : Option Str → Outcome (UserService DateTime)
  unfolding read_user_index
  new file = do index ← read_user_index file; ok (record { user_index = index; file = file })

  abbrev pub new_user : Outside DateTime → Str → Str → ℕ → UserIndexEntry DateTime
  new_user os username password id = record {
    id = id;
    name = username;
    password_hash = password_to_ghost_random_salt os.salt password;
    creation_ts = os.created;
    last_update_ts = os.updated;
  }

  -- The index with a user pushed; `next_id` is a u64, which wraps around in a release build.
  abbrev pub pushed : Outside DateTime → Str → Str → UserIndex DateTime → UserIndex DateTime
  pushed os username password index = record {
    next_id = (index.next_id + 1) % 2 ^ 64;
    users = index.users ++ (new_user os username password index.next_id ∷ []);
  }

  -- The user stays in memory also where the file is not written.
  unfoldable pub push_user :
      Outside DateTime → Str → Str → UserService DateTime → Done (UserService DateTime) (Unit {0})
  push_user os username password s =
      let index = pushed os username password s.user_index in
      let written = write_user_index os index s.file in
      record {
        after = record { user_index = index; file = written.after };
        result = written.result;
      }

  unfoldable pub add_user :
      Outside DateTime → Str → Str → UserService DateTime → Done (UserService DateTime) (Unit {0})
  add_user os username password s =
      if ltb (length username) 3
      then record { after = s; result = err (codes "Username too short!") }
      else if taken username s.user_index.users
      then record { after = s; result = err (codes "User with the requested name already exists!") }
      else if length password == 0
      then record { after = s; result = err (codes "Password must not be empty!") }
      else push_user os username password s

abbrev pub to_passwd : {D : Type 0} → UserIndexEntry D → LapasUserPasswd
to_passwd usr = record { id = usr.id; name = usr.name }

abbrev pub to_shadow : {D : Type 0} → UserIndexEntry D → LapasUserShadow D
to_shadow usr = record {
  id = usr.id;
  name = usr.name;
  password_hash = usr.password_hash;
  last_update_ts = usr.last_update_ts;
}

unfoldable pub passwd_all : {D : Type 0} → UserService D → List LapasUserPasswd
passwd_all s = map to_passwd s.user_index.users

unfoldable pub shadow_all : {D : Type 0} → UserService D → List (LapasUserShadow D)
shadow_all s = map to_shadow s.user_index.users
