-- ===== src/Nss/Passwd.antt =====
-- bin/lapas_nss/src/passwd.rs: the hooks for passwd entries.
pub mod Uids
use lapas.Prelude.{
  ℕ, ◌%◌, ◌^◌, Bool, Option, none, some, List, [], ◌∷◌, ◌++◌, map, Outcome, ok, err, panic, ◌==◌,
  find,
}
use lapas.Prelude.Text.{Str, codes, str_eq}
use lapas.Proto.Models.{LapasUserPasswd}

-- What a hook returns: libnss's `Response`, as far as the hooks use it.
pub data Response (A : Type 0) : Type 0 where
  success : A → Response A
  not_found unavail : Response A

-- libnss's `Passwd`.
pub record Passwd : Type 0 where
  pub name : Str
  pub passwd : Str
  pub uid : ℕ
  pub gid : ℕ
  pub gecos : Str
  pub dir : Str
  pub shell : Str

-- `user.id as u32` keeps the low 32 bits.
unfoldable pub user_to_passwd : LapasUserPasswd → Passwd
user_to_passwd user = record {
  name = user.name;
  passwd = codes "x";
  uid = user.id % 2 ^ 32;
  gid = 1000;
  gecos = user.name;
  dir = codes "/home/" ++ user.name;
  shell = codes "/bin/bash";
}

abbrev pub found : {A B : Type 0} → (A → B) → Option A → Response B
found f (some user) = success (f user)
found f none = not_found

-- A hook on the listing that was acquired: an error is printed, a panic passes through.
abbrev pub on_listing : {A B : Type 0} → (A → Response B) → Outcome A → Outcome (Response B)
on_listing f (ok users) = ok (f users)
on_listing f (err e) = ok unavail
on_listing f panic = panic

-- The hooks, on what `api::passwd_list` returns.
unfoldable pub get_all_entries : Outcome (List LapasUserPasswd) → Outcome (Response (List Passwd))
unfolding user_to_passwd
get_all_entries = on_listing (λ users. success (map user_to_passwd users))

unfoldable pub get_entry_by_uid : ℕ → Outcome (List LapasUserPasswd) → Outcome (Response Passwd)
unfolding user_to_passwd
get_entry_by_uid uid = on_listing (λ users. found user_to_passwd (find (λ u. u.id == uid) users))

unfoldable pub get_entry_by_name : Str → Outcome (List LapasUserPasswd) → Outcome (Response Passwd)
unfolding user_to_passwd str_eq
get_entry_by_name name =
    on_listing (λ users. found user_to_passwd (find (λ u. str_eq u.name name) users))
