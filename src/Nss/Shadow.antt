-- ===== src/Nss/Shadow.antt =====
-- bin/lapas_nss/src/shadow.rs: the hooks for shadow entries.
use lapas.Prelude.{ℕ, List, map, Outcome, find}
use lapas.Prelude.Text.{Str, str_eq}
use lapas.Proto.Models.{LapasUserShadow}
use lapas.Nss.Passwd.{Response, success, found, on_listing}

-- A signed number; `negsuc n` is -(n + 1).
pub data ℤ : Type 0 where
  pos negsuc : ℕ → ℤ

-- libnss's `Shadow`.
pub record Shadow : Type 0 where
  pub name : Str
  pub passwd : Str
  pub last_change : ℤ
  pub change_min_days : ℤ
  pub change_max_days : ℤ
  pub change_warn_days : ℤ
  pub change_inactive_days : ℤ
  pub expire_date : ℤ
  pub reserved : ℕ

-- The days are chrono's: `timestamp` in seconds since 1970, and `num_days` of such a duration.
module _ {DateTime : Type 0} (timestamp : DateTime → ℤ) (num_days : ℤ → ℤ) where
  unfoldable pub user_to_shadow : LapasUserShadow DateTime → Shadow
  user_to_shadow user = record {
    name = user.name;
    passwd = user.password_hash;
    last_change = num_days (timestamp user.last_update_ts);
    change_min_days = pos 0;
    change_max_days = pos 99999;
    change_warn_days = pos 7;
    change_inactive_days = negsuc 0;
    expire_date = negsuc 0;
    reserved = 0;
  }

  -- The hooks, on what `api::shadow_list` returns.
  unfoldable pub get_all_shadows :
      Outcome (List (LapasUserShadow DateTime)) → Outcome (Response (List Shadow))
  unfolding user_to_shadow
  get_all_shadows = on_listing (λ users. success (map user_to_shadow users))

  unfoldable pub get_shadow_by_name :
      Str → Outcome (List (LapasUserShadow DateTime)) → Outcome (Response Shadow)
  unfolding user_to_shadow str_eq
  get_shadow_by_name name =
      on_listing (λ users. found user_to_shadow (find (λ u. str_eq u.name name) users))
