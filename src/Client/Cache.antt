-- ===== src/Client/Cache.antt =====
-- bin/lapas_api_client/src/daemon.rs: `UserCache`.
pub mod Waits
use lapas.Prelude.{ℕ, zero, suc, ◌+◌, Option, none, some, List, []}
use lapas.Proto.Models.{LapasUserShadow}

module _ (DateTime : Type 0) where
  -- No list yet, or the newest one.
  abbrev pub UserCache : Type 0
  UserCache = Option (List (LapasUserShadow DateTime))

  -- What a task that waits finds in the cache at each of its polls, 100 ms apart.
  abbrev pub Polls : Type 0
  Polls = ℕ → UserCache

module _ {DateTime : Type 0} where
  abbrev pub new : UserCache DateTime
  new = none

  unfoldable pub set : List (LapasUserShadow DateTime) → UserCache DateTime → UserCache DateTime
  set users cache = some users

  -- The loop of `get`, by the rounds that are left and the number of the poll.
  unfoldable pub poll : ℕ → ℕ → Polls DateTime → List (LapasUserShadow DateTime)
  poll zero i cache = []
  poll (suc rounds) i cache = elim (cache i) [
    | some users ↦ users
    | none ↦ poll rounds (i + 1) cache
  ]

  unfoldable pub get : Polls DateTime → List (LapasUserShadow DateTime)
  unfolding poll
  get cache = poll 50 0 cache
