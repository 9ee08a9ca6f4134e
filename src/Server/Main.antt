-- ===== src/Server/Main.antt =====
-- bin/lapas_api_server/src/main.rs: `main` behind the parsing of arguments, which starts the server.
pub mod Restarted
use lapas.Prelude.{ℕ, List, [], Outcome, ok, err, ◌>>=◌, ◌>>◌}
use lapas.Prelude.Text.{Str}
use lapas.Server.Users.{Crates}
use lapas.Server.State.{State}
use lapas.Server.Config.{Disk, init}
use lapas.Server.System.{System, greeting}

-- Where `run` begins to accept clients: each of them is before its handshake.
abbrev pub listening : {D : Type 0} → State D → System D
listening state = record { state = state; phase = λ i. greeting; sent = λ i. [] }

module _ {DateTime : Type 0} (crates : Crates DateTime) where
  -- With the files of the host names, and whether the address can be bound.
  unfoldable pub main : Disk → List (Str × Str) → Outcome (Unit {0}) → Outcome (System DateTime)
  unfolding init
  main disk hosts bound = do state ← init crates disk hosts; bound; ok (listening state)
