-- ===== src/Client/Daemon/Run.antt =====
-- bin/lapas_api_client/src/daemon.rs: the loop of `run` that connects again and again.
use lapas.Prelude.{List, [], ◌∷◌, ◌>>=◌, Outcome, Done, ok, err, panic}
use lapas.Proto.Serde.{Chrono}
use lapas.Proto.Models.{ApiAuth}
use lapas.Proto.Connection.{Connection}
use lapas.Client.Cache.{UserCache}
use lapas.Client.Cache as Cache
use lapas.Client.Commands.{CliArgs, args_to_auth}
use lapas.Client.Daemon.{Wake, Daemon, run_daemon}

-- An attempt: how `TcpStream::connect` ends, the connection, and what `select!` takes in turn.
pub record Attempt : Type 0 where
  pub connected : Outcome (Unit {0})
  pub connection : Connection
  pub wakes : List Wake

module _ (chrono : Chrono) where
  open chrono use {DateTime}

  -- What `run_daemon` leaves in the cache that it shares.
  abbrev pub attempt : ApiAuth → Attempt → UserCache DateTime → Done (Daemon DateTime) (Unit {0})
  attempt auth a cache =
      run_daemon chrono a.connected auth a.wakes
        (record { connection = a.connection; user_cache = cache; reports = [] })

  -- The loop: an error is printed, and a panic ends the program.
  unfoldable pub connect_loop :
      ApiAuth → List Attempt → UserCache DateTime → Outcome (UserCache DateTime)
  unfolding run_daemon
  connect_loop auth [] cache = ok cache
  connect_loop auth (a ∷ attempts) cache =
      let rest = connect_loop auth attempts (attempt auth a cache).after.user_cache in
      elim (attempt auth a cache).result [ ok u ↦ rest | err e ↦ rest | panic ↦ panic ]

  -- `run`, with the cache that it makes.
  unfoldable pub run : CliArgs → List Attempt → Outcome (UserCache DateTime)
  unfolding args_to_auth connect_loop
  run args attempts = args_to_auth args >>= λ auth. connect_loop auth attempts Cache.new
