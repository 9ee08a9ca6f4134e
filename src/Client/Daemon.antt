-- ===== src/Client/Daemon.antt =====
-- bin/lapas_api_client/src/daemon.rs: `run_daemon`, the loop that follows the server's events.
pub mod Events
pub mod Follows
pub mod Broken
pub mod Run
pub mod Kept
pub mod Warmed
pub mod Informed
use lapas.Prelude.{
  ℕ, Bool, true, false, Option, none, some, List, [], ◌∷◌, ◌++◌, drop, Outcome, Done, ok, err,
  panic,
}
use lapas.Prelude.Text.{Str, codes}
use lapas.Proto.Serde.{Result, Chrono}
use lapas.Proto.Models.{ApiAuth, LapasUserShadow}
use lapas.Proto.Packet.{
  LapasProtocol, control_ping, control_listen_events, shadow_get_list, shadow_get_list_response,
  notify_root_changed, notify_users_changed, notify_dns_mappings_changed,
}
use lapas.Proto.Connection.{Connection, Talk, send, receive}
use lapas.Client.Cache as Cache
use lapas.Client.Cache.{UserCache}
use lapas.Client.Commands.{lapas_connect}

-- The programs that the daemon runs, and whether they succeeded.
pub data Report : Type 0 where
  remounted not_remounted flushed not_flushed : Report

-- `spawn` succeeds or fails, then `wait` does, with the exit status.
abbrev pub succeeded : Outcome (Outcome Bool) → Bool
succeeded (ok (ok success)) = success
succeeded _ = false

unfoldable pub handle_root_changed : Outcome (Outcome Bool) → Report
handle_root_changed child = elim (succeeded child) [ true ↦ remounted | false ↦ not_remounted ]

unfoldable pub handle_dns_mappings_changed : Outcome (Outcome Bool) → Report
handle_dns_mappings_changed child = elim (succeeded child) [ true ↦ flushed | false ↦ not_flushed ]

-- The branch that `select!` takes. The timer drops the other branch's `decode`, with the bytes that
-- it has read of a packet so far; an arrival comes with how a child process would end.
pub data Wake : Type 0 where
  timer : ℕ → Wake
  arrival : Outcome (Outcome Bool) → Wake

-- The state of the daemon: its connection, the cache that it shares, and what it ran.
pub record Daemon (DateTime : Type 0) : Type 0 where
  pub connection : Connection
  pub user_cache : UserCache DateTime
  pub reports : List Report

module _ (chrono : Chrono) where
  open chrono use {DateTime}

  abbrev pub Run : Type 0 → Type 0
  Run A = Daemon DateTime → Done (Daemon DateTime) A

  -- A part of the run that only talks.
  abbrev pub talk : {A : Type 0} → Talk A → Run A
  talk m d =
      let r = m d.connection in
      record { after = record d { connection = r.after }; result = r.result }

  abbrev pub go_on :
      {A B : Type 0} → Daemon DateTime → Outcome A → (A → Run B) → Done (Daemon DateTime) B
  go_on d (ok a) f = f a d
  go_on d (err e) f = record { after = d; result = err e }
  go_on d panic f = record { after = d; result = panic }

  infixl 5 ◌>>=◌ ◌>>◌
  abbrev pub ◌>>=◌ : {A B : Type 0} → Run A → (A → Run B) → Run B
  ◌>>=◌ m f d = let r = m d in go_on r.after r.result f

  abbrev pub ◌>>◌ : {B : Type 0} → Run (Unit {0}) → Run B → Run B
  ◌>>◌ m k = m >>= (λ _. k)

  abbrev pub reporting : Report → Run (Unit {0})
  reporting r d = record { after = record d { reports = d.reports ++ (r ∷ []) }; result = ok tt }

  unfoldable pub handle_users_changed : ApiAuth → Run (Unit {0})
  unfolding send
  handle_users_changed auth = talk (send chrono (shadow_get_list auth))

  unfoldable pub handle_event :
      ApiAuth → Outcome (Outcome Bool) → LapasProtocol DateTime → Run (Unit {0})
  unfolding Cache.set
  handle_event auth child notify_root_changed d = reporting (handle_root_changed child) d
  handle_event auth child notify_users_changed d = handle_users_changed auth d
  handle_event auth child notify_dns_mappings_changed d =
      reporting (handle_dns_mappings_changed child) d
  handle_event auth child (shadow_get_list_response (Result.ok user_list)) d = record {
    after = record d { user_cache = Cache.set user_list d.user_cache };
    result = ok tt;
  }
  handle_event auth child (shadow_get_list_response (Result.err e)) d = record {
    after = d;
    result = err (codes "Acquiring new user shadow listing failed:\n" ++ e);
  }
  handle_event auth child _ d = record { after = d; result = ok tt }

  -- One round of the loop.
  unfoldable pub on_wake : ApiAuth → Wake → Run (Unit {0})
  unfolding send receive
  on_wake auth (timer read) d =
      talk (send chrono control_ping) (record d {
        connection = record d.connection { incoming = drop read d.connection.incoming };
      })
  on_wake auth (arrival child) d = (talk (receive chrono) >>= handle_event auth child) d

  unfoldable pub follow_events : ApiAuth → List Wake → Run (Unit {0})
  follow_events auth [] d = record { after = d; result = ok tt }
  follow_events auth (w ∷ ws) d = (on_wake auth w >> follow_events auth ws) d

  -- anyhow's `context` on a write.
  abbrev pub in_context : Str → Outcome (Unit {0}) → Outcome (Unit {0})
  in_context what (ok u) = ok u
  in_context what (err e) = err (what ++ (codes ": " ++ e))
  in_context what panic = panic

  abbrev pub announce : Str → LapasProtocol DateTime → Run (Unit {0})
  announce what p d =
      let r = talk (send chrono p) d in
      record { after = r.after; result = in_context what r.result }

  unfoldable pub run_daemon : Outcome (Unit {0}) → ApiAuth → List Wake → Run (Unit {0})
  unfolding lapas_connect send
  run_daemon connected auth ws =
      talk (lapas_connect chrono connected)
      >> announce (codes "Registering for server events") control_listen_events
      >> announce (codes "Request shadow list for initial cache warming") (shadow_get_list auth)
      >> follow_events auth ws
