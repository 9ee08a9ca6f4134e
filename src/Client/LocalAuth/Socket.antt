-- ===== src/Client/LocalAuth/Socket.antt =====
-- bin/lapas_api_client/src/daemon.rs: `run_local_auth_server`, the socket and the loop that accepts.
use lapas.Prelude.{Bool, List, [], ◌∷◌, Outcome, ok, err, panic, ◌>>◌, if◌then◌else◌}

-- What the set-up of the socket meets.
pub record RunDir : Type 0 where
  pub create_dir_all : Outcome (Unit {0})
  pub exists : Bool
  pub remove_file : Outcome (Unit {0})
  pub bind : Outcome (Unit {0})
  pub metadata : Outcome (Unit {0})
  pub set_permissions : Outcome (Unit {0})

-- `run_local_auth_server` up to its loop: an old socket is removed, and everyone may use the new one.
unfoldable pub set_up : RunDir → Outcome (Unit {0})
set_up dir =
    dir.create_dir_all
    >> (if dir.exists then dir.remove_file else ok tt)
    >> dir.bind
    >> dir.metadata
    >> dir.set_permissions

-- Its loop over what `accept` returns: a client is served for each stream, also after an error.
unfoldable pub served : {S : Type 0} → List (Outcome S) → List S
served [] = []
served (ok stream ∷ rest) = stream ∷ served rest
served (err e ∷ rest) = served rest
served (panic ∷ rest) = []
