-- ===== src/Server/System.antt =====
-- bin/lapas_api_server/src/api_server.rs: `run`, which serves any number of clients at once. The tasks
-- share one state behind its locks; between two awaits of one task, others may run.
pub mod Safety
pub mod Secrets
pub mod Grows
pub mod Durable
pub mod Announced
use lapas.Prelude.{ℕ, List, [], Outcome, ok, err, panic, if◌then◌else◌, ◌==◌, ◌≡◌, ◌+◌}
use lapas.Prelude.Text.{Str}
use lapas.Proto.Packet.{LapasProtocol}
use lapas.Server.Users.{Crates}
use lapas.Server.State.{State, Peer}
use lapas.Server.Session.{Turn, Session, Step, handle_handshake, round}

-- Where the task of a client is: before its handshake, in its loop, or ended.
pub data Phase : Type 0 where
  greeting serving over : Phase

-- The shared state, and for each client its phase and what it was sent.
pub record System (DateTime : Type 0) : Type 0 where
  pub state : State DateTime
  pub phase : ℕ → Phase
  pub sent : ℕ → List (LapasProtocol DateTime)

abbrev pub update {ℓ} : {A : Type ℓ} → (ℕ → A) → ℕ → A → ℕ → A
update f i a j = if i == j then a else f j

-- A round that ends well goes on in the loop.
abbrev pub next_phase : Outcome (Unit {0}) → Phase
next_phase (ok u) = serving
next_phase (err e) = over
next_phase panic = over

module _ {DateTime : Type 0} (crates : Crates DateTime) (sha512_hex : Str → Str) where
  abbrev pub session : System DateTime → ℕ → Session DateTime
  session s i = record { state = s.state; sent = s.sent i }

  -- Client `i` after a round of its task.
  abbrev pub moved : System DateTime → ℕ → Step DateTime → System DateTime
  moved s i d = record {
    state = d.after.state;
    phase = update s.phase i (next_phase d.result);
    sent = update s.sent i d.after.sent;
  }

  -- A client's handshake, or a round of its loop.
  pub data Move (s : System DateTime) : System DateTime → Type 0 where
    greets :
        (i : ℕ) (t : Turn DateTime)
        → s.phase i ≡ greeting
        → Move s (moved s i (handle_handshake t (session s i)))
    asks :
        (peer : Peer) (t : Turn DateTime)
        → s.phase peer.number ≡ serving
        → Move s (moved s peer.number (round crates sha512_hex peer t (session s peer.number)))

  -- The systems that some interleaving of `n` rounds of any clients reaches from `s`.
  pub data Reach (s : System DateTime) : ℕ → System DateTime → Type 0 where
    start : Reach s 0 s
    later : {n m : ℕ} {u v : System DateTime} → Reach s n u → Move u v → m ≡ n + 1 → Reach s m v
