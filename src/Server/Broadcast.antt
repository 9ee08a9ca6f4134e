-- ===== src/Server/Broadcast.antt =====
-- What bin/lapas_api_server/src/api_services/notification.rs relies on of tokio's broadcast channel:
-- a receiver is given every value that is sent after it subscribed, in order, unless more values wait
-- for it than the channel holds; then `recv` is an error.
use lapas.Prelude.{ℕ, ◌≤◌, ◌<◌, ◌≡◌, List, [], ◌∷◌, ◌++◌, length}
use lapas.Prelude.Text.{Str}

-- What a poll of `recv` returns.
pub data Polled (T R : Type 0) : Type 0 where
  pending : Polled T R
  value : T → R → Polled T R
  lagged : Str → Polled T R

pub record Broadcast (T : Type 0) : Type 1 where
  pub Sender : Type 0
  pub Receiver : Type 0
  pub channel : ℕ → Sender
  pub subscribe : Sender → Receiver
  pub send : T → Sender → Sender
  pub recv : Receiver → Sender → Polled T Receiver
  pub capacity : Sender → ℕ
  -- These values wait for the receiver.
  pub Waiting : Sender → Receiver → List T → Type 0

module _ {T : Type 0} (b : Broadcast T) where
  open b use {Sender, Receiver, channel, subscribe, send, recv, capacity, Waiting}

  -- A poll returns the first value that waits.
  pub record Gives (s : Sender) (r : Receiver) (p : T) (ps : List T) : Type 0 where
    pub next : Receiver
    pub given : recv r s ≡ value p next
    pub behind : Waiting s next ps

  -- The documented behaviour.
  pub record IsBroadcast : Type 0 where
    pub holds_one : capacity (channel 1) ≡ 1
    pub capacity-send : (p : T) (s : Sender) → capacity (send p s) ≡ capacity s
    pub subscribed : (s : Sender) → Waiting s (subscribe s) []
    pub sent :
        (p : T) (s : Sender) (r : Receiver) (ps : List T)
        → Waiting s r ps
        → Waiting (send p s) r (ps ++ (p ∷ []))
    pub idle : (s : Sender) (r : Receiver) → Waiting s r [] → recv r s ≡ pending
    pub first :
        (s : Sender) (r : Receiver) (p : T) (ps : List T)
        → Waiting s r (p ∷ ps)
        → length (p ∷ ps) ≤ capacity s
        → Gives s r p ps
    pub lags :
        (s : Sender) (r : Receiver) (ps : List T)
        → Waiting s r ps
        → capacity s < length ps
        → (e : Str) × (recv r s ≡ lagged e)
