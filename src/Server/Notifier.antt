-- ===== src/Server/Notifier.antt =====
-- bin/lapas_api_server/src/api_services/notification.rs: the task that forwards notifications to a
-- client. tokio's broadcast channel is a parameter: what its `recv` returns, in order.
pub mod Order
pub mod Service
pub mod Prompt
pub mod Lost
use lapas.Prelude.{List, [], ◌∷◌, Outcome, Done, ok, err, panic}
use lapas.Proto.Packet.{LapasProtocol, control_ping}

module _ (DateTime : Type 0) where
  -- The branch that `select!` takes: a notification, or an error for a listener that lags behind the
  -- channel's one place; or the timer of one second.
  pub data Wake : Type 0 where
    notification : Outcome (LapasProtocol DateTime) → Wake
    timer : Wake

  -- A round of the loop, and how its `send` ends.
  pub record Round : Type 0 where
    pub wake : Wake
    pub send : Outcome (Unit {0})

  -- The packets that the client was sent, and how the task ended; `ok` is one that still runs.
  abbrev pub Forwarded : Type 0
  Forwarded = Done (List (LapasProtocol DateTime)) (Unit {0})

module _ {DateTime : Type 0} where
  abbrev pub sent_then :
      LapasProtocol DateTime → Outcome (Unit {0}) → Forwarded DateTime → Forwarded DateTime
  sent_then p (ok u) rest = record rest { after = p ∷ rest.after }
  sent_then p (err e) rest = record { after = []; result = err e }
  sent_then p panic rest = record { after = []; result = panic }

  abbrev pub on_wake : Wake DateTime → Outcome (Unit {0}) → Forwarded DateTime → Forwarded DateTime
  on_wake (notification (ok p)) send rest = sent_then p send rest
  on_wake (notification (err e)) send rest = record { after = []; result = err e }
  on_wake (notification panic) send rest = record { after = []; result = panic }
  on_wake timer send rest = sent_then control_ping send rest

  unfoldable pub forward_notifications : List (Round DateTime) → Forwarded DateTime
  forward_notifications [] = record { after = []; result = ok tt }
  forward_notifications (r ∷ rs) = on_wake r.wake r.send (forward_notifications rs)
