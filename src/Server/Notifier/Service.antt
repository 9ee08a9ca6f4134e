-- ===== src/Server/Notifier/Service.antt =====
-- bin/lapas_api_server/src/api_services/notification.rs: `NotificationService`, with the tasks of its
-- listeners on tokio's broadcast channel.
use lapas.Prelude.{List, [], ◌∷◌, Outcome, ok, err}
use lapas.Proto.Packet.{LapasProtocol}
use lapas.Server.Broadcast.{Broadcast, Polled, pending, value, lagged}
use lapas.Server.Notifier.{Round, notification, timer, Forwarded, forward_notifications}

-- What happens around the task of a listener: a notification is sent to the channel, the task is
-- polled, or its timer goes off first. The last two come with how the task's `send` would end.
pub data Event (DateTime : Type 0) : Type 0 where
  notified : LapasProtocol DateTime → Event DateTime
  polled ticked : Outcome (Unit {0}) → Event DateTime

module _ {DateTime : Type 0} (broadcast : Broadcast (LapasProtocol DateTime)) where
  open broadcast use {Sender, Receiver, channel, subscribe, recv}

  pub record NotificationService : Type 0 where
    pub notifier : Sender

  -- `NotificationService::new`.
  abbrev pub new : NotificationService
  new = record { notifier = channel 1 }

  -- `NotificationService::send`; that nobody listens is no error.
  unfoldable pub send : LapasProtocol DateTime → NotificationService → NotificationService
  send p service = record service { notifier = broadcast.send p service.notifier }

  -- The round of the task that a poll of `recv` completes, and the rounds behind it.
  abbrev pub on_recv :
      Polled (LapasProtocol DateTime) Receiver
      → Outcome (Unit {0})
      → Receiver
      → (Receiver → List (Round DateTime))
      → List (Round DateTime)
  on_recv pending sends r more = more r
  on_recv (value p next) sends r more =
      record { wake = notification (ok p); send = sends } ∷ more next
  on_recv (lagged e) sends r more = record { wake = notification (err e); send = sends } ∷ more r

  -- The rounds of a task that has subscribed.
  unfoldable pub rounds :
      List (Event DateTime) → NotificationService → Receiver → List (Round DateTime)
  unfolding send
  rounds [] service r = []
  rounds (notified p ∷ es) service r = rounds es (send p service) r
  rounds (polled sends ∷ es) service r =
      on_recv (recv r service.notifier) sends r (rounds es service)
  rounds (ticked sends ∷ es) service r = record { wake = timer; send = sends } ∷ rounds es service r

  -- `NotificationService::add`: the task that it spawns, through the events that follow.
  unfoldable pub add : NotificationService → List (Event DateTime) → Forwarded DateTime
  unfolding rounds forward_notifications
  add service es = forward_notifications (rounds es service (subscribe service.notifier))
