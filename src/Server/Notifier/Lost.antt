-- ===== src/Server/Notifier/Lost.antt =====
-- A listener that two notifications overtake.
use lapas.Prelude.{◌≡◌, ◌∙◌, refl, List, [], ◌∷◌, ◌++◌, none, Outcome, arith}
use lapas.Proto.Packet.{LapasProtocol}
use lapas.Server.Broadcast.{Broadcast, IsBroadcast}
use lapas.Server.Notifier.{forward_notifications}
use lapas.Server.Notifier.Service.{
  Event, notified, polled, NotificationService, new, send, rounds, add,
}
use lapas.Server.Notifier.Prompt.{IsPrompt, IsTold, HasFailed, notifications, add_prompt}

module _ {D : Type 0} (broadcast : Broadcast (LapasProtocol D)) (laws : IsBroadcast broadcast) where
  overtaken :
      (p q : LapasProtocol D) (sends : Outcome (Unit {0})) (es : List (Event D))
      (service : NotificationService broadcast) (r : broadcast.Receiver)
      → broadcast.capacity service.notifier ≡ 1
      → broadcast.Waiting service.notifier r []
      → IsTold HasFailed [] (
          forward_notifications
            (rounds broadcast (notified p ∷ notified q ∷ polled sends ∷ es) service r))
  unfolding rounds send forward_notifications
  overtaken p q sends es service r one up =
      let s = service.notifier in
      let w : broadcast.Waiting (broadcast.send q (broadcast.send p s)) r (p ∷ q ∷ []) =
        laws.sent q (broadcast.send p s) r (p ∷ []) (laws.sent p s r [] up) in
      let cap : broadcast.capacity (broadcast.send q (broadcast.send p s)) ≡ 1 =
        laws.capacity-send q (broadcast.send p s) ∙ laws.capacity-send p s ∙ one in
      let (e, lag) =
        laws.lags (broadcast.send q (broadcast.send p s)) r (p ∷ q ∷ []) w (rw cap (omega arith)) in
      rw lag (refl, (e, refl))

  -- With the documented behaviour of the channel: where two notifications come before the task of a
  -- client that has kept up is polled, the client is sent neither of them and nothing after, not even
  -- pings, whatever comes: its task has ended with an error.
  pub add-IsLost :
      (before : List (Event D)) (p q : LapasProtocol D) (sends : Outcome (Unit {0}))
      (es : List (Event D))
      → IsPrompt none before
      → IsTold HasFailed
          (notifications before)
          (add broadcast (new broadcast) (before ++ (notified p ∷ notified q ∷ polled sends ∷ es)))
  add-IsLost before p q sends es k =
      add_prompt broadcast laws HasFailed (notified p ∷ notified q ∷ polled sends ∷ es) before
        (overtaken p q sends es) k
