-- ===== src/Server/Notifier/Prompt.antt =====
-- A listener whose task keeps up with the notifications.
use lapas.Prelude.{
  ◌≡◌, ◌∙◌, refl, List, [], ◌∷◌, ◌++◌, filter, Outcome, ok, err, arith, Bool-cases, inl, inr,
  Option, none, some, append-nil,
}
use lapas.Prelude.Text.{Str}
use lapas.Proto.Packet.{LapasProtocol}
use lapas.Server.Broadcast.{Broadcast, IsBroadcast}
use lapas.Server.Notifier.{Forwarded, sent_then, forward_notifications}
use lapas.Server.Notifier.Order.{is_event}
use lapas.Server.Notifier.Service.{
  Event, notified, polled, ticked, NotificationService, new, send, rounds, add,
}

module _ {D : Type 0} where
  -- The notifications, in order.
  abbrev pub notifications : List (Event D) → List (LapasProtocol D)
  notifications [] = []
  notifications (notified p ∷ es) = p ∷ notifications es
  notifications (polled sends ∷ es) = notifications es
  notifications (ticked sends ∷ es) = notifications es

  abbrev pub waiting : Option (LapasProtocol D) → List (LapasProtocol D)
  waiting none = []
  waiting (some p) = p ∷ []

  -- With this notification waiting: no write fails, and the task is polled between any two
  -- notifications and after the last.
  abbrev pub IsPrompt : Option (LapasProtocol D) → List (Event D) → Type 0
  IsPrompt none [] = Unit
  IsPrompt (some p) [] = ⊥
  IsPrompt none (notified p ∷ es) = IsPrompt (some p) es
  IsPrompt (some q) (notified p ∷ es) = ⊥
  IsPrompt w (polled sends ∷ es) = (sends ≡ ok tt) × IsPrompt none es
  IsPrompt w (ticked sends ∷ es) = (sends ≡ ok tt) × IsPrompt w es

module _ {D : Type 0} (Q : Outcome (Unit {0}) → Type 0) where
  -- The client is sent these notifications, and pings; the task has ended or runs on as `Q` says.
  abbrev pub IsTold : List (LapasProtocol D) → Forwarded D → Type 0
  IsTold ps f = (filter is_event f.after ≡ filter is_event ps) × Q f.result

  onto-IsTold :
      (p : LapasProtocol D) (ps : List (LapasProtocol D)) (f : Forwarded D)
      → IsTold ps f
      → IsTold (p ∷ ps) (sent_then p (ok tt) f)
  onto-IsTold p ps f (e, r) = elim (Bool-cases (is_event p)) [
    | inl q ↦ (rw (q, e), r)
    | inr q ↦ (rw (q, e), r)
  ]

abbrev pub RunsOn : Outcome (Unit {0}) → Type 0
RunsOn r = r ≡ ok tt

abbrev pub HasFailed : Outcome (Unit {0}) → Type 0
HasFailed r = (e : Str) × (r ≡ err e)

module _ {D : Type 0} (broadcast : Broadcast (LapasProtocol D)) (laws : IsBroadcast broadcast) where
  -- What happens to the task of a client that is up to date.
  abbrev UpToDate : (Outcome (Unit {0}) → Type 0) → List (Event D) → Type 0
  UpToDate Q tail =
      (service : NotificationService broadcast) (r : broadcast.Receiver)
      → broadcast.capacity service.notifier ≡ 1
      → broadcast.Waiting service.notifier r []
      → IsTold Q [] (forward_notifications (rounds broadcast tail service r))

  given-IsTold :
      (Q : Outcome (Unit {0}) → Type 0) (service : NotificationService broadcast)
      (r : broadcast.Receiver) (p : LapasProtocol D) (ps : List (LapasProtocol D))
      (sends : Outcome (Unit {0})) (es : List (Event D))
      → broadcast.capacity service.notifier ≡ 1
      → broadcast.Waiting service.notifier r (p ∷ [])
      → sends ≡ ok tt
      → ((next : broadcast.Receiver)
          → broadcast.Waiting service.notifier next []
          → IsTold Q ps (forward_notifications (rounds broadcast es service next)))
      → IsTold Q (p ∷ ps) (forward_notifications (rounds broadcast (polled sends ∷ es) service r))
  unfolding rounds forward_notifications
  given-IsTold Q service r p ps sends es one w e told =
      let g = laws.first service.notifier r p [] w (rw one (omega arith)) in
      rw (g.given, e)
        (onto-IsTold Q p ps (forward_notifications (rounds broadcast es service g.next))
          (told g.next g.behind))

  rounds-IsTold :
      (Q : Outcome (Unit {0}) → Type 0) (tail : List (Event D))
      → UpToDate Q tail
      → (service : NotificationService broadcast) (r : broadcast.Receiver)
        (w : Option (LapasProtocol D)) (es : List (Event D))
      → broadcast.capacity service.notifier ≡ 1
      → broadcast.Waiting service.notifier r (waiting w)
      → IsPrompt w es
      → IsTold Q
          (waiting w ++ notifications es)
          (forward_notifications (rounds broadcast (es ++ tail) service r))
  unfolding rounds send forward_notifications
  rounds-IsTold Q tail u service r none [] one h k = u service r one h
  rounds-IsTold Q tail u service r (some p) [] one h k = absurd k
  rounds-IsTold Q tail u service r none (notified p ∷ es) one h k =
      rounds-IsTold Q tail u (send broadcast p service) r (some p) es
        (laws.capacity-send p service.notifier ∙ one) (laws.sent p service.notifier r [] h) k
  rounds-IsTold Q tail u service r (some q) (notified p ∷ es) one h k = absurd k
  rounds-IsTold Q tail u service r none (polled sends ∷ es) one h (e, k) =
      rw (laws.idle service.notifier r h) (rounds-IsTold Q tail u service r none es one h k)
  rounds-IsTold Q tail u service r (some p) (polled sends ∷ es) one h (e, k) =
      given-IsTold Q service r p (notifications es) sends (es ++ tail) one h e
        (λ next behind. rounds-IsTold Q tail u service next none es one behind k)
  rounds-IsTold Q tail u service r none (ticked sends ∷ es) one h (e, k) =
      rw e (rounds-IsTold Q tail u service r none es one h k)
  rounds-IsTold Q tail u service r (some p) (ticked sends ∷ es) one h (e, k) =
      rw e (rounds-IsTold Q tail u service r (some p) es one h k)

  -- The same from the start of the task.
  pub add_prompt :
      (Q : Outcome (Unit {0}) → Type 0) (tail es : List (Event D))
      → UpToDate Q tail
      → IsPrompt none es
      → IsTold Q (notifications es) (add broadcast (new broadcast) (es ++ tail))
  unfolding add
  add_prompt Q tail es u k =
      rounds-IsTold Q tail u (new broadcast) (broadcast.subscribe (new broadcast).notifier) none es
        laws.holds_one (laws.subscribed (new broadcast).notifier) k

  -- With the documented behaviour of the channel: a client whose task is polled between any two
  -- notifications, and whose stream takes what is written, is sent exactly the notifications since its
  -- `add`, in order, with pings between them, and its task runs on.
  pub add-IsTold :
      (es : List (Event D))
      → IsPrompt none es
      → IsTold RunsOn (notifications es) (add broadcast (new broadcast) es)
  add-IsTold es k = rw (append-nil es) at (add_prompt RunsOn [] es up_to_date k)
    where
      up_to_date : UpToDate RunsOn []
      up_to_date service r one h = unfold rounds forward_notifications in (refl, refl)
