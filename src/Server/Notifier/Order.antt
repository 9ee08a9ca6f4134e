-- ===== src/Server/Notifier/Order.antt =====
-- The notifications that a client is sent, against those that the channel gave to its task.
use lapas.Prelude.{
  ◌≡◌, refl, Bool, true, false, List, [], ◌∷◌, ◌++◌, filter, Outcome, ok, err, panic, Bool-cases,
  inl, inr,
}
use lapas.Proto.Packet.{LapasProtocol, control_ping}
use lapas.Server.Notifier.{
  Wake, notification, timer, Round, Forwarded, on_wake, forward_notifications,
}

module _ {D : Type 0} where
  abbrev pub is_event : LapasProtocol D → Bool
  is_event control_ping = false
  is_event _ = true

  abbrev told_by : Wake D → List (LapasProtocol D)
  told_by (notification (ok p)) = p ∷ []
  told_by _ = []

  -- What `recv` returned, in order.
  abbrev pub told : List (Round D) → List (LapasProtocol D)
  told [] = []
  told (r ∷ rs) = told_by r.wake ++ told rs

  -- A task that still runs owes its client nothing.
  abbrev pub Owes : Outcome (Unit {0}) → List (LapasProtocol D) → Type 0
  Owes (ok u) missed = missed ≡ []
  Owes (err e) missed = Unit
  Owes panic missed = Unit

  -- These notifications were sent in order, but for some of the last.
  abbrev pub IsPrefix : List (LapasProtocol D) → Forwarded D → Type 0
  IsPrefix told f =
      (missed : List (LapasProtocol D)) × (filter is_event told ≡ filter is_event f.after ++ missed)
      × Owes f.result missed

  onto-IsPrefix :
      (p : LapasProtocol D) (ts : List (LapasProtocol D)) (f : Forwarded D)
      → IsPrefix ts f
      → IsPrefix (p ∷ ts) (record f { after = p ∷ f.after })
  onto-IsPrefix p ts f (missed, e, o) = elim (Bool-cases (is_event p)) [
    | inl q ↦ (missed, rw (q, e), o)
    | inr q ↦ (missed, rw (q, e), o)
  ]

  on_wake-IsPrefix :
      (w : Wake D) (send : Outcome (Unit {0})) (ts : List (LapasProtocol D)) (f : Forwarded D)
      → IsPrefix ts f
      → IsPrefix (told_by w ++ ts) (on_wake w send f)
  on_wake-IsPrefix (notification (ok p)) (ok u) ts f h = onto-IsPrefix p ts f h
  on_wake-IsPrefix (notification (ok p)) (err e) ts f h = (_, refl, tt)
  on_wake-IsPrefix (notification (ok p)) panic ts f h = (_, refl, tt)
  on_wake-IsPrefix (notification (err e)) send ts f h = (_, refl, tt)
  on_wake-IsPrefix (notification panic) send ts f h = (_, refl, tt)
  on_wake-IsPrefix timer (ok u) ts f h = h
  on_wake-IsPrefix timer (err e) ts f h = (_, refl, tt)
  on_wake-IsPrefix timer panic ts f h = (_, refl, tt)

  -- Whatever fails: the packets that a client is sent, less the pings, are the notifications that the
  -- task was given, in order and each once, up to where the task ends; one that still runs has sent
  -- all of them.
  pub forward_notifications-IsPrefix :
      (rs : List (Round D)) → IsPrefix (told rs) (forward_notifications rs)
  unfolding forward_notifications
  forward_notifications-IsPrefix [] = ([], refl, refl)
  forward_notifications-IsPrefix (r ∷ rs) =
      on_wake-IsPrefix r.wake r.send (told rs) (forward_notifications rs)
        (forward_notifications-IsPrefix rs)
