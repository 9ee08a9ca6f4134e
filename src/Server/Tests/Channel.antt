-- ===== src/Server/Tests/Channel.antt =====
-- The theorems on the notifications of a client, with a list of all values in place of tokio's channel.
use lapas.Prelude.{
  ℕ, ◌≡◌, ◌∙◌, refl, ap, sym, List, [], ◌∷◌, ◌++◌, length, ok, arith, append_assoc, ltb,
  if◌then◌else◌, false, true, append-nil,
}
use lapas.Prelude.Text.{codes}
use lapas.Proto.Packet.{notify_users_changed, notify_root_changed, notify_dns_mappings_changed}
use lapas.Server.Broadcast.{Polled, pending, value, lagged, Broadcast, IsBroadcast}
use lapas.Server.Notifier.Service.{Event, notified, polled, ticked, new, add}
use lapas.Server.Notifier.Prompt.{IsTold, RunsOn, HasFailed, add-IsTold}
use lapas.Server.Notifier.Lost.{add-IsLost}

module _ {A : Type 0} where
  -- The values of `sent` behind those of `seen`.
  abbrev unseen : List A → List A → List A
  unseen [] sent = sent
  unseen (q ∷ seen) [] = []
  unseen (q ∷ seen) (p ∷ sent) = unseen seen sent

  unseen-append : (seen ps : List A) → unseen seen (seen ++ ps) ≡ ps
  unseen-append [] ps = refl
  unseen-append (q ∷ seen) ps = unseen-append seen ps

  abbrev poll : List A → List A → Polled A (List A)
  poll seen [] = pending
  poll seen (p ∷ ps) = value p (seen ++ (p ∷ []))

  abbrev receive : List A → ℕ × List A → Polled A (List A)
  receive seen (size, sent) =
      let ps = unseen seen sent in
      if ltb size (length ps) then lagged (codes "lagged") else poll seen ps

  -- A channel of this size that has been sent these values; a receiver has seen the first of them.
  abbrev pub tape : Broadcast A
  tape = record {
    Sender = ℕ × List A;
    Receiver = List A;
    channel = λ n. (n, []);
    subscribe = λ (n, sent). sent;
    send = λ p (n, sent). (n, sent ++ (p ∷ []));
    recv = receive;
    capacity = λ (n, sent). n;
    Waiting = λ (n, sent) seen ps. sent ≡ seen ++ ps;
  }

  module _ (n : ℕ) (sent seen ps : List A) (w : sent ≡ seen ++ ps) where
    receive-seen :
        receive seen (n, sent)
        ≡ (if ltb n (length ps) then lagged (codes "lagged") else poll seen ps)
    receive-seen = rw (w, unseen-append) refl

    receive_all : ltb n (length ps) ≡ false → receive seen (n, sent) ≡ poll seen ps
    receive_all l = receive-seen ∙ rw l refl

    receive_late : ltb n (length ps) ≡ true → receive seen (n, sent) ≡ lagged (codes "lagged")
    receive_late l = receive-seen ∙ rw l refl

  pub tape-IsBroadcast : IsBroadcast tape
  tape-IsBroadcast = record {
    holds_one = refl;
    capacity-send = λ p s. refl;
    subscribed = λ (n, sent). sym (append-nil sent);
    sent = λ p (n, sent) seen ps w. ap (λ xs. xs ++ (p ∷ [])) w ∙ append_assoc seen ps (p ∷ []);
    idle = λ (n, sent) seen w. receive_all n sent seen [] w (ground arith);
    first = λ (n, sent) seen p ps w l. record {
      next = seen ++ (p ∷ []);
      given = receive_all n sent seen (p ∷ ps) w (ground arith);
      behind = w ∙ sym (append_assoc seen (p ∷ []) ps);
    };
    lags = λ (n, sent) seen ps w l. (codes "lagged", receive_late n sent seen ps w (ground arith));
  }

-- A notification, a ping, and two notifications with a poll between them and after them.
abbrev in_time : List (Event (Unit {0}))
in_time =
    notified notify_users_changed
    ∷ polled (ok tt)
    ∷ ticked (ok tt)
    ∷ notified notify_root_changed
    ∷ polled (ok tt)
    ∷ []

add-IsTold_example :
    IsTold RunsOn (notify_users_changed ∷ notify_root_changed ∷ []) (add tape (new tape) in_time)
add-IsTold_example = add-IsTold tape tape-IsBroadcast in_time (refl, (refl, (refl, tt)))

add-IsLost_example : IsTold HasFailed (notify_users_changed ∷ notify_root_changed ∷ []) (
    add tape (new tape) (
      in_time
      ++ (notified notify_users_changed
          ∷ notified notify_dns_mappings_changed
          ∷ polled (ok tt)
          ∷ in_time)))
add-IsLost_example =
    add-IsLost tape tape-IsBroadcast in_time notify_users_changed notify_dns_mappings_changed
      (ok tt) in_time (refl, (refl, (refl, tt)))
