-- ===== src/Server/Tests/Files.antt =====
-- A configuration file, and the notifications of a client.
use lapas.Prelude.{◌≡◌, refl, List, [], ◌∷◌, All, map, ok, err, ◌>>=◌, arith}
use lapas.Prelude.Text.Laws.{text_of}
use lapas.Prelude.Text.{lines, Str, codes, str_eq, starts_with}
use lapas.Prelude.Text.Utf8.{is_utf8}
use lapas.Proto.Packet.{notify_users_changed, notify_root_changed}
use lapas.Server.State.{config_get}
use lapas.Server.Config.{read_lines}
use lapas.Server.Config.Reads.{assignment, IsAssignment, IsFree, config_get-read_lines}
use lapas.Server.Notifier.{Round, notification, timer, forward_notifications}
use lapas.Server.Notifier.Order.{told, IsPrefix, forward_notifications-IsPrefix}

abbrev domain : Str
domain = codes "NET_DOMAIN"

abbrev salt : Str × Str
salt = (codes "SALT", codes "a=b")

abbrev file : List (Str × Str)
file = (domain, codes "local") ∷ (domain, codes "lan") ∷ salt ∷ []

file-IsAssignment : All IsAssignment file
unfolding starts_with is_utf8
file-IsAssignment = (
  record { key = ground arith; comment = refl; text = refl; line = ground arith },
  (
    record { key = ground arith; comment = refl; text = refl; line = ground arith },
    (record { key = ground arith; comment = refl; text = refl; line = ground arith }, tt),
  ),
)

free : IsFree domain (salt ∷ [])
unfolding str_eq
free = (refl, tt)

config_get-read_lines_example :
    (read_lines [] (lines (text_of (map assignment file))) >>= config_get domain) ≡ ok (codes "lan")
config_get-read_lines_example =
    config_get-read_lines domain (codes "lan") ((domain, codes "local") ∷ []) (salt ∷ [])
      file-IsAssignment free

-- Two notifications and a ping are sent, and the third notification is not.
abbrev rounds : List (Round (Unit {0}))
rounds =
    record { wake = notification (ok notify_users_changed); send = ok tt }
    ∷ record { wake = timer; send = ok tt }
    ∷ record { wake = notification (ok notify_root_changed); send = ok tt }
    ∷ record { wake = notification (ok notify_users_changed); send = err (codes "closed") }
    ∷ []

forward_notifications-IsPrefix_example : IsPrefix (told rounds) (forward_notifications rounds)
forward_notifications-IsPrefix_example = forward_notifications-IsPrefix rounds
