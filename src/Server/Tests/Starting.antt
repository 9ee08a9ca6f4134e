-- ===== src/Server/Tests/Starting.antt =====
-- A server that is started, serves a client, and is started again.
use lapas.Prelude.{◌≡◌, refl, true, none, [], ◌∷◌, ◌++◌, ok}
use lapas.Prelude.Text.{Str, codes, str_eq, starts_with, ends_with, lines, split, splitn}
use lapas.Prelude.Text.Utf8.{is_utf8}
use lapas.Proto.Packet.{control_handshake}
use lapas.Server.Users.{new, read_user_index}
use lapas.Server.State.{Config, config_get, push_path}
use lapas.Server.Session.{handle_handshake, answer_handshake, round}
use lapas.Server.Config.{Disk, init, read_lines, read_line, insert_parts, unquoted, new_dns}
use lapas.Server.System as System
use lapas.Server.System.{System, serving, moved, greets, asks, Reach, start, later}
use lapas.Server.System.Durable.{Undisturbed, Keeping}
use lapas.Server.System.Announced.{IsAnnounced, Reach-IsAnnounced}
use lapas.Server.Main.{listening, main}
use lapas.Server.Main.Restarted.{user_index_path, left_by, main_restarted}
use lapas.Server.Tests.Texts.{crates, crates-ReadsBack, crates-HasText}
use lapas.Server.Tests.{hashed, session, turn, peer, register}

abbrev config_text : Str
config_text =
    codes "# LAPAS"
    ++ (10 ∷ codes "LAPAS_USERHOMES_DIR=\"/homes\""
        ++ (10 ∷ codes "LAPAS_NET_DOMAIN=lan"
            ++ (10 ∷ codes "LAPAS_DNS_HOSTMAPPINGS_DIR=\"/hosts\""
                ++ (10 ∷ codes "LAPAS_PASSWORD_SALT=salt"
                    ++ (10 ∷ codes "LAPAS_PASSWORD_HASH=saltadmin")))))

abbrev config : Config
config =
    (codes "LAPAS_PASSWORD_HASH", codes "saltadmin")
    ∷ (codes "LAPAS_PASSWORD_SALT", codes "salt")
    ∷ (codes "LAPAS_DNS_HOSTMAPPINGS_DIR", codes "/hosts")
    ∷ (codes "LAPAS_NET_DOMAIN", codes "lan")
    ∷ (codes "LAPAS_USERHOMES_DIR", codes "/homes")
    ∷ []

abbrev disk : Disk
disk = record {
  config_file = ok config_text;
  user_index = λ path. ok none;
  hosts_exists = true;
  create_dir_all = ok tt;
  hosts_is_dir = true;
}

abbrev started : System (Unit {0})
started = listening (record session.state { config = config; config_text = config_text })

disk-Starts : main crates disk [] (ok tt) ≡ ok started
unfolding main init read_lines read_line insert_parts unquoted new_dns config_get push_path new
    read_user_index starts_with ends_with lines split splitn is_utf8 str_eq
disk-Starts = refl

abbrev greeted : System (Unit {0})
greeted =
    moved crates hashed started 1
      (handle_handshake (turn (control_handshake 6)) (System.session crates hashed started 1))

abbrev served : System (Unit {0})
served =
    moved crates hashed greeted 1
      (round crates hashed peer (register (codes "admin")) (System.session crates hashed greeted 1))

greeted-Serves : greeted.phase 1 ≡ serving
unfolding handle_handshake answer_handshake
greeted-Serves = refl

visit : Reach crates hashed started 2 served
visit =
    later (later start (greets 1 (turn (control_handshake 6)) refl) refl)
      (asks peer (register (codes "admin")) greeted-Serves) refl

visit-Undisturbed : Undisturbed crates hashed visit
unfolding visit
visit-Undisturbed = ((refl, refl, refl, refl), (tt, tt))

visit-Keeping : Keeping crates hashed visit
unfolding visit
visit-Keeping = ((refl, λ a n e. cc), (tt, tt))

started-Path : user_index_path started.state.config ≡ ok (codes "/homes/USER_INDEX")
unfolding user_index_path config_get push_path starts_with ends_with str_eq
started-Path = refl

main_restarted_example :
    main crates (left_by (codes "/homes/USER_INDEX") served.state disk) served.state.hosts (ok tt)
    ≡ ok (listening (record served.state { notified = []; listeners = [] }))
main_restarted_example =
    main_restarted crates hashed crates-ReadsBack crates-HasText disk [] started served 2
      (codes "/homes/USER_INDEX") disk-Starts started-Path visit visit-Undisturbed visit-Keeping

Reach-IsAnnounced_example : IsAnnounced started.state served.state
Reach-IsAnnounced_example = Reach-IsAnnounced crates hashed crates-HasText visit visit-Undisturbed
