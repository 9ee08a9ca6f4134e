-- ===== src/KeepEngine/Tests/Walks.antt =====
-- The theorems on the cleanup at a concrete folder.
use lapas.KeepEngine.Main.Again.{main_again}
use lapas.Prelude.{ok, err, ◌≡◌, refl, true, false, none, some, [], ◌∷◌, filter}
use lapas.Prelude.Text.{codes}
use lapas.Prelude.Text.Utf8.{is_utf8}
use lapas.KeepEngine.Cleanup.{
  CliArgs, base, Entries, empty, entry, file, folder, FileSystem, traverse, open_folder, walk_all,
  go_on, visit_folder, verdict, visit_file, remains,
}
use lapas.KeepEngine.Cleanup.Files.{files_all}
use lapas.KeepEngine.Cleanup.Below.{keeps}
use lapas.KeepEngine.Cleanup.DryRun.{traverse_dry}
use lapas.KeepEngine.Cleanup.Safe.{traverse_safe}
use lapas.KeepEngine.Cleanup.Complete.{Permits, AllReadable}
use lapas.KeepEngine.Main.{main, rules_keep, main_exact}
use lapas.KeepEngine.Graph.{decide_path}
use lapas.KeepEngine.Tests.Globs.{globs}
use lapas.KeepEngine.Tests.Graphs.{content, graph, graph_lem, content-AllStarsLast}

abbrev home : Entries
home =
    entry (folder (codes "a") (entry (file (codes "bc")) (entry (file (codes "x")) empty)))
      (entry (file (codes "y")) (entry (folder (codes "d") (entry (file (codes "z")) empty)) empty))

abbrev willing : FileSystem
willing = record {
  read_dir = λ p. ok tt;
  file_type = λ p. ok tt;
  listed = λ p. true;
  remove_file = λ p. true;
  remove_dir = λ p. true;
  survives = λ p. false;
}

abbrev willing-Permits : Permits willing
willing-Permits = record {
  reads = λ p. refl;
  types = λ p. refl;
  lists = λ p. refl;
  unlinks = λ p. refl;
  removes = λ p. refl;
}

-- The second folder cannot be read.
abbrev failing : FileSystem
failing = record willing {
  remove_file = λ p. false;
  read_dir = λ p. elim p [ none ↦ ok tt | some q ↦ err [] ];
}

abbrev base_run : CliArgs
base_run = record { mode = base; dryrun = false; verbose = true }

home-AllReadable : AllReadable home none
unfolding AllReadable is_utf8
home-AllReadable = ((refl, (refl, (refl, tt))), (refl, ((refl, (refl, tt)), tt)))

traverse_dry_example :
    traverse globs (record base_run { dryrun = true }) graph willing home none
    ≡ record (traverse globs (record base_run { dryrun = false }) graph willing home none) {
      left = home;
    }
traverse_dry_example = traverse_dry globs base_run graph willing home none

traverse_safe_example :
    filter
      (keeps globs base_run graph)
      (files_all (traverse globs base_run graph failing home none).left none)
    ≡ filter (keeps globs base_run graph) (files_all home none)
traverse_safe_example = traverse_safe globs base_run graph failing home none

main_exact_example :
    ((main globs base_run willing (some content) true home).ended ≡ ok tt)
    × (files_all (main globs base_run willing (some content) true home).left none
        ≡ filter (rules_keep globs base_run willing content) (files_all home none))
main_exact_example =
    main_exact globs base_run willing content graph home willing-Permits refl content-AllStarsLast
      graph_lem home-AllReadable

main_again_example :
    let first = main globs base_run willing (some content) true home in
    let second = main globs base_run willing (some content) true first.left in
    (second.ended ≡ ok tt) × (files_all second.left none ≡ files_all first.left none)
main_again_example =
    main_again globs base_run willing content graph home willing-Permits refl content-AllStarsLast
      graph_lem home-AllReadable

-- In the base layer the rules of `content` leave one file.
base_run_leaves :
    files_all (traverse globs base_run graph willing home none).left none ≡ codes "a/bc" ∷ []
unfolding traverse graph globs decide_path files_all open_folder walk_all go_on visit_folder verdict
    visit_file remains
base_run_leaves = refl
