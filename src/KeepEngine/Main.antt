-- ===== src/KeepEngine/Main.antt =====
-- bin/keepEngine/src/main.rs: `main`, from the .keep file to the cleaned folder.
pub mod Again
use lapas.Prelude.{
  Outcome, ok, err, panic, unwrap, ◌≡◌, refl, ◌∙◌, Bool, true, false, not, Option, none, some, List,
  [], ◌∷◌, ◌++◌, filter, All,
}
use lapas.Prelude.Text.{Str, split, lines}
use lapas.Prelude.Text.Utf8.{is_utf8}
use lapas.KeepEngine.Actions.{ActionResult}
use lapas.KeepEngine.Nodes.{RegexCrate}
use lapas.KeepEngine.Graph.{DecisionGraph, parse_rules, decide_path, undecided}
use lapas.KeepEngine.LastMatch.ParseRules.{
  rules_of, keep_rule, AllStarsLast, last_match, default_actions, decide_path-parse_rules,
}
use lapas.KeepEngine.Cleanup.{CliArgs, Entries, FileSystem, Removal, action_of, is_delete, traverse}
use lapas.KeepEngine.Cleanup.Files.{files_all}
use lapas.KeepEngine.Cleanup.Below.{keeps, keeps_decided}
use lapas.KeepEngine.Cleanup.Complete.{Permits, AllReadable, AllReadable-All, traverse_exact}

-- What a run leaves in the folder, prints, and how it ends.
pub record Run : Type 0 where
  pub left : Entries
  pub log : List Removal
  pub ended : Outcome (Unit {0})

-- `let _ = traverse(…)`: an error is dropped, a panic is not.
abbrev pub dropped : Outcome Bool → Outcome (Unit {0})
dropped (ok b) = ok tt
dropped (err e) = ok tt
dropped panic = panic

module _ (crate : RegexCrate) (args : CliArgs) (fs : FileSystem) where
  -- `is_dir` is the answer of `args.folder.is_dir()`.
  unfoldable pub apply_keep : DecisionGraph crate.Regex → Bool → Entries → Run
  apply_keep graph false es = record { left = es; log = []; ended = panic }
  apply_keep graph true es =
      let w = traverse crate args graph fs es none in
      record { left = w.left; log = w.log; ended = dropped w.result }

  unfoldable pub after_rules : Outcome (DecisionGraph crate.Regex) → Bool → Entries → Run
  after_rules (ok graph) is_dir es = apply_keep graph is_dir es
  after_rules (err e) is_dir es = record { left = es; log = []; ended = panic }
  after_rules panic is_dir es = record { left = es; log = []; ended = panic }

  unfoldable pub main : Option Str → Bool → Entries → Run
  main keep_file is_dir es = after_rules (unwrap (parse_rules crate keep_file)) is_dir es

  -- The last rule of the file that matches the path says keep, in the mode of the run.
  unfoldable pub rules_keep : Str → Str → Bool
  rules_keep content f =
      let path = split b'/' f in
      not (
        is_delete (
          action_of args.mode (
            last_match crate (rules_of (lines content) ++ (keep_rule ∷ [])) path
              (default_actions crate path undecided.actions))))

  keeps-rules_keep :
      (content : Str) (graph : DecisionGraph crate.Regex) (f : Str)
      → AllStarsLast (rules_of (lines content))
      → parse_rules crate (some content) ≡ ok graph
      → is_utf8 f ≡ true
      → keeps crate args graph f ≡ rules_keep content f
  unfolding rules_keep
  keeps-rules_keep content graph f w e u =
      let (r, g, h) = decide_path-parse_rules crate content graph f w e u in
      keeps_decided crate args graph f r g ∙ rw h

  filter-rules_keep :
      (content : Str) (graph : DecisionGraph crate.Regex) (fs : List Str)
      → AllStarsLast (rules_of (lines content))
      → parse_rules crate (some content) ≡ ok graph
      → All (λ f. is_utf8 f ≡ true) fs
      → filter (keeps crate args graph) fs ≡ filter (rules_keep content) fs
  filter-rules_keep content graph [] w e u = refl
  filter-rules_keep content graph (f ∷ fs) w e (u, us) =
      rw (keeps-rules_keep content graph f w e u, filter-rules_keep content graph fs w e us)

  decides :
      (content : Str) (graph : DecisionGraph crate.Regex)
      → AllStarsLast (rules_of (lines content))
      → parse_rules crate (some content) ≡ ok graph
      → (f : Str) → is_utf8 f ≡ true
      → (r : ActionResult) × (decide_path crate graph f ≡ ok r)
  decides content graph w e f u =
      let (r, g, h) = decide_path-parse_rules crate content graph f w e u in (r, g)

  -- The whole program, on a real run where the operating system does what it is asked, the paths
  -- are UTF-8, and the .keep file is read without an error and has `**` only as a last segment of
  -- a rule: it ends well, and the files left are those whose last matching rule says keep, in order.
  pub main_exact :
      (content : Str) (graph : DecisionGraph crate.Regex) (es : Entries)
      → Permits fs
      → args.dryrun ≡ false
      → AllStarsLast (rules_of (lines content))
      → parse_rules crate (some content) ≡ ok graph
      → AllReadable es none
      → ((main (some content) true es).ended ≡ ok tt)
        × (files_all (main (some content) true es).left none
            ≡ filter (rules_keep content) (files_all es none))
  unfolding main after_rules apply_keep
  main_exact content graph es permits real w e u =
      let (b, r, k) =
        traverse_exact crate args graph fs permits real (decides content graph w e) es none u in
      rw e (
        rw r,
        k ∙ filter-rules_keep content graph (files_all es none) w e (AllReadable-All es none u),
      )
