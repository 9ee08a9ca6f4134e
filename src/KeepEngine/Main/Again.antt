-- ===== src/KeepEngine/Main/Again.antt =====
-- A second run of the program on what the first has left.
use lapas.Prelude.{
  ◌≡◌, ◌∙◌, refl, ap, Bool, true, false, Bool-cases, inl, inr, none, some, List, [], ◌∷◌, filter,
  ok,
}
use lapas.Prelude.Text.{Str, lines}
use lapas.KeepEngine.Nodes.{RegexCrate}
use lapas.KeepEngine.Graph.{DecisionGraph, parse_rules}
use lapas.KeepEngine.LastMatch.ParseRules.{rules_of, AllStarsLast}
use lapas.KeepEngine.Cleanup.{CliArgs, Entries, FileSystem}
use lapas.KeepEngine.Cleanup.Files.{files_all}
use lapas.KeepEngine.Cleanup.Complete.{Permits, AllReadable}
use lapas.KeepEngine.Cleanup.Readable.{traverse-AllReadable}
use lapas.KeepEngine.Main.{main, after_rules, apply_keep, rules_keep, main_exact}

filter_again : {A : Type 0} (p : A → Bool) (xs : List A) → filter p (filter p xs) ≡ filter p xs
filter_again p [] = refl
filter_again p (x ∷ xs) = elim (Bool-cases (p x)) [
  | inl e ↦ rw (e, e) (ap (◌∷◌ x) (filter_again p xs))
  | inr e ↦ rw e (filter_again p xs)
]

module _ (crate : RegexCrate) (args : CliArgs) (fs : FileSystem) where
  main-AllReadable :
      (content : Str) (graph : DecisionGraph crate.Regex) (es : Entries)
      → parse_rules crate (some content) ≡ ok graph
      → AllReadable es none
      → AllReadable (main crate args fs (some content) true es).left none
  unfolding main after_rules apply_keep
  main-AllReadable content graph es e u = rw e (traverse-AllReadable crate args graph fs es none u)

  -- On a real run of the whole program, where no call of the operating system fails, every path is
  -- UTF-8 and the .keep file is read without an error and has `**` only as the last segment of a rule:
  -- a second run with the same .keep file, on what the first has left, ends well too and leaves the
  -- same files.
  pub main_again :
      (content : Str) (graph : DecisionGraph crate.Regex) (es : Entries)
      → Permits fs
      → args.dryrun ≡ false
      → AllStarsLast (rules_of (lines content))
      → parse_rules crate (some content) ≡ ok graph
      → AllReadable es none
      → let first = main crate args fs (some content) true es in
        let second = main crate args fs (some content) true first.left in
        (second.ended ≡ ok tt) × (files_all second.left none ≡ files_all first.left none)
  main_again content graph es permits real w e u =
      let first = main crate args fs (some content) true es in
      let (well, kept) = main_exact crate args fs content graph es permits real w e u in
      let (well_again, kept_again) =
        main_exact crate args fs content graph first.left permits real w e
          (main-AllReadable content graph es e u) in
      (
        well_again,
        kept_again ∙ rw kept (filter_again (rules_keep crate args fs content) (files_all es none)),
      )
