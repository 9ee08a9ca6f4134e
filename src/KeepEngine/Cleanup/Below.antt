-- ===== src/KeepEngine/Cleanup/Below.antt =====
-- Which files the rules keep, and that a folder which is not descended into holds files of one kind.
use lapas.Prelude.{
  ok, >>=-eq-ok, ◌≡◌, ◌∙◌, inl, inr, Bool, true, false, not, Bool-cases, List, [], ◌∷◌, some, arith,
  All,
}
use lapas.Prelude.Text.{Str}
use lapas.Prelude.Text.Utf8.{is_utf8}
use lapas.KeepEngine.Actions.{FileAction, delete, keep, ActionResult}
use lapas.KeepEngine.Nodes.{RegexCrate}
use lapas.KeepEngine.Graph.{DecisionGraph, decide_path}
use lapas.KeepEngine.Descend.{decide_path_below}
use lapas.KeepEngine.Cleanup.{CliArgs, FileSystem, Entries, action_of, is_delete, verdict}
use lapas.KeepEngine.Cleanup.Files.{IsUnder, files_all, files_all-IsUnder}

module _ (crate : RegexCrate) (args : CliArgs) (graph : DecisionGraph crate.Regex) where
  -- The decision on a file's path is to keep it, in the mode of the run.
  unfoldable pub keeps : Str → Bool
  keeps path = elim (decide_path crate graph path) [
    | ok r ↦ not (is_delete (action_of args.mode r.actions))
    | _ ↦ false
  ]

  pub keeps_decided :
      (path : Str) (r : ActionResult)
      → decide_path crate graph path ≡ ok r
      → keeps path ≡ not (is_delete (action_of args.mode r.actions))
  unfolding keeps
  keeps_decided path r e = rw (e, keeps)

  keeps_unreadable : (path : Str) → is_utf8 path ≡ false → keeps path ≡ false
  unfolding keeps decide_path
  keeps_unreadable path u = rw (u, keeps)

  keeps_under :
      (p f : Str) (r : ActionResult)
      → decide_path crate graph p ≡ ok r
      → r.descend ≡ false
      → is_utf8 f ≡ true
      → IsUnder p f
      → keeps f ≡ not (is_delete (action_of args.mode r.actions))
  keeps_under p f r e d u (more, k) =
      let (s, g, h) = decide_path_below crate graph p more r e d (rw k at u) in
      rw (k, keeps_decided _ s g, h)

  module _ (fs : FileSystem) where
    pub verdict_parts :
        (p : Str) (d : Bool) (act : FileAction)
        → verdict crate args graph fs p ≡ ok (d, act)
        → (r : ActionResult) × (decide_path crate graph p ≡ ok r)
          × (r.descend ≡ d)
          × (action_of args.mode r.actions ≡ act)
    unfolding verdict
    verdict_parts p d act e =
        let (r, e1, e2) = >>=-eq-ok (decide_path crate graph p) _ e in
        let (_, _, e3) = >>=-eq-ok (fs.file_type p) _ e2 in (r, e1, ground arith, ground arith)

    deletes_under :
        (p f : Str)
        → verdict crate args graph fs p ≡ ok (false, delete)
        → IsUnder p f
        → keeps f ≡ false
    deletes_under p f e h = elim (Bool-cases (is_utf8 f)) [
      | inl u ↦
          let (r, g, d, a) = verdict_parts p false delete e in keeps_under p f r g d u h ∙ rw a
      | inr u ↦ keeps_unreadable f u
    ]

    All-under : (P Q : Str → Type 0) (xs : List Str) → ((x : Str) → P x → Q x) → All P xs → All Q xs
    All-under P Q [] f h = tt
    All-under P Q (x ∷ xs) f (h, hs) = (f x h, All-under P Q xs f hs)

    -- No file below a folder that is removed as a whole is to be kept.
    pub deletes_whole :
        (es : Entries) (p : Str)
        → verdict crate args graph fs p ≡ ok (false, delete)
        → All (λ f. keeps f ≡ false) (files_all es (some p))
    deletes_whole es p e =
        All-under (IsUnder p) _ (files_all es (some p)) (λ f h. deletes_under p f e h)
          (files_all-IsUnder es p)

    keeps_each :
        (xs : List Str) (p : Str)
        → verdict crate args graph fs p ≡ ok (false, keep)
        → All (λ f. is_utf8 f ≡ true) xs
        → All (IsUnder p) xs
        → All (λ f. keeps f ≡ true) xs
    keeps_each [] p e u h = tt
    keeps_each (f ∷ xs) p e (u, us) (h, hs) =
        let (r, g, d, a) = verdict_parts p false keep e in
        (keeps_under p f r g d u h ∙ rw a, keeps_each xs p e us hs)

    -- Every file below a folder that is kept as a whole is to be kept.
    pub keeps_whole :
        (es : Entries) (p : Str)
        → verdict crate args graph fs p ≡ ok (false, keep)
        → All (λ f. is_utf8 f ≡ true) (files_all es (some p))
        → All (λ f. keeps f ≡ true) (files_all es (some p))
    keeps_whole es p e u = keeps_each (files_all es (some p)) p e u (files_all-IsUnder es p)
