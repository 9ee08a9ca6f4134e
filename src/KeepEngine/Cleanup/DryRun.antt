-- ===== src/KeepEngine/Cleanup/DryRun.antt =====
-- `--dryrun`: the walk of bin/keepEngine/src/main.rs prints and returns what the real walk does, and
-- leaves every entry in place.
use lapas.Prelude.{
  Outcome, ok, err, panic, ◌≡◌, refl, ap, ◌∙◌, Bool, true, false, ◌&&◌, Bool-cases, inl, inr,
  Option, some, arith,
}
use lapas.Prelude.Text.{Str}
use lapas.KeepEngine.Actions.{FileAction, delete, keep}
use lapas.KeepEngine.Nodes.{RegexCrate}
use lapas.KeepEngine.Graph.{DecisionGraph}
use lapas.KeepEngine.Cleanup.{
  CliArgs, Entry, file, folder, Entries, empty, entry, FileSystem, Walk, child_path, entry_path,
  only, verdict, visit_file, leave_folder, visit_folder, open_folder, go_on, visit, walk_all,
  traverse,
}

module _ (crate : RegexCrate) (args : CliArgs) (graph : DecisionGraph crate.Regex)
    (fs : FileSystem) where
  abbrev dry : CliArgs
  dry = record args { dryrun = true }

  abbrev real : CliArgs
  real = record args { dryrun = false }

  -- The dry walk keeps `es` and otherwise does what the real one does.
  abbrev Mirrors : Entries → Walk → Walk → Type 0
  Mirrors es d r = d ≡ record r { left = es }

  visit_file-Mirrors :
      (path : Str) (e : Entry) (v : Outcome (Bool × FileAction))
      → Mirrors
          (only e)
          (visit_file crate dry graph fs path e v)
          (visit_file crate real graph fs path e v)
  unfolding visit_file
  visit_file-Mirrors path e (err m) = refl
  visit_file-Mirrors path e panic = refl
  visit_file-Mirrors path e (ok (descend, delete)) = refl
  visit_file-Mirrors path e (ok (descend, keep)) = refl

  leave_folder-Mirrors :
      (path name : Str) (act : FileAction) (es : Entries) (d r : Walk) (o : Outcome Bool)
      → Mirrors es d r
      → Mirrors
          (only (folder name es))
          (leave_folder crate dry graph fs path name act d o)
          (leave_folder crate real graph fs path name act r o)
  unfolding leave_folder
  leave_folder-Mirrors path name act es d r (ok b) h = rw h (ground arith)
  leave_folder-Mirrors path name act es d r (err m) h = rw h
  leave_folder-Mirrors path name act es d r panic h = rw h

  visit_folder-Mirrors :
      (path name : Str) (es remnant : Entries) (d r : Walk) (v : Outcome (Bool × FileAction))
      → Mirrors es d r
      → Mirrors
          (only (folder name es))
          (visit_folder crate dry graph fs path name es remnant d v)
          (visit_folder crate real graph fs path name es remnant r v)
  unfolding visit_folder
  visit_folder-Mirrors path name es remnant d r (err m) h = refl
  visit_folder-Mirrors path name es remnant d r panic h = refl
  visit_folder-Mirrors path name es remnant d r (ok (true, act)) h =
      ap (leave_folder crate dry graph fs path name act d) (ap (λ (w : Walk). w.result) h)
      ∙ leave_folder-Mirrors path name act es d r r.result h
  visit_folder-Mirrors path name es remnant d r (ok (false, delete)) h = refl
  visit_folder-Mirrors path name es remnant d r (ok (false, keep)) h = refl

  open_folder-Mirrors :
      (o : Outcome (Unit {0})) (es : Entries) (d r : Walk)
      → Mirrors es d r
      → Mirrors es (open_folder crate dry graph fs o es d) (open_folder crate real graph fs o es r)
  unfolding open_folder
  open_folder-Mirrors (ok u) es d r h = h
  open_folder-Mirrors (err m) es d r h = refl
  open_folder-Mirrors panic es d r h = refl

  go_on-Mirrors :
      (e : Entry) (d r : Walk) (o : Outcome Bool) (es : Entries) (f g : Bool → Walk)
      → Mirrors (only e) d r
      → ((b : Bool) → Mirrors es (f b) (g b))
      → Mirrors
          (entry e es)
          (go_on crate dry graph fs d o es f)
          (go_on crate real graph fs r o es g)
  unfolding go_on
  go_on-Mirrors e d r (ok b) es f g h k = rw (h, k b)
  go_on-Mirrors e d r (err m) es f g h k = rw h
  go_on-Mirrors e d r panic es f g h k = rw h

  mutual
    unfolding visit verdict

    visit-Mirrors :
        (e : Entry) (rel : Option Str)
        → Mirrors (only e) (visit crate dry graph fs e rel) (visit crate real graph fs e rel)
    visit-Mirrors (file name) rel = visit_file-Mirrors (child_path rel name) (file name) _
    visit-Mirrors (folder name es) rel =
        visit_folder-Mirrors (child_path rel name) name es _ _ _ _ (
          open_folder-Mirrors (fs.read_dir (some (child_path rel name))) es _ _
            (walk_all-Mirrors es (some (child_path rel name)) true))

    walk_all-Mirrors :
        (es : Entries) (rel : Option Str) (so_far : Bool)
        → Mirrors es
            (walk_all crate dry graph fs es rel so_far)
            (walk_all crate real graph fs es rel so_far)
    walk_all-Mirrors empty rel so_far = refl
    walk_all-Mirrors (entry e es) rel so_far = elim (Bool-cases (fs.listed (entry_path e rel))) [
      | inl m ↦
          let h = visit-Mirrors e rel in
          rw m (
            ap
              (λ (o : Outcome Bool).
                go_on crate dry graph fs (visit crate dry graph fs e rel) o es
                  (λ b. walk_all crate dry graph fs es rel (so_far && b)))
              (ap (λ (w : Walk). w.result) h)
            ∙ go_on-Mirrors e _ _ _ es _ _ h (λ b. walk_all-Mirrors es rel (so_far && b)))
      | inr m ↦ rw m (rw (walk_all-Mirrors es rel so_far))
    ]

  -- A dry run prints and returns what a real run does, and leaves the folder as it is.
  pub traverse_dry :
      (es : Entries) (rel : Option Str)
      → traverse crate (record args { dryrun = true }) graph fs es rel
        ≡ record (traverse crate (record args { dryrun = false }) graph fs es rel) { left = es }
  unfolding traverse
  traverse_dry es rel = open_folder-Mirrors (fs.read_dir rel) es _ _ (walk_all-Mirrors es rel true)
