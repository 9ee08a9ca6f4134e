-- ===== src/KeepEngine/Cleanup/Safe.antt =====
-- No run of `apply_keep` loses a file that the rules keep.
use lapas.Prelude.{
  Outcome, ok, err, panic, ◌≡◌, refl, sym, ◌∙◌, ap, inl, inr, Bool, true, false, not, ◌&&◌,
  Bool-cases, Option, some, List, [], ◌++◌, append-nil, arith, filter, All, if◌then◌else◌,
}
use lapas.Prelude.Text.{Str}
use lapas.KeepEngine.Actions.{FileAction, delete, keep}
use lapas.KeepEngine.Nodes.{RegexCrate}
use lapas.KeepEngine.Graph.{DecisionGraph}
use lapas.KeepEngine.Cleanup.{
  CliArgs, Entry, file, folder, Entries, empty, entry, FileSystem, Walk, child_path, entry_path,
  is_delete, is_empty, only, put, verdict, visit_file, leave_folder, visit_folder, open_folder,
  go_on, visit, walk_all, traverse, remains,
}
use lapas.KeepEngine.Cleanup.Files.{
  files, files_all, files_all-put, files_all-is_empty, filter-append, filter_none, All-remains,
}
use lapas.KeepEngine.Cleanup.Below.{keeps, keeps_decided, verdict_parts, deletes_whole}

module _ (crate : RegexCrate) (args : CliArgs) (graph : DecisionGraph crate.Regex)
    (fs : FileSystem) where
  -- The files to be kept, in order.
  unfoldable pub kept : Entries → Option Str → List Str
  kept es rel = filter (keeps crate args graph) (files_all es rel)

  -- Two contents of a folder have the same files to be kept.
  abbrev Same : Entries → Entries → Option Str → Type 0
  Same xs ys rel = kept xs rel ≡ kept ys rel

  pub kept-put :
      (xs ys : Entries) (rel : Option Str) → kept (put xs ys) rel ≡ kept xs rel ++ kept ys rel
  unfolding kept
  kept-put xs ys rel =
      ap (filter (keeps crate args graph)) (files_all-put xs ys rel)
      ∙ filter-append (keeps crate args graph) (files_all xs rel) (files_all ys rel)

  pub kept-folder :
      (name : Str) (es : Entries) (rel : Option Str)
      → kept (only (folder name es)) rel ≡ kept es (some (child_path rel name))
  unfolding kept files
  kept-folder name es rel =
      ap (filter (keeps crate args graph)) (append-nil (files_all es (some (child_path rel name))))

  pub kept-entry :
      (e : Entry) (es : Entries) (rel : Option Str)
      → kept (entry e es) rel ≡ kept (only e) rel ++ kept es rel
  kept-entry e es rel = kept-put (only e) es rel

  pub kept_none :
      (es : Entries) (rel : Option Str)
      → All (λ f. keeps crate args graph f ≡ false) (files_all es rel)
      → kept es rel ≡ []
  unfolding kept
  kept_none es rel h = filter_none (keeps crate args graph) (files_all es rel) h

  pub deleted_file :
      (name : Str) (rel : Option Str) (d : Bool)
      → verdict crate args graph fs (child_path rel name) ≡ ok (d, delete)
      → kept (only (file name)) rel ≡ []
  deleted_file name rel d h =
      let (r, e, _, a) = verdict_parts crate args graph fs (child_path rel name) d delete h in
      kept_none (only (file name)) rel
        (unfold files in (keeps_decided crate args graph (child_path rel name) r e ∙ rw a, tt))

  visit_file-Same :
      (name : Str) (rel : Option Str) (v : Outcome (Bool × FileAction))
      → verdict crate args graph fs (child_path rel name) ≡ v
      → Same
          (visit_file crate args graph fs (child_path rel name) (file name) v).left
          (only (file name))
          rel
  unfolding visit_file kept files_all
  visit_file-Same name rel (err m) h = refl
  visit_file-Same name rel panic h = refl
  visit_file-Same name rel (ok (d, keep)) h = refl
  visit_file-Same name rel (ok (d, delete)) h =
      elim (Bool-cases (not args.dryrun && fs.remove_file (child_path rel name))) [
        | inl m ↦ rw m (sym (deleted_file name rel d h))
        | inr m ↦ rw m
      ]

  Same-folder :
      (name : Str) (xs ys : Entries) (rel : Option Str)
      → Same xs ys (some (child_path rel name))
      → Same (only (folder name xs)) (only (folder name ys)) rel
  Same-folder name xs ys rel h = kept-folder name xs rel ∙ h ∙ sym (kept-folder name ys rel)

  pub kept-is_empty : (es : Entries) (rel : Option Str) → is_empty es ≡ true → kept es rel ≡ []
  unfolding kept
  kept-is_empty es rel h = ap (filter (keeps crate args graph)) (files_all-is_empty es rel h)

  leave_folder-Same :
      (name : Str) (es : Entries) (rel : Option Str) (act : FileAction) (below : Walk)
      (o : Outcome Bool)
      → Same below.left es (some (child_path rel name))
      → Same
          (leave_folder crate args graph fs (child_path rel name) name act below o).left
          (only (folder name es))
          rel
  unfolding leave_folder kept files_all
  leave_folder-Same name es rel act below (err m) h = Same-folder name below.left es rel h
  leave_folder-Same name es rel act below panic h = Same-folder name below.left es rel h
  leave_folder-Same name es rel act below (ok b) h =
      let bare = is_empty below.left && fs.remove_dir (child_path rel name) in
      elim (Bool-cases (b && is_delete act && not args.dryrun && bare)) [
        | inl m ↦ rw m (
            sym (
              kept-folder name es rel
              ∙ sym h
              ∙ kept-is_empty below.left (some (child_path rel name)) (ground arith)))
        | inr m ↦ rw m (Same-folder name below.left es rel h)
      ]

  Same-if :
      (b : Bool) (xs ys zs : Entries) (rel : Option Str)
      → Same xs zs rel
      → Same ys zs rel
      → Same (if b then xs else ys) zs rel
  Same-if true xs ys zs rel h k = h
  Same-if false xs ys zs rel h k = k

  visit_folder-Same :
      (name : Str) (es : Entries) (rel : Option Str) (below : Walk)
      (v : Outcome (Bool × FileAction))
      → verdict crate args graph fs (child_path rel name) ≡ v
      → Same below.left es (some (child_path rel name))
      → Same
          (visit_folder crate args graph fs
            (child_path rel name)
            name
            es
            (remains fs (folder name es) rel)
            below
            v).left
          (only (folder name es))
          rel
  unfolding visit_folder
  visit_folder-Same name es rel below (err m) k h = refl
  visit_folder-Same name es rel below panic k h = refl
  visit_folder-Same name es rel below (ok (true, act)) k h =
      leave_folder-Same name es rel act below below.result h
  visit_folder-Same name es rel below (ok (false, keep)) k h = refl
  visit_folder-Same name es rel below (ok (false, delete)) k h =
      let none_kept = deletes_whole crate args graph fs es (child_path rel name) k in
      Same-if args.dryrun (only (folder name es)) _ (only (folder name es)) rel refl (
        kept_none _ rel (All-remains _ fs (folder name es) rel (unfold files in none_kept))
        ∙ sym (kept-folder name es rel ∙ kept_none es _ none_kept))

  open_folder-Same :
      (o : Outcome (Unit {0})) (es : Entries) (rel : Option Str) (inner : Walk)
      → Same inner.left es rel
      → Same (open_folder crate args graph fs o es inner).left es rel
  unfolding open_folder
  open_folder-Same (ok u) es rel inner h = h
  open_folder-Same (err m) es rel inner h = refl
  open_folder-Same panic es rel inner h = refl

  go_on-Same :
      (e : Entry) (es : Entries) (rel : Option Str) (w : Walk) (o : Outcome Bool)
      (more : Bool → Walk)
      → Same w.left (only e) rel
      → ((b : Bool) → Same (more b).left es rel)
      → Same (go_on crate args graph fs w o es more).left (entry e es) rel
  unfolding go_on
  go_on-Same e es rel w (ok b) more h k =
      rw (kept-put w.left (more b).left rel, h, k b) (sym (kept-entry e es rel))
  go_on-Same e es rel w (err m) more h k =
      rw (kept-put w.left es rel, h) (sym (kept-entry e es rel))
  go_on-Same e es rel w panic more h k = rw (kept-put w.left es rel, h) (sym (kept-entry e es rel))

  mutual
    unfolding visit

    visit-Same :
        (e : Entry) (rel : Option Str) → Same (visit crate args graph fs e rel).left (only e) rel
    visit-Same (file name) rel = visit_file-Same name rel _ refl
    visit-Same (folder name es) rel = visit_folder-Same name es rel _ _ refl (
        open_folder-Same (fs.read_dir (some (child_path rel name))) es _ _
          (walk_all-Same es (some (child_path rel name)) true))

    walk_all-Same :
        (es : Entries) (rel : Option Str) (so_far : Bool)
        → Same (walk_all crate args graph fs es rel so_far).left es rel
    walk_all-Same empty rel so_far = refl
    walk_all-Same (entry e es) rel so_far = elim (Bool-cases (fs.listed (entry_path e rel))) [
      | inl m ↦ rw m (
          go_on-Same e es rel (visit crate args graph fs e rel) _ _ (visit-Same e rel)
            (λ b. walk_all-Same es rel (so_far && b)))
      | inr m ↦
          rw
            (
              m,
              kept-entry e (walk_all crate args graph fs es rel so_far).left rel,
              walk_all-Same es rel so_far,
            )
            (sym (kept-entry e es rel))
    ]

  -- Whatever calls of the operating system fail, and also where the walk ends early by an error or a
  -- panic: the files to be kept are there after the walk as before, in the same places and order.
  pub traverse_safe :
      (es : Entries) (rel : Option Str)
      → filter (keeps crate args graph) (files_all (traverse crate args graph fs es rel).left rel)
        ≡ filter (keeps crate args graph) (files_all es rel)
  unfolding traverse kept
  traverse_safe es rel = open_folder-Same (fs.read_dir rel) es rel _ (walk_all-Same es rel true)
