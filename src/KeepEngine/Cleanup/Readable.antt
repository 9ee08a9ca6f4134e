-- ===== src/KeepEngine/Cleanup/Readable.antt =====
-- The walk adds no path: what it leaves of a folder with UTF-8 paths has UTF-8 paths.
use lapas.Prelude.{
  Bool, true, false, not, ◌&&◌, Option, some, Bool-cases, inl, inr, Outcome, ok, err, panic,
  if◌then◌else◌,
}
use lapas.Prelude.Text.{Str}
use lapas.KeepEngine.Actions.{FileAction, delete, keep}
use lapas.KeepEngine.Nodes.{RegexCrate}
use lapas.KeepEngine.Graph.{DecisionGraph}
use lapas.KeepEngine.Cleanup.{
  CliArgs, Entry, file, folder, Entries, empty, entry, FileSystem, Walk, child_path, entry_path,
  is_empty, put, only, remains, remains_all, visit_file, leave_folder, visit_folder, open_folder,
  go_on, visit, walk_all, traverse, verdict,
}
use lapas.KeepEngine.Cleanup.Complete.{IsReadable, AllReadable}

put-AllReadable :
    (xs ys : Entries) (rel : Option Str)
    → AllReadable xs rel
    → AllReadable ys rel
    → AllReadable (put xs ys) rel
unfolding AllReadable
put-AllReadable empty ys rel h k = k
put-AllReadable (entry e xs) ys rel (h, hs) k = (h, put-AllReadable xs ys rel hs k)

only-AllReadable : (e : Entry) (rel : Option Str) → IsReadable e rel → AllReadable (only e) rel
unfolding AllReadable
only-AllReadable e rel h = (h, tt)

none-AllReadable : (rel : Option Str) → AllReadable empty rel
unfolding AllReadable
none-AllReadable rel = tt

if-AllReadable :
    (b : Bool) (xs ys : Entries) (rel : Option Str)
    → AllReadable xs rel
    → AllReadable ys rel
    → AllReadable (if b then xs else ys) rel
if-AllReadable true xs ys rel h k = h
if-AllReadable false xs ys rel h k = k

refolded :
    (name : Str) (es xs : Entries) (rel : Option Str)
    → IsReadable (folder name es) rel
    → AllReadable xs (some (child_path rel name))
    → AllReadable (only (folder name xs)) rel
unfolding IsReadable
refolded name es xs rel (u, h) k = (only-AllReadable (folder name xs) rel (u, k))

module _ (fs : FileSystem) where
  mutual
    unfolding remains IsReadable

    remains-AllReadable :
        (e : Entry) (rel : Option Str) → IsReadable e rel → AllReadable (remains fs e rel) rel
    remains-AllReadable (file name) rel h =
        if-AllReadable (fs.survives (child_path rel name)) _ _ rel
          (only-AllReadable (file name) rel h) (none-AllReadable rel)
    remains-AllReadable (folder name es) rel (u, h) =
        let inner = remains_all fs es (some (child_path rel name)) in
        if-AllReadable (is_empty inner && not (fs.survives (child_path rel name))) empty
          (only (folder name inner)) rel (none-AllReadable rel)
          (only-AllReadable (folder name inner) rel
            (u, remains_all-AllReadable es (some (child_path rel name)) h))

    remains_all-AllReadable :
        (es : Entries) (rel : Option Str)
        → AllReadable es rel
        → AllReadable (remains_all fs es rel) rel
    remains_all-AllReadable empty rel h = tt
    remains_all-AllReadable (entry e es) rel (h, hs) =
        put-AllReadable (remains fs e rel) (remains_all fs es rel) rel (remains-AllReadable e rel h)
          (remains_all-AllReadable es rel hs)

module _ (crate : RegexCrate) (args : CliArgs) (graph : DecisionGraph crate.Regex)
    (fs : FileSystem) where
  visit_file-AllReadable :
      (path : Str) (e : Entry) (rel : Option Str) (v : Outcome (Bool × FileAction))
      → IsReadable e rel
      → AllReadable (visit_file crate args graph fs path e v).left rel
  unfolding visit_file
  visit_file-AllReadable path e rel (err m) h = only-AllReadable e rel h
  visit_file-AllReadable path e rel panic h = only-AllReadable e rel h
  visit_file-AllReadable path e rel (ok (d, keep)) h = only-AllReadable e rel h
  visit_file-AllReadable path e rel (ok (d, delete)) h =
      if-AllReadable _ _ _ rel (none-AllReadable rel) (only-AllReadable e rel h)

  leave_folder-AllReadable :
      (path name : Str) (es : Entries) (rel : Option Str) (act : FileAction) (below : Walk)
      (o : Outcome Bool)
      → IsReadable (folder name es) rel
      → AllReadable below.left (some (child_path rel name))
      → AllReadable (leave_folder crate args graph fs path name act below o).left rel
  unfolding leave_folder
  leave_folder-AllReadable path name es rel act below (err m) h k =
      refolded name es below.left rel h k
  leave_folder-AllReadable path name es rel act below panic h k =
      refolded name es below.left rel h k
  leave_folder-AllReadable path name es rel act below (ok b) h k =
      if-AllReadable _ _ _ rel (none-AllReadable rel) (refolded name es below.left rel h k)

  visit_folder-AllReadable :
      (path name : Str) (es : Entries) (rel : Option Str) (below : Walk)
      (v : Outcome (Bool × FileAction))
      → IsReadable (folder name es) rel
      → AllReadable below.left (some (child_path rel name))
      → AllReadable
          (visit_folder crate args graph fs path name es
            (remains fs (folder name es) rel)
            below
            v).left
          rel
  unfolding visit_folder
  visit_folder-AllReadable path name es rel below (err m) h k = only-AllReadable _ rel h
  visit_folder-AllReadable path name es rel below panic h k = only-AllReadable _ rel h
  visit_folder-AllReadable path name es rel below (ok (true, act)) h k =
      leave_folder-AllReadable path name es rel act below below.result h k
  visit_folder-AllReadable path name es rel below (ok (false, keep)) h k = only-AllReadable _ rel h
  visit_folder-AllReadable path name es rel below (ok (false, delete)) h k =
      if-AllReadable args.dryrun _ _ rel (only-AllReadable _ rel h)
        (remains-AllReadable fs (folder name es) rel h)

  open_folder-AllReadable :
      (o : Outcome (Unit {0})) (es : Entries) (rel : Option Str) (inner : Walk)
      → AllReadable es rel
      → AllReadable inner.left rel
      → AllReadable (open_folder crate args graph fs o es inner).left rel
  unfolding open_folder
  open_folder-AllReadable (ok u) es rel inner h k = k
  open_folder-AllReadable (err m) es rel inner h k = h
  open_folder-AllReadable panic es rel inner h k = h

  go_on-AllReadable :
      (es : Entries) (rel : Option Str) (w : Walk) (o : Outcome Bool) (more : Bool → Walk)
      → AllReadable w.left rel
      → AllReadable es rel
      → ((b : Bool) → AllReadable (more b).left rel)
      → AllReadable (go_on crate args graph fs w o es more).left rel
  unfolding go_on
  go_on-AllReadable es rel w (ok b) more h hs k = put-AllReadable w.left (more b).left rel h (k b)
  go_on-AllReadable es rel w (err m) more h hs k = put-AllReadable w.left es rel h hs
  go_on-AllReadable es rel w panic more h hs k = put-AllReadable w.left es rel h hs

  mutual
    unfolding visit AllReadable

    visit-AllReadable :
        (e : Entry) (rel : Option Str)
        → IsReadable e rel
        → AllReadable (visit crate args graph fs e rel).left rel
    visit-AllReadable (file name) rel h =
        visit_file-AllReadable (child_path rel name) (file name) rel
          (verdict crate args graph fs (child_path rel name)) h
    visit-AllReadable (folder name es) rel (u, h) =
        visit_folder-AllReadable (child_path rel name) name es rel _
          (verdict crate args graph fs (child_path rel name)) (u, h)
          (open_folder-AllReadable (fs.read_dir (some (child_path rel name))) es
            (some (child_path rel name))
            (walk_all crate args graph fs es (some (child_path rel name)) true) h
            (walk_all-AllReadable es (some (child_path rel name)) true h))

    walk_all-AllReadable :
        (es : Entries) (rel : Option Str) (so_far : Bool)
        → AllReadable es rel
        → AllReadable (walk_all crate args graph fs es rel so_far).left rel
    walk_all-AllReadable empty rel so_far h = tt
    walk_all-AllReadable (entry e es) rel so_far (h, hs) =
        elim (Bool-cases (fs.listed (entry_path e rel))) [
          | inl m ↦ rw m (
              go_on-AllReadable es rel (visit crate args graph fs e rel) _ _
                (visit-AllReadable e rel h) hs (λ b. walk_all-AllReadable es rel (so_far && b) hs))
          | inr m ↦ rw m (h, walk_all-AllReadable es rel so_far hs)
        ]

  pub traverse-AllReadable :
      (es : Entries) (rel : Option Str)
      → AllReadable es rel
      → AllReadable (traverse crate args graph fs es rel).left rel
  unfolding traverse
  traverse-AllReadable es rel h =
      open_folder-AllReadable (fs.read_dir rel) es rel _ h (walk_all-AllReadable es rel true h)
