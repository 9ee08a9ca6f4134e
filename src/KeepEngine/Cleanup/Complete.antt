-- ===== src/KeepEngine/Cleanup/Complete.antt =====
-- Where the operating system does what it is asked, `apply_keep` leaves exactly the files to be kept.
use lapas.Prelude.{
  ok, ◌≡◌, refl, sym, ◌∙◌, ap, inl, inr, Bool, true, false, not, ◌&&◌, Bool-cases, Option, some, [],
  ◌∷◌, append-nil, arith, filter, All, if◌then◌else◌,
}
use lapas.Prelude.Text.{Str}
use lapas.Prelude.Text.Utf8.{is_utf8}
use lapas.KeepEngine.Actions.{FileAction, delete, keep, ActionResult}
use lapas.KeepEngine.Nodes.{RegexCrate}
use lapas.KeepEngine.Graph.{DecisionGraph, decide_path}
use lapas.KeepEngine.Cleanup.{
  CliArgs, Entry, file, folder, Entries, empty, entry, FileSystem, Walk, child_path, entry_path,
  is_delete, is_empty, action_of, only, verdict, visit_file, leave_folder, visit_folder,
  open_folder, go_on, visit, walk_all, traverse, remains, remains_all,
}
use lapas.KeepEngine.Cleanup.Files.{
  files, files_all, files_all-put, files_all-is_empty, filter_eq_self, All-append,
}
use lapas.KeepEngine.Cleanup.Below.{keeps, keeps_decided, verdict_parts, keeps_whole, deletes_whole}
use lapas.KeepEngine.Cleanup.Safe.{kept, kept-folder, kept-entry, kept_none, deleted_file}

-- No call of the operating system fails.
pub record Permits (fs : FileSystem) : Type 0 where
  pub reads : (p : Option Str) → fs.read_dir p ≡ ok tt
  pub types : (p : Str) → fs.file_type p ≡ ok tt
  pub lists : (p : Str) → fs.listed p ≡ true
  pub unlinks : (p : Str) → fs.remove_file p ≡ true
  pub removes : (p : Str) → fs.survives p ≡ false

-- Every path in the folder is UTF-8.
unfoldable mutual
  pub IsReadable : Entry → Option Str → Type 0
  IsReadable (file name) rel = is_utf8 (child_path rel name) ≡ true
  IsReadable (folder name es) rel =
      (is_utf8 (child_path rel name) ≡ true) × AllReadable es (some (child_path rel name))

  pub AllReadable : Entries → Option Str → Type 0
  AllReadable empty rel = Unit
  AllReadable (entry e es) rel = IsReadable e rel × AllReadable es rel

mutual
  unfolding IsReadable files

  IsReadable-All :
      (e : Entry) (rel : Option Str) → IsReadable e rel → All (λ f. is_utf8 f ≡ true) (files e rel)
  IsReadable-All (file name) rel h = (h, tt)
  IsReadable-All (folder name es) rel (h, hs) = AllReadable-All es (some (child_path rel name)) hs

  pub AllReadable-All :
      (es : Entries) (rel : Option Str)
      → AllReadable es rel
      → All (λ f. is_utf8 f ≡ true) (files_all es rel)
  AllReadable-All empty rel h = tt
  AllReadable-All (entry e es) rel (h, hs) =
      All-append _ (files e rel) (files_all es rel) (IsReadable-All e rel h)
        (AllReadable-All es rel hs)

not_dry : (b : Bool) (xs ys : Entries) → b ≡ false → (if b then xs else ys) ≡ ys
not_dry true xs ys h = cc
not_dry false xs ys h = refl

module _ (fs : FileSystem) (permits : Permits fs) where
  mutual
    unfolding remains

    remains_nothing : (e : Entry) (rel : Option Str) → remains fs e rel ≡ empty
    remains_nothing (file name) rel = rw (permits.removes (child_path rel name))
    remains_nothing (folder name es) rel =
        rw (
          permits.removes (child_path rel name),
          remains_all_nothing es (some (child_path rel name)),
        )

    remains_all_nothing : (es : Entries) (rel : Option Str) → remains_all fs es rel ≡ empty
    remains_all_nothing empty rel = refl
    remains_all_nothing (entry e es) rel = rw (remains_nothing e rel, remains_all_nothing es rel)

module _ (crate : RegexCrate) (args : CliArgs) (graph : DecisionGraph crate.Regex) (fs : FileSystem)
    (permits : Permits fs) (real : args.dryrun ≡ false)
    (decides : (p : Str)
      → is_utf8 p ≡ true
      → (r : ActionResult) × (decide_path crate graph p ≡ ok r)) where
  -- The walk ends without an error and leaves of `es` the files to be kept.
  abbrev Done : Entries → Option Str → Walk → Type 0
  Done es rel w =
      (b : Bool) × (w.result ≡ ok b) × (files_all w.left rel ≡ kept crate args graph fs es rel)

  verdict_total :
      (p : Str)
      → is_utf8 p ≡ true
      → (v : Bool × FileAction) × (verdict crate args graph fs p ≡ ok v)
  unfolding verdict
  verdict_total p u =
      let (r, e) = decides p u in
      ((r.descend, action_of args.mode r.actions), rw (e, permits.types p))

  kept_file :
      (name : Str) (rel : Option Str) (d : Bool)
      → verdict crate args graph fs (child_path rel name) ≡ ok (d, keep)
      → kept crate args graph fs (only (file name)) rel ≡ child_path rel name ∷ []
  unfolding kept files
  kept_file name rel d h =
      let (r, e, _, a) = verdict_parts crate args graph fs (child_path rel name) d keep h in
      filter_eq_self (keeps crate args graph) _
        ((keeps_decided crate args graph (child_path rel name) r e ∙ rw a), tt)

  visit_file-Done :
      (name : Str) (rel : Option Str) (v : Bool × FileAction)
      → verdict crate args graph fs (child_path rel name) ≡ ok v
      → Done
          (only (file name))
          rel
          (visit_file crate args graph fs (child_path rel name) (file name) (ok v))
  unfolding visit_file files
  visit_file-Done name rel (d, keep) h = (false, refl, sym (kept_file name rel d h))
  visit_file-Done name rel (d, delete) h = (
    true,
    refl,
    let m : not args.dryrun && fs.remove_file (child_path rel name) ≡ true =
          ground (arith, permits.unlinks (child_path rel name)) in
        rw m (sym (deleted_file crate args graph fs name rel d h)),
  )

  files-empty : (rel : Option Str) → files_all empty rel ≡ kept crate args graph fs empty rel
  unfolding kept files
  files-empty rel = refl

  files-folder :
      (name : Str) (es : Entries) (rel : Option Str)
      → files_all (only (folder name es)) rel ≡ files_all es (some (child_path rel name))
  unfolding files
  files-folder name es rel = append-nil (files_all es (some (child_path rel name)))

  leave_folder-Done :
      (name : Str) (es : Entries) (rel : Option Str) (act : FileAction) (below : Walk) (b : Bool)
      → files_all below.left (some (child_path rel name))
        ≡ kept crate args graph fs es (some (child_path rel name))
      → Done
          (only (folder name es))
          rel
          (leave_folder crate args graph fs (child_path rel name) name act below (ok b))
  unfolding leave_folder
  leave_folder-Done name es rel act below b h =
      let bare = is_empty below.left && fs.remove_dir (child_path rel name) in
      let whole = h ∙ sym (kept-folder crate args graph fs name es rel) in
      (
        b,
        refl,
        elim (Bool-cases (b && is_delete act && not args.dryrun && bare)) [
          | inl m ↦ rw m (
              unfold files in
              (sym (files_all-is_empty below.left (some (child_path rel name)) (ground arith))
                ∙ whole))
          | inr m ↦ rw m (files-folder name below.left rel ∙ whole)
        ],
      )

  visit_folder-Done :
      (name : Str) (es : Entries) (rel : Option Str) (below : Walk) (v : Bool × FileAction)
      → verdict crate args graph fs (child_path rel name) ≡ ok v
      → AllReadable es (some (child_path rel name))
      → Done es (some (child_path rel name)) below
      → Done (only (folder name es)) rel (
          visit_folder crate args graph fs
            (child_path rel name)
            name
            es
            (remains fs (folder name es) rel)
            below
            (ok v))
  unfolding visit_folder
  visit_folder-Done name es rel below (true, act) h u (b, e, k) =
      rw e (leave_folder-Done name es rel act below b k)
  visit_folder-Done name es rel below (false, keep) h u d = (
    false,
    refl,
    files-folder name es rel
        ∙ sym (
            kept-folder crate args graph fs name es rel
            ∙ unfold kept in
              filter_eq_self (keeps crate args graph) _ (
                keeps_whole crate args graph fs es (child_path rel name) h
                  (AllReadable-All es (some (child_path rel name)) u))),
  )
  visit_folder-Done name es rel below (false, delete) h u d = (
    true,
    refl,
    ap (λ (xs : Entries). files_all xs rel)
          (not_dry args.dryrun (only (folder name es)) (remains fs (folder name es) rel) real
            ∙ remains_nothing fs permits (folder name es) rel)
        ∙ unfold files in
          sym (
            kept-folder crate args graph fs name es rel
            ∙ kept_none crate args graph fs es _
                (deletes_whole crate args graph fs es (child_path rel name) h)),
  )

  open_folder-Done :
      (p : Option Str) (es : Entries) (rel : Option Str) (inner : Walk)
      → Done es rel inner
      → Done es rel (open_folder crate args graph fs (fs.read_dir p) es inner)
  unfolding open_folder
  open_folder-Done p es rel inner h = rw (permits.reads p) h

  go_on-Done :
      (e : Entry) (es : Entries) (rel : Option Str) (w : Walk) (more : Bool → Walk)
      → Done (only e) rel w
      → ((b : Bool) → Done es rel (more b))
      → Done (entry e es) rel (go_on crate args graph fs w w.result es more)
  unfolding go_on
  go_on-Done e es rel w more (b, r, k) h =
      let (b2, r2, k2) = h b in
      rw r (
        b2,
        r2,
        files_all-put w.left (more b).left rel
            ∙ rw (k, k2) (sym (kept-entry crate args graph fs e es rel)),
      )

  mutual
    unfolding visit IsReadable

    visit-Done :
        (e : Entry) (rel : Option Str)
        → IsReadable e rel
        → Done (only e) rel (visit crate args graph fs e rel)
    visit-Done (file name) rel u =
        let (v, h) = verdict_total (child_path rel name) u in rw h (visit_file-Done name rel v h)
    visit-Done (folder name es) rel (u, us) =
        let p = child_path rel name in
        let (v, h) = verdict_total p u in
        rw h (
          visit_folder-Done name es rel _ v h us
            (open_folder-Done (some p) es (some p) _ (walk_all-Done es (some p) true us)))

    walk_all-Done :
        (es : Entries) (rel : Option Str) (so_far : Bool)
        → AllReadable es rel
        → Done es rel (walk_all crate args graph fs es rel so_far)
    walk_all-Done empty rel so_far u = (so_far, refl, files-empty rel)
    walk_all-Done (entry e es) rel so_far (u, us) =
        rw (permits.lists (entry_path e rel)) (
          go_on-Done e es rel _ _ (visit-Done e rel u) (λ b. walk_all-Done es rel (so_far && b) us))

  -- The walk returns, and the files that it leaves are those that the rules keep, in order.
  pub traverse_exact :
      (es : Entries) (rel : Option Str)
      → AllReadable es rel
      → (b : Bool) × ((traverse crate args graph fs es rel).result ≡ ok b)
        × (files_all (traverse crate args graph fs es rel).left rel
            ≡ filter (keeps crate args graph) (files_all es rel))
  unfolding traverse kept
  traverse_exact es rel u = open_folder-Done rel es rel _ (walk_all-Done es rel true u)
