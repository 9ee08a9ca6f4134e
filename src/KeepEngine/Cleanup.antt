-- ===== src/KeepEngine/Cleanup.antt =====
-- bin/keepEngine/src/main.rs: `apply_keep`, which walks a home folder depth first and removes what the
-- decision graph says. The operating system is a parameter: which calls succeed, and what a
-- recursive removal that fails leaves behind.
pub mod Files
pub mod DryRun
pub mod Below
pub mod Safe
pub mod Complete
pub mod Readable
use lapas.Prelude.{
  Outcome, ok, err, panic, ◌>>=◌, ◌>>◌, Bool, true, false, not, ◌&&◌, Option, none, some, List, [],
  ◌∷◌, ◌++◌, if◌then◌else◌,
}
use lapas.Prelude.Text.{Str}
use lapas.KeepEngine.Actions.{FileAction, delete, keep, Actions}
use lapas.KeepEngine.Nodes.{RegexCrate}
use lapas.KeepEngine.Graph.{DecisionGraph, decide_path}

pub data CleanupMode : Type 0 where
  base user : CleanupMode

-- The arguments that the walk reads.
pub record CliArgs : Type 0 where
  pub mode : CleanupMode
  pub dryrun : Bool
  pub verbose : Bool

mutual
  -- A file (also a symbolic link), or a folder with what it holds.
  pub data Entry : Type 0 where
    file : Str → Entry
    folder : Str → Entries → Entry

  pub data Entries : Type 0 where
    empty : Entries
    entry : Entry → Entries → Entries

-- What the operating system answers, by the path from the cleaned folder; `none` is that folder.
pub record FileSystem : Type 0 where
  -- `fs::read_dir` and `DirEntry::file_type` succeed, or fail with an error.
  pub read_dir : Option Str → Outcome (Unit {0})
  pub file_type : Str → Outcome (Unit {0})
  -- The iteration over a folder yields this entry.
  pub listed : Str → Bool
  -- `fs::remove_file` succeeds, and `fs::remove_dir` does on an empty folder.
  pub remove_file : Str → Bool
  pub remove_dir : Str → Bool
  -- An entry that `fs::remove_dir_all` fails to remove.
  pub survives : Str → Bool

-- The lines that `--verbose` prints.
pub data Removal : Type 0 where
  removed_folder removed_tree removed_file : Str → Removal

-- What a part of the walk leaves behind, prints and returns.
pub record Walk : Type 0 where
  pub left : Entries
  pub log : List Removal
  pub result : Outcome Bool

abbrev pub action_of : CleanupMode → Actions → FileAction
action_of base a = a.base
action_of user a = a.user

abbrev pub is_delete : FileAction → Bool
is_delete delete = true
is_delete keep = false

abbrev pub child_path : Option Str → Str → Str
child_path none name = name
child_path (some p) name = p ++ (b'/' ∷ name)

abbrev pub entry_path : Entry → Option Str → Str
entry_path (file name) rel = child_path rel name
entry_path (folder name es) rel = child_path rel name

abbrev pub is_empty : Entries → Bool
is_empty empty = true
is_empty (entry e es) = false

abbrev pub put : Entries → Entries → Entries
put empty rest = rest
put (entry e es) rest = entry e (put es rest)

abbrev pub only : Entry → Entries
only e = entry e empty

-- What `fs::remove_dir_all` leaves of a folder's entries.
unfoldable mutual
  pub remains : FileSystem → Entry → Option Str → Entries
  remains fs (file name) rel = if fs.survives (child_path rel name) then only (file name) else empty
  remains fs (folder name es) rel =
      let inner = remains_all fs es (some (child_path rel name)) in
      if is_empty inner && not (fs.survives (child_path rel name))
      then empty
      else only (folder name inner)

  pub remains_all : FileSystem → Entries → Option Str → Entries
  remains_all fs empty rel = empty
  remains_all fs (entry e es) rel = put (remains fs e rel) (remains_all fs es rel)

module _ (crate : RegexCrate) (args : CliArgs) (graph : DecisionGraph crate.Regex)
    (fs : FileSystem) where
  -- Whether to descend, and the action of the mode.
  abbrev pub Verdict : Type 0
  Verdict = Bool × FileAction

  -- The decision on a child, and its type.
  unfoldable pub verdict : Str → Outcome Verdict
  verdict path = do
    decision ← decide_path crate graph path
    fs.file_type path
    ok (decision.descend, action_of args.mode decision.actions)

  abbrev pub logged : Removal → List Removal
  logged r = if args.verbose then r ∷ [] else []

  unfoldable pub visit_file : Str → Entry → Outcome Verdict → Walk
  visit_file path e (err m) = record { left = only e; log = []; result = err m }
  visit_file path e panic = record { left = only e; log = []; result = panic }
  visit_file path e (ok (descend, delete)) = record {
    left = if not args.dryrun && fs.remove_file path then empty else only e;
    log = logged (removed_file path);
    result = ok true;
  }
  visit_file path e (ok (descend, keep)) = record { left = only e; log = []; result = ok false }

  -- The end of the branch of a folder that was descended into.
  unfoldable pub leave_folder : Str → Str → FileAction → Walk → Outcome Bool → Walk
  leave_folder path name act below (err m) = record {
    left = only (folder name below.left);
    log = below.log;
    result = err m;
  }
  leave_folder path name act below panic = record {
    left = only (folder name below.left);
    log = below.log;
    result = panic;
  }
  leave_folder path name act below (ok child_empty) =
      let gone = child_empty && is_delete act in
      record {
        left =
            if gone && not args.dryrun && (is_empty below.left && fs.remove_dir path)
            then empty
            else only (folder name below.left);
        log = below.log ++ (if gone then logged (removed_folder path) else []);
        result = ok child_empty;
      }

  -- `below` is the walk through the folder, and `remnant` what `fs::remove_dir_all` leaves of it.
  unfoldable pub visit_folder : Str → Str → Entries → Entries → Walk → Outcome Verdict → Walk
  unfolding leave_folder
  visit_folder path name es remnant below (err m) = record {
    left = only (folder name es);
    log = [];
    result = err m;
  }
  visit_folder path name es remnant below panic = record {
    left = only (folder name es);
    log = [];
    result = panic;
  }
  visit_folder path name es remnant below (ok (true, act)) =
      leave_folder path name act below below.result
  visit_folder path name es remnant below (ok (false, delete)) = record {
    left = if args.dryrun then only (folder name es) else remnant;
    log = logged (removed_tree path);
    result = ok true;
  }
  visit_folder path name es remnant below (ok (false, keep)) = record {
    left = only (folder name es);
    log = [];
    result = ok false;
  }

  -- `traverse`: the entries are read, then `inner` walks through them.
  unfoldable pub open_folder : Outcome (Unit {0}) → Entries → Walk → Walk
  open_folder (ok _) es inner = inner
  open_folder (err m) es inner = record { left = es; log = []; result = err m }
  open_folder panic es inner = record { left = es; log = []; result = panic }

  -- An error or a panic ends the loop, and the entries behind are left as they are.
  unfoldable pub go_on : Walk → Outcome Bool → Entries → (Bool → Walk) → Walk
  go_on w (ok child_empty) rest more =
      let next = more child_empty in
      record { left = put w.left next.left; log = w.log ++ next.log; result = next.result }
  go_on w (err m) rest more = record w { left = put w.left rest }
  go_on w panic rest more = record w { left = put w.left rest }

  unfoldable mutual
    pub visit : Entry → Option Str → Walk
    visit (file name) rel =
        visit_file (child_path rel name) (file name) (verdict (child_path rel name))
    visit (folder name es) rel =
        let path = child_path rel name in
        visit_folder path name es (remains fs (folder name es) rel)
          (open_folder (fs.read_dir (some path)) es (walk_all es (some path) true)) (verdict path)

    -- The loop of `traverse`, with `is_empty` so far.
    pub walk_all : Entries → Option Str → Bool → Walk
    walk_all empty rel so_far = record { left = empty; log = []; result = ok so_far }
    walk_all (entry e es) rel so_far =
        let others = walk_all es rel so_far in
        let passed : Walk = record others { left = entry e others.left } in
        let visited =
          go_on (visit e rel) (visit e rel).result es
            (λ (b : Bool). walk_all es rel (so_far && b)) in
        if fs.listed (entry_path e rel) then visited else passed

  unfoldable pub traverse : Entries → Option Str → Walk
  traverse es rel = open_folder (fs.read_dir rel) es (walk_all es rel true)
