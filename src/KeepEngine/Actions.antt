-- ===== src/KeepEngine/Actions.antt =====
-- bin/keepEngine/src/decisiongraph.rs: what a rule says of a path.
use lapas.Prelude.{Outcome, ok, err, Bool, true, Option, none, some, if◌then◌else◌}
use lapas.Prelude.Text.{Str, codes, str_eq}

pub data FileAction : Type 0 where
  delete keep : FileAction

-- `FileAction::from_str`.
unfoldable pub from_str : Str → Outcome FileAction
unfolding str_eq
from_str s =
    if str_eq s (codes "keep")
    then ok keep
    else if str_eq s (codes "delete")
    then ok delete
    else err (codes "Invalid rule action")

pub record Actions : Type 0 where
  pub base : FileAction
  pub user : FileAction

pub record ActionResult : Type 0 where
  pub actions : Actions
  pub descend : Bool

-- `if let Some(actions) = self.actions { result.actions = actions; }`
abbrev pub override : Option Actions → ActionResult → ActionResult
override none r = r
override (some a) r = record r { actions = a }

-- `result.descend = true;`
abbrev pub set_descend : ActionResult → ActionResult
set_descend r = record r { descend = true }
