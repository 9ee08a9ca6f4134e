-- ===== src/KeepEngine/Stars.antt =====
-- A node for `**` with nodes below it: `MultiSegmentNode::get_action` of
-- bin/keepEngine/src/decisiongraph.rs.
use lapas.Prelude.{suc, ◌-◌, ◌≤◌, ok, panic, ◌≡◌, refl, Option, List, [], ◌∷◌, arith}
use lapas.Prelude.Text.{Str}
use lapas.KeepEngine.Actions.{Actions, ActionResult, override}
use lapas.KeepEngine.Nodes.{
  RegexCrate, Node, multi_segment, single_segment, Nodes, nil, cons, count, multi_rounds,
  get_action,
}

module _ (crate : RegexCrate) where
  open crate use {Regex}

  -- With at most two nodes below it, a `**` node takes its own actions on every path, and those of
  -- no node below it.
  pub multi_segment_ignores :
      (acts : Option Actions) (ch : Nodes Regex) (segments : List Str) (r : ActionResult)
      → count ch ≤ 2
      → (s : ActionResult) × (get_action crate (multi_segment acts ch) segments r ≡ ok s)
        × (s.actions ≡ (override acts r).actions)
  unfolding get_action multi_rounds
  multi_segment_ignores acts nil segments r h = (override acts r, refl, refl)
  multi_segment_ignores acts (cons c nil) segments r h = (_, refl, ground arith)
  multi_segment_ignores acts (cons c (cons d nil)) segments r h = (_, refl, ground arith)
  multi_segment_ignores acts (cons c (cons d (cons e ch))) segments r h = absurd (omega arith)

  -- With three nodes or more below it, the first for a single segment, a `**` node panics on every
  -- path of one segment.
  pub multi_segment_panics :
      (acts own : Option Actions) (p x : Str) (re : Regex) (below : Nodes Regex) (c d : Node Regex)
      (ch : Nodes Regex) (r : ActionResult)
      → get_action crate
          (multi_segment acts (cons (single_segment p re own below) (cons c (cons d ch))))
          (x ∷ [])
          r
        ≡ panic
  unfolding get_action multi_rounds
  multi_segment_panics acts own p x re below c d ch r =
      let e : suc (suc (suc (count ch))) - 1 - 1 ≡ suc (count ch) = omega arith in rw e
