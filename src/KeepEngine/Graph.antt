-- ===== src/KeepEngine/Graph.antt =====
-- bin/keepEngine/src/decisiongraph.rs: the decision graph, how a rule is added to it, and how it
-- decides a path.
-- bin/keepEngine/src/main.rs: `parse_rules`, which reads a graph from a .keep file.
use lapas.Prelude.{
  Outcome, ok, err, panic, assert, unwrap, ◌>>=◌, ◌>>◌, Bool, true, false, not, ◌&&◌, ◌||◌, Option,
  none, some, List, [], ◌∷◌, ◌++◌, if◌then◌else◌, length, drop, leb,
}
use lapas.Prelude.Text.{Str, codes, str_eq, starts_with, contains, split, splitn, lines}
use lapas.Prelude.Text.Utf8.{is_utf8, is_blank}
use lapas.KeepEngine.Actions.{delete, keep, from_str, Actions, ActionResult}
use lapas.KeepEngine.Nodes.{
  RegexCrate, Node, multi_segment, Nodes, nil, cons, pattern, children, with_children, from_pattern,
  get_action_all,
}

-- `children_mut().push(node)`.
unfoldable pub push : {R : Type 0} → Nodes R → Node R → Nodes R
push nil n = cons n nil
push (cons m ms) n = cons m (push ms n)

-- `children_mut().retain(|n| n.pattern() != segment)`.
unfoldable pub retain : {R : Type 0} → Str → Nodes R → Nodes R
retain s nil = nil
retain s (cons n ns) =
    let rest = retain s ns in if not (str_eq (pattern n) s) then cons n rest else rest

-- `children().last()` is a node with that pattern.
unfoldable pub last_has : {R : Type 0} → Str → Nodes R → Bool
last_has s nil = false
last_has s (cons n nil) = str_eq (pattern n) s
last_has s (cons n (cons m ms)) = last_has s (cons m ms)

-- The recursion of `traverse_add` into a child, if it has that pattern.
abbrev pub update_child :
    {R : Type 0} → Str → (Nodes R → Outcome (Nodes R)) → Node R → Outcome (Node R)
update_child s f n =
    if str_eq (pattern n) s then f (children n) >>= (λ ch. ok (with_children n ch)) else ok n

-- `for child in node.children_mut() { … }`.
unfoldable pub update_matching :
    {R : Type 0} → Str → (Nodes R → Outcome (Nodes R)) → Nodes R → Outcome (Nodes R)
update_matching s f nil = ok nil
update_matching s f (cons n ns) = do
  n' ← update_child s f n
  ns' ← update_matching s f ns
  ok (cons n' ns')

abbrev pub is_nil : List Str → Bool
is_nil [] = true
is_nil (s ∷ segments) = false

-- `struct DecisionGraph`.
pub record DecisionGraph (R : Type 0) : Type 0 where
  pub roots : Nodes R

-- A rule, as `add_rule` takes it.
pub record Rule : Type 0 where
  pub segments : List Str
  pub actions : Actions

-- `add_rule_from_str` up to its call of `add_rule`, on the three parts of a rule line.
unfoldable pub parse_parts : Str → Str → Str → Outcome Rule
unfolding starts_with from_str split
parse_parts r0 r1 r2 = do
  let base_action_str = if starts_with r0 (codes "base:") then r0 else r1
  let user_action_str = if starts_with r0 (codes "user:") then r0 else r1
  assert
      (starts_with base_action_str (codes "base:") && starts_with user_action_str (codes "user:"))
  base_action ← from_str (drop 5 base_action_str)
  user_action ← from_str (drop 5 user_action_str)
  let segments = split b'/' r2
  assert (leb 1 (length segments))
  ok (record { segments = segments; actions = record { base = base_action; user = user_action } })

parse_split : List Str → Outcome Rule
unfolding parse_parts
parse_split (r0 ∷ r1 ∷ r2 ∷ []) = parse_parts r0 r1 r2
parse_split _ = panic

unfoldable pub parse_rule : Str → Outcome Rule
unfolding parse_split splitn
parse_rule rule_line = parse_split (splitn 3 b' ' rule_line)

-- The test of `parse_rules` on a line.
unfoldable pub is_rule_line : Str → Bool
unfolding starts_with is_blank
is_rule_line line = not (starts_with line (codes "#")) && not (is_blank line)

-- The result that `DecisionGraph::get_action` begins with.
abbrev pub undecided : ActionResult
undecided = record { actions = record { base = keep; user = keep }; descend = false }

module _ (crate : RegexCrate) where
  open crate use {Regex}

  unfoldable pub node_from_segment_pattern : Str → Option Actions → Outcome (Node Regex)
  unfolding str_eq contains from_pattern
  node_from_segment_pattern segment acts =
      if str_eq segment (codes "**")
      then ok (multi_segment acts nil)
      else if contains segment (codes "**")
      then err (
          codes
            "Invalid Pattern. Double-stars are only allowed in isolation between path separators: "
          ++ segment)
      else from_pattern crate segment acts

  -- `traverse_add`: the children of a node, before and after. An error drops the graph, as the
  -- callers do.
  unfoldable pub traverse_add : List Str → Actions → Nodes Regex → Outcome (Nodes Regex)
  unfolding retain push last_has update_matching
  traverse_add [] acts ch = panic
  traverse_add (s ∷ rest) acts ch =
      let kept = if is_nil rest then retain s ch else ch in
      let added =
        node_from_segment_pattern s (if is_nil rest then some acts else none)
        >>= (λ n. ok (push kept n)) in
      do
        ch' ← (if is_nil rest || not (last_has s kept) then added else ok kept)
        if is_nil rest then ok ch' else update_matching s (traverse_add rest acts) ch'

  unfoldable pub add_rule : DecisionGraph Regex → List Str → Actions → Outcome (DecisionGraph Regex)
  add_rule g segments acts = do ch ← traverse_add segments acts g.roots; ok (record { roots = ch })

  unfoldable pub add_rule_from_str : DecisionGraph Regex → Str → Outcome (DecisionGraph Regex)
  add_rule_from_str g rule_line = do r ← parse_rule rule_line; add_rule g r.segments r.actions

  -- `DecisionGraph::new`.
  unfoldable pub new_graph : Outcome (DecisionGraph Regex)
  unfolding from_pattern
  new_graph = do
    n ← unwrap (from_pattern crate (codes "**") (some (record { base = delete; user = keep })))
    ok (record { roots = cons n nil })

  -- `DecisionGraph::get_action` on the bytes of a path.
  unfoldable pub decide_path : DecisionGraph Regex → Str → Outcome ActionResult
  unfolding is_utf8 split get_action_all
  decide_path g path = do
    assert (is_utf8 path)
    get_action_all crate g.roots (split b'/' path) undecided

  -- The loop of `parse_rules` over the lines of the file.
  unfoldable pub add_lines : DecisionGraph Regex → List Str → Outcome (DecisionGraph Regex)
  add_lines g [] = ok g
  add_lines g (line ∷ rest) = do
    assert (is_utf8 line)
    g' ← (if is_rule_line line then add_rule_from_str g line else ok g)
    add_lines g' rest

  -- `parse_rules` on the bytes of the file; `none` is a file that cannot be opened.
  unfoldable pub parse_rules : Option Str → Outcome (DecisionGraph Regex)
  parse_rules none = panic
  parse_rules (some content) = do
    g ← new_graph
    g' ← add_lines g (lines content)
    add_rule_from_str g' (codes "base:keep user:delete .keep")
