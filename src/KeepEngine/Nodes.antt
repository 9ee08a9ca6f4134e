-- ===== src/KeepEngine/Nodes.antt =====
-- bin/keepEngine/src/decisiongraph.rs: the nodes of the decision graph. The two implementations of
-- the trait `DecisionNode` are the constructors of `Node`; a panic is a value of `Outcome`.
use lapas.Prelude.{
  ℕ, zero, suc, ◌+◌, ◌-◌, Outcome, ok, panic, ◌>>=◌, Bool, Option, List, [], ◌∷◌, ◌++◌,
  if◌then◌else◌, length, ◌==◌,
}
use lapas.Prelude.Text.{Str, codes, str_eq, replace}
use lapas.KeepEngine.Actions.{Actions, ActionResult, override, set_descend}

-- What the code uses of the crate `regex`: `Regex::new`, `is_match` and `escape`.
pub record RegexCrate : Type 1 where
  pub Regex : Type 0
  pub new : Str → Outcome Regex
  pub is_match : Regex → Str → Bool
  pub escape : Str → Str

mutual
  -- `MultiSegmentNode` and `SingleSegmentNode`.
  pub data Node (R : Type 0) : Type 0 where
    multi_segment : Option Actions → Nodes R → Node R
    single_segment : Str → R → Option Actions → Nodes R → Node R

  -- `Vec<Box<dyn DecisionNode>>`.
  pub data Nodes (R : Type 0) : Type 0 where
    nil : Nodes R
    cons : Node R → Nodes R → Nodes R

-- The methods `pattern` and `children`.
abbrev pub pattern : {R : Type 0} → Node R → Str
pattern (multi_segment acts ch) = codes "**"
pattern (single_segment p re acts ch) = p

abbrev pub children : {R : Type 0} → Node R → Nodes R
children (multi_segment acts ch) = ch
children (single_segment p re acts ch) = ch

-- What is written through `children_mut`.
abbrev pub with_children : {R : Type 0} → Node R → Nodes R → Node R
with_children (multi_segment acts _) ch = multi_segment acts ch
with_children (single_segment p re acts _) ch = single_segment p re acts ch

abbrev pub count : {R : Type 0} → Nodes R → ℕ
count nil = 0
count (cons n ns) = suc (count ns)

-- `&segments[i..]`.
unfoldable pub slice_from : ℕ → List Str → Outcome (List Str)
slice_from zero segments = ok segments
slice_from (suc i) [] = panic
slice_from (suc i) (s ∷ segments) = slice_from i segments

-- The loop of `MultiSegmentNode::get_action` over `i`, with the number of its rounds; `visit` is the
-- inner loop over the children.
unfoldable pub multi_rounds :
    ℕ
    → ℕ
    → (List Str → ActionResult → Outcome ActionResult)
    → List Str
    → ActionResult
    → Outcome ActionResult
unfolding slice_from
multi_rounds zero i visit segments r = ok r
multi_rounds (suc n) i visit segments r = do
  rest ← slice_from i segments
  r' ← visit rest r
  multi_rounds n (i + 1) visit segments r'

module _ (crate : RegexCrate) where
  open crate use {Regex, new, is_match, escape}

  -- The regex text of a segment, in `SingleSegmentNode::from_pattern`.
  unfoldable pub segment_regex : Str → Str
  unfolding str_eq replace
  segment_regex pattern =
      let body =
        if str_eq pattern (codes "*")
        then codes "[^/]+"
        else replace (codes "@KEEPENGINEGLOBSTAR@") (codes "[^/]*")
            (escape (replace (codes "*") (codes "@KEEPENGINEGLOBSTAR@") pattern)) in
      codes "^" ++ (body ++ codes "$")

  unfoldable pub from_pattern : Str → Option Actions → Outcome (Node Regex)
  from_pattern pattern acts = do
    re ← new (segment_regex pattern)
    ok (single_segment pattern re acts nil)

  unfoldable mutual
    pub get_action : Node Regex → List Str → ActionResult → Outcome ActionResult
    get_action (multi_segment acts nil) segments r = ok (override acts r)
    get_action (multi_segment acts (cons c ch)) segments r =
        let r1 = override acts r in
        multi_rounds (count (cons c ch) - 1 - 1) 1 (get_action_all (cons c ch)) segments
          (if length segments == 1 then set_descend r1 else r1)
    get_action (single_segment p re acts ch) [] r = panic
    get_action (single_segment p re acts ch) (s ∷ []) r =
        if is_match re s
        then ok (if count ch == 0 then override acts r else set_descend (override acts r))
        else ok r
    get_action (single_segment p re acts ch) (s ∷ t ∷ rest) r =
        let deeper = get_action_all ch (t ∷ rest) (override acts r) in
        if is_match re s then deeper else ok r

    -- `for child in &self.children { child.get_action(segments, result); }`
    pub get_action_all : Nodes Regex → List Str → ActionResult → Outcome ActionResult
    get_action_all nil segments r = ok r
    get_action_all (cons n ns) segments r = do
      r' ← get_action n segments r
      get_action_all ns segments r'
