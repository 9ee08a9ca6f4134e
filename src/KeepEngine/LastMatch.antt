-- ===== src/KeepEngine/LastMatch.antt =====
-- What a list of rules means: the last rule that matches a path decides it. `add_rule` of
-- bin/keepEngine/src/decisiongraph.rs is held against this meaning in the modules below.
pub mod Decided
pub mod Added
pub mod Updated
pub mod AddRule
pub mod ParseRules
use lapas.Prelude.{
  Outcome, ok, err, panic, ◌≡◌, Bool, true, false, ◌&&◌, List, [], ◌∷◌, if◌then◌else◌, ◌≢◌,
}
use lapas.Prelude.Text.{Str, codes, str_eq}
use lapas.KeepEngine.Actions.{Actions}
use lapas.KeepEngine.Nodes.{
  RegexCrate, Node, multi_segment, single_segment, Nodes, nil, cons, segment_regex,
}

-- A rule that `**` stands in only as its last segment.
abbrev pub StarsLast : List Str → Type 0
StarsLast [] = Unit
StarsLast (s ∷ []) = Unit
StarsLast (s ∷ t ∷ rest) = (str_eq s (codes "**") ≡ false) × StarsLast (t ∷ rest)

module _ (crate : RegexCrate) where
  open crate use {Regex, new, is_match}

  -- The regex of a segment pattern matches a segment of a path.
  unfoldable pub segment_matches : Str → Str → Bool
  segment_matches s x = elim (new (segment_regex crate s)) [ ok re ↦ is_match re x | _ ↦ false ]

  -- A rule matches a path and everything below it.
  unfoldable pub rule_matches : List Str → List Str → Bool
  rule_matches [] path = false
  rule_matches (s ∷ rest) [] = false
  rule_matches (s ∷ []) (x ∷ path) = if str_eq s (codes "**") then true else segment_matches s x
  rule_matches (s ∷ t ∷ rest) (x ∷ path) = segment_matches s x && rule_matches (t ∷ rest) path

  -- The graphs that such rules build: nothing hangs below a `**`, and the regex of a node is that of
  -- its pattern.
  unfoldable mutual
    pub IsPlain : Node Regex → Type 0
    IsPlain (multi_segment acts ch) = ch ≡ nil
    IsPlain (single_segment p re acts ch) = (new (segment_regex crate p) ≡ ok re) × IsPlainAll ch

    pub IsPlainAll : Nodes Regex → Type 0
    IsPlainAll nil = Unit
    IsPlainAll (cons n ns) = IsPlain n × IsPlainAll ns
