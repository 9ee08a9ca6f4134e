-- ===== src/KeepEngine/Tests/Graphs.antt =====
-- The theorems on the decision graph at concrete rules.
use lapas.Prelude.{Outcome, ok, panic, ◌>>=◌, ◌≡◌, refl, false, none, some, [], ◌∷◌, ◌++◌, arith}
use lapas.Prelude.Text.{Str, codes, split, lines}
use lapas.Prelude.Text.Utf8.{is_utf8}
use lapas.KeepEngine.Actions.{delete, keep, ActionResult, Actions}
use lapas.KeepEngine.Nodes.{
  Node, nil, cons, multi_segment, single_segment, segment_regex, get_action, multi_rounds,
}
use lapas.KeepEngine.Graph.{
  DecisionGraph, parse_rules, add_lines, is_rule_line, add_rule_from_str, parse_rule, add_rule,
  traverse_add, new_graph, decide_path, node_from_segment_pattern, undecided,
}
use lapas.KeepEngine.LastMatch.ParseRules.{
  rules_of, keep_rule, AllStarsLast, last_match, default_actions, decide_path-parse_rules,
}
use lapas.KeepEngine.Dot.{
  write_dot_to_file, write_dot_to_str, write_dot_all, output, node_lines, action_str,
}
use lapas.KeepEngine.Descend.{decide_path_below}
use lapas.KeepEngine.Stars.{multi_segment_ignores, multi_segment_panics}
use lapas.KeepEngine.Tests.Globs.{globs}

abbrev pub content : Str
content =
    codes "base:delete user:keep **"
    ++ (10 ∷ codes "# b" ++ (10 ∷ codes "base:keep user:delete a/b*" ++ (10 ∷ [])))

pub read : Str → Outcome (DecisionGraph globs.Regex)
unfolding parse_rules lines add_lines is_utf8 is_rule_line add_rule_from_str parse_rule add_rule
    traverse_add new_graph globs node_from_segment_pattern segment_regex
read text = parse_rules globs (some text)

or_nothing : Outcome (DecisionGraph globs.Regex) → DecisionGraph globs.Regex
or_nothing (ok g) = g
or_nothing _ = record { roots = nil }

unfoldable pub graph : DecisionGraph globs.Regex
unfolding read or_nothing
graph = or_nothing (read content)

pub graph_lem : parse_rules globs (some content) ≡ ok graph
unfolding graph
graph_lem = refl

pub content-AllStarsLast : AllStarsLast (rules_of (lines content))
unfolding rules_of is_rule_line parse_rule lines
content-AllStarsLast = (tt, ((refl, tt), tt))

decide_path-parse_rules_example :
    (r : ActionResult) × (decide_path globs graph (codes "a/bc/d") ≡ ok r)
    × (r.actions
        ≡ last_match globs
            (rules_of (lines content) ++ (keep_rule ∷ []))
            (split b'/' (codes "a/bc/d"))
            (default_actions globs (split b'/' (codes "a/bc/d")) undecided.actions))
unfolding is_utf8
decide_path-parse_rules_example =
    decide_path-parse_rules globs content graph (codes "a/bc/d") content-AllStarsLast graph_lem refl

abbrev kept_below : ActionResult
kept_below = record { actions = record { base = keep; user = delete }; descend = false }

decide_path_below_example :
    (s : ActionResult) × (decide_path globs graph (codes "a/bc" ++ (b'/' ∷ codes "d/e")) ≡ ok s)
    × (s.actions ≡ kept_below.actions)
unfolding is_utf8 graph decide_path globs
decide_path_below_example =
    decide_path_below globs graph (codes "a/bc") (codes "d/e") kept_below refl refl refl

abbrev own : Actions
own = record { base = keep; user = delete }

any_regex : globs.Regex
unfolding globs
any_regex = []

abbrev leaf : Node globs.Regex
leaf = single_segment (codes "x") any_regex (some own) nil

multi_segment_ignores_example :
    (s : ActionResult) × (get_action globs
        (multi_segment none (cons leaf nil))
        (codes "a" ∷ codes "x" ∷ [])
        undecided
      ≡ ok s)
    × (s.actions ≡ undecided.actions)
multi_segment_ignores_example =
    multi_segment_ignores globs none (cons leaf nil) (codes "a" ∷ codes "x" ∷ []) undecided
      (omega arith)

multi_segment_panics_example :
    get_action globs
      (multi_segment none (cons leaf (cons leaf (cons leaf nil))))
      (codes "a" ∷ [])
      undecided
    ≡ panic
multi_segment_panics_example =
    multi_segment_panics globs none (some own) (codes "x") (codes "a") any_regex nil leaf leaf nil
      undecided

-- Three rules below one `**` make the decision on any name panic.
stars_panic :
    (read (
        codes "base:delete user:keep **"
        ++ (10 ∷ codes "base:keep user:keep **/a"
            ++ (10 ∷ codes "base:keep user:keep **/b" ++ (10 ∷ codes "base:keep user:keep **/c"))))
      >>= (λ g. decide_path globs g (codes "x")))
    ≡ panic
unfolding read decide_path globs multi_rounds
stars_panic = refl

-- The graph of one node, with the numbers of its identifiers as texts.
drawn :
    write_dot_to_file (λ n. n ∷ []) (ok tt) (ok tt) [] (record { roots = cons leaf nil }) none
    ≡ record {
      after = some (
          codes "digraph patterns {\nnode [shape=box];\ngraph [ rankdir=\"LR\" ];\n"
          ++ (codes "\"root\" [shape=\"diamond\"];\n\""
              ++ (0
                    ∷ codes
                        "\" [label=\"<f0> x| <f1> base: Keep, user: Delete\", shape=\"record\"];\n"
                  ++ (codes "\"root\" -> \"" ++ (0 ∷ codes "\";\n}")))));
      result = ok tt;
    }
unfolding write_dot_to_file output write_dot_to_str write_dot_all node_lines action_str
drawn = refl
