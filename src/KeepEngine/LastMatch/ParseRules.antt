-- ===== src/KeepEngine/LastMatch/ParseRules.antt =====
-- `parse_rules` of bin/keepEngine/src/main.rs against the meaning of the rules in the file.
use lapas.Prelude.{
  ok, err, panic, assert, unwrap, unwrap-eq-ok, >>=-eq-ok, ok-injective, ◌≡◌, ◌≢◌, refl, ◌∙◌, ap,
  inl, inr, true, false, Bool-cases, some, List, [], ◌∷◌, ◌++◌, arith, if◌then◌else◌, All,
}
use lapas.Prelude.Text.{Str, codes, split, lines}
use lapas.Prelude.Text.Laws.{split-ne-nil}
use lapas.Prelude.Text.Utf8.{is_utf8}
use lapas.KeepEngine.Actions.{Actions, ActionResult, delete, keep}
use lapas.KeepEngine.Nodes.{
  RegexCrate, Nodes, nil, cons, segment_regex, from_pattern, get_action_all, single_segment,
}
use lapas.KeepEngine.Graph.{
  DecisionGraph, Rule, parse_rule, is_rule_line, add_rule, add_rule_from_str, new_graph,
  traverse_add, add_lines, parse_rules, decide_path, undecided,
}
use lapas.KeepEngine.LastMatch.{IsPlain, IsPlainAll, StarsLast, rule_matches, segment_matches}
use lapas.KeepEngine.LastMatch.Decided.{decided, get_action_all-decided}
use lapas.KeepEngine.LastMatch.AddRule.{traverse_add-AddsRule}

-- The rules that a file's lines state, in order.
unfoldable pub rules_of : List Str → List Rule
rules_of [] = []
rules_of (line ∷ rest) =
    let more = rules_of rest in
    if is_rule_line line
    then elim (parse_rule line) [ ok r ↦ r ∷ more | err e ↦ more | panic ↦ more ]
    else more

rules_of_rule :
    (line : Str) (ls : List Str) (r : Rule)
    → is_rule_line line ≡ true
    → parse_rule line ≡ ok r
    → rules_of (line ∷ ls) ≡ r ∷ rules_of ls
unfolding rules_of
rules_of_rule line ls r m p = rw (m, p)

rules_of_skipped :
    (line : Str) (ls : List Str) → is_rule_line line ≡ false → rules_of (line ∷ ls) ≡ rules_of ls
unfolding rules_of
rules_of_skipped line ls m = rw m

-- The rule that `parse_rules` adds behind those of the file.
abbrev pub keep_rule : Rule
keep_rule = record {
  segments = codes ".keep" ∷ [];
  actions = record { base = keep; user = delete };
}

abbrev pub delete_base : Actions
delete_base = record { base = delete; user = keep }

abbrev pub AllStarsLast : List Rule → Type 0
AllStarsLast rs = All (λ (r : Rule). StarsLast r.segments) rs

module _ (crate : RegexCrate) where
  open crate use {Regex, new}

  -- The last rule that matches a path decides it, and `a` where none does.
  unfoldable pub last_match : List Rule → List Str → Actions → Actions
  last_match [] path a = a
  last_match (r ∷ rs) path a =
      last_match rs path (if rule_matches crate r.segments path then r.actions else a)

  last_match-append :
      (rs more : List Rule) (path : List Str) (a : Actions)
      → last_match (rs ++ more) path a ≡ last_match more path (last_match rs path a)
  unfolding last_match
  last_match-append [] more path a = refl
  last_match-append (r ∷ rs) more path a = last_match-append rs more path _

  -- What a new graph decides.
  unfoldable pub default_actions : List Str → Actions → Actions
  default_actions [] a = a
  default_actions (x ∷ path) a = if segment_matches crate (codes "**") x then delete_base else a

  abbrev Follows : DecisionGraph Regex → List Rule → DecisionGraph Regex → Type 0
  Follows g rs g' =
      IsPlainAll crate g'.roots
      × ((path : List Str) (a : Actions)
          → decided crate g'.roots path a ≡ last_match rs path (decided crate g.roots path a))

  add_rule-Follows :
      (g g' : DecisionGraph Regex) (r : Rule)
      → StarsLast r.segments
      → add_rule crate g r.segments r.actions ≡ ok g'
      → IsPlainAll crate g.roots
      → Follows g (r ∷ []) g'
  unfolding add_rule last_match
  add_rule-Follows g g' r w e h =
      let (ns, e1, e2) = >>=-eq-ok (traverse_add crate r.segments r.actions g.roots) _ e in
      rw (← ok-injective _ _ e2)
        (traverse_add-AddsRule crate r.segments r.actions g.roots ns w e1 h)

  add_lines-Follows :
      (ls : List Str) (g g' : DecisionGraph Regex)
      → AllStarsLast (rules_of ls)
      → add_lines crate g ls ≡ ok g'
      → IsPlainAll crate g.roots
      → Follows g (rules_of ls) g'
  unfolding add_lines add_rule_from_str last_match
  add_lines-Follows [] g g' w e h = unfold rules_of in rw (← ok-injective _ _ e) (h, λ path a. refl)
  add_lines-Follows (line ∷ ls) g g' w e h =
      let (_, _, e1) = >>=-eq-ok (assert (is_utf8 line)) _ e in
      let (g1, e2, e3) =
        >>=-eq-ok (if is_rule_line line then add_rule_from_str crate g line else ok g) _ e1 in
      elim (Bool-cases (is_rule_line line)) [
        | inl m ↦
            let (r, p, q) = >>=-eq-ok (parse_rule line) _ (rw m at e2) in
            let k = rules_of_rule line ls r m p in
            let (w1, w2) = rw k at w in
            let (h1, d1) = add_rule-Follows g g1 r w1 q h in
            let (h2, d2) = add_lines-Follows ls g1 g' w2 e3 h1 in
            rw k (h2, λ path a. d2 path a ∙ ap (last_match (rules_of ls) path) (d1 path a))
        | inr m ↦
            let k = rules_of_skipped line ls m in
            let same = ok-injective _ _ (rw m at e2) in
            rw (k, same) (add_lines-Follows ls g1 g' (rw k at w) e3 (rw same at h))
      ]

  decided_new :
      (re : Regex)
      → new (segment_regex crate (codes "**")) ≡ ok re
      → (path : List Str) (a : Actions)
      → decided crate (cons (single_segment (codes "**") re (some delete_base) nil) nil) path a
        ≡ default_actions path a
  unfolding decided default_actions segment_matches
  decided_new re h [] a = refl
  decided_new re h (x ∷ path) a = ground arith

  new_graph_lem :
      (g : DecisionGraph Regex)
      → new_graph crate ≡ ok g
      → IsPlainAll crate g.roots
        × ((path : List Str) (a : Actions) → decided crate g.roots path a ≡ default_actions path a)
  unfolding new_graph from_pattern IsPlain
  new_graph_lem g e =
      let made = from_pattern crate (codes "**") (some delete_base) in
      let built = from_pattern crate (codes "**") (some delete_base) in
      let (n, e1, e2) = >>=-eq-ok (unwrap built) _ e in
      let (re, h, k) =
        >>=-eq-ok (new (segment_regex crate (codes "**"))) _ (unwrap-eq-ok built n e1) in
      rw (← ok-injective _ _ e2, ← ok-injective _ _ k)
        (((h, tt), tt), λ path a. decided_new re h path a)

  get_action_all-nonempty :
      (ns : Nodes Regex) (path : List Str)
      → path ≢ []
      → IsPlainAll crate ns
      → (r : ActionResult) × (get_action_all crate ns path undecided ≡ ok r)
        × (r.actions ≡ decided crate ns path undecided.actions)
  get_action_all-nonempty ns [] p h = absurd (p refl)
  get_action_all-nonempty ns (x ∷ path) p h = get_action_all-decided crate ns x path undecided h

  keep_line : parse_rule (codes "base:keep user:delete .keep") ≡ ok keep_rule
  unfolding parse_rule
  keep_line = refl

  parse_rules-Follows :
      (content : Str) (g : DecisionGraph Regex)
      → AllStarsLast (rules_of (lines content))
      → parse_rules crate (some content) ≡ ok g
      → IsPlainAll crate g.roots
        × ((path : List Str) (a : Actions)
            → decided crate g.roots path a
              ≡ last_match
                  (rules_of (lines content) ++ (keep_rule ∷ []))
                  path
                  (default_actions path a))
  unfolding parse_rules add_rule_from_str
  parse_rules-Follows content g w e =
      let (g0, e0, r0) = >>=-eq-ok (new_graph crate) _ e in
      let (g1, e1, r1) = >>=-eq-ok (add_lines crate g0 (lines content)) _ r0 in
      let (h0, d0) = new_graph_lem g0 e0 in
      let (h1, d1) = add_lines-Follows (lines content) g0 g1 w e1 h0 in
      let (h2, d2) = add_rule-Follows g1 g keep_rule tt (rw (keep_line) at r1) h1 in
      (h2, λ path a. rw (d2 path a, last_match-append, d1 path a, d0 path a))

  -- For a .keep file that is read without an error, whose rules have `**` only as a last segment:
  -- the decision on any UTF-8 path returns, and its actions are those of the last rule that matches
  -- the path, the enforced rule for `.keep` standing behind those of the file; where no rule
  -- matches they are those of the node that a new graph holds.
  pub decide_path-parse_rules :
      (content : Str) (g : DecisionGraph Regex) (path : Str)
      → AllStarsLast (rules_of (lines content))
      → parse_rules crate (some content) ≡ ok g
      → is_utf8 path ≡ true
      → (r : ActionResult) × (decide_path crate g path ≡ ok r)
        × (r.actions
            ≡ last_match
                (rules_of (lines content) ++ (keep_rule ∷ []))
                (split b'/' path)
                (default_actions (split b'/' path) undecided.actions))
  unfolding decide_path
  decide_path-parse_rules content g path w e u =
      let (h, d) = parse_rules-Follows content g w e in
      let (r, f, k) =
        get_action_all-nonempty g.roots (split b'/' path) (split-ne-nil b'/' path) h in
      (r, rw u f, k ∙ d (split b'/' path) undecided.actions)
