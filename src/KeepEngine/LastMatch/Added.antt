-- ===== src/KeepEngine/LastMatch/Added.antt =====
-- What `traverse_add` does to the decisions of a plain graph.
use lapas.Prelude.{
  ok, >>=-eq-ok, ◌≡◌, refl, sym, ◌⊎◌, inl, inr, true, false, Bool-cases, Option, none, some, List,
  [], ◌∷◌, arith, if◌then◌else◌,
}
use lapas.Prelude.Text.{Str, codes, str_eq}
use lapas.Prelude.Text.Laws.{eq_iff, str_eq→eq, str_eq_refl}
use lapas.KeepEngine.Actions.{Actions}
use lapas.KeepEngine.Nodes.{
  RegexCrate, Node, multi_segment, single_segment, Nodes, nil, cons, pattern, segment_regex,
  from_pattern,
}
use lapas.KeepEngine.Graph.{push, retain, last_has, node_from_segment_pattern}
use lapas.KeepEngine.LastMatch.{IsPlain, IsPlainAll, segment_matches, rule_matches}
use lapas.KeepEngine.LastMatch.Decided.{decided_by, decided}

module _ (crate : RegexCrate) where
  open crate use {Regex, new, is_match}

  pub decided-push :
      (ns : Nodes Regex) (n : Node Regex) (path : List Str) (a : Actions)
      → decided crate (push ns n) path a ≡ decided_by crate n path (decided crate ns path a)
  unfolding push decided
  decided-push nil n path a = refl
  decided-push (cons m ms) n path a = decided-push ms n path _

  pub push-IsPlainAll :
      (ns : Nodes Regex) (n : Node Regex)
      → IsPlainAll crate ns
      → IsPlain crate n
      → IsPlainAll crate (push ns n)
  unfolding push IsPlain
  push-IsPlainAll nil n h k = (k, tt)
  push-IsPlainAll (cons m ms) n (h, hs) k = (h, push-IsPlainAll ms n hs k)

  pub last_has-push :
      (s : Str) (ns : Nodes Regex) (n : Node Regex) → pattern n ≡ s → last_has s (push ns n) ≡ true
  unfolding last_has push
  last_has-push s nil n e = rw e (str_eq_refl s)
  last_has-push s (cons m nil) n e = rw e (str_eq_refl s)
  last_has-push s (cons m (cons k ks)) n e = last_has-push s (cons k ks) n e

  pub retain-IsPlainAll :
      (s : Str) (ns : Nodes Regex) → IsPlainAll crate ns → IsPlainAll crate (retain s ns)
  unfolding retain IsPlain
  retain-IsPlainAll s nil h = tt
  retain-IsPlainAll s (cons n ns) (h, hs) = elim (Bool-cases (str_eq (pattern n) s)) [
    | inl e ↦ rw e (retain-IsPlainAll s ns hs)
    | inr e ↦ rw e (h, retain-IsPlainAll s ns hs)
  ]

  -- A node whose pattern is the rule's only segment has no say on a path that the rule misses.
  decided_by_missed :
      (s : Str) (n : Node Regex) (path : List Str) (a : Actions)
      → IsPlain crate n
      → pattern n ≡ s
      → rule_matches crate (s ∷ []) path ≡ false
      → decided_by crate n path a ≡ a
  unfolding decided IsPlain rule_matches segment_matches
  decided_by_missed s (multi_segment acts ch) [] a h e m = refl
  decided_by_missed s (multi_segment acts ch) (x ∷ path) a h e m =
      ground (arith, (eq_iff s (codes "**")).1 (sym e))
  decided_by_missed s (single_segment p re acts ch) [] a h e m = refl
  decided_by_missed s (single_segment p re acts ch) (x ∷ path) a (h, hs) e m = ground arith

  pub decided-retain :
      (s : Str) (ns : Nodes Regex) (path : List Str) (a : Actions)
      → IsPlainAll crate ns
      → rule_matches crate (s ∷ []) path ≡ false
      → decided crate (retain s ns) path a ≡ decided crate ns path a
  unfolding retain decided IsPlain
  decided-retain s nil path a h m = refl
  decided-retain s (cons n ns) path a (h, hs) m = elim (Bool-cases (str_eq (pattern n) s)) [
    | inl e ↦
        rw (e, decided_by_missed s n path a h (str_eq→eq _ s e) m) (decided-retain s ns path a hs m)
    | inr e ↦ rw e (decided-retain s ns path (decided_by crate n path a) hs m)
  ]

  -- The node that a segment becomes.
  abbrev NewNode : Str → Option Actions → Node Regex → Type 0
  NewNode s acts n =
      ((str_eq s (codes "**") ≡ true) × (n ≡ multi_segment acts nil))
      ⊎ ((str_eq s (codes "**") ≡ false)
          × (re : Regex) × (new (segment_regex crate s) ≡ ok re)
          × (n ≡ single_segment s re acts nil))

  node_from_segment_pattern-NewNode :
      (s : Str) (acts : Option Actions) (n : Node Regex)
      → node_from_segment_pattern crate s acts ≡ ok n
      → NewNode s acts n
  unfolding node_from_segment_pattern from_pattern
  node_from_segment_pattern-NewNode s acts n e = elim (Bool-cases (str_eq s (codes "**"))) [
    | inl m ↦ inl (m, ground arith)
    | inr m ↦
        let built : from_pattern crate s acts ≡ ok n = ground arith in
        let (re, h, k) = >>=-eq-ok (new (segment_regex crate s)) _ built in
        inr (m, re, h, ground arith)
  ]

  pub new_node-IsPlain :
      (s : Str) (acts : Option Actions) (n : Node Regex)
      → node_from_segment_pattern crate s acts ≡ ok n
      → IsPlain crate n × (pattern n ≡ s)
  unfolding IsPlain
  new_node-IsPlain s acts n e = elim (node_from_segment_pattern-NewNode s acts n e) [
    | inl (m, k) ↦ rw k (refl, sym (str_eq→eq _ _ m))
    | inr (m, re, h, k) ↦ rw k ((h, tt), refl)
  ]

  pub new_node-decides :
      (s : Str) (acts : Actions) (n : Node Regex) (path : List Str) (a : Actions)
      → node_from_segment_pattern crate s (some acts) ≡ ok n
      → decided_by crate n path a ≡ (if rule_matches crate (s ∷ []) path then acts else a)
  unfolding decided rule_matches segment_matches
  new_node-decides s acts n [] a e = elim (node_from_segment_pattern-NewNode s (some acts) n e) [
    | inl (m, k) ↦ rw k
    | inr (m, re, h, k) ↦ rw k
  ]
  new_node-decides s acts n (x ∷ path) a e =
      elim (node_from_segment_pattern-NewNode s (some acts) n e) [
        | inl (m, k) ↦ rw (k, m)
        | inr (m, re, h, k) ↦ rw k (ground arith)
      ]

  pub new_node-silent :
      (s : Str) (n : Node Regex) (path : List Str) (a : Actions)
      → node_from_segment_pattern crate s none ≡ ok n
      → decided_by crate n path a ≡ a
  unfolding decided
  new_node-silent s n [] a e = elim (node_from_segment_pattern-NewNode s none n e) [
    | inl (m, k) ↦ rw k
    | inr (m, re, h, k) ↦ rw k
  ]
  new_node-silent s n (x ∷ path) a e = elim (node_from_segment_pattern-NewNode s none n e) [
    | inl (m, k) ↦ rw k
    | inr (m, re, h, k) ↦ rw k (ground arith)
  ]
