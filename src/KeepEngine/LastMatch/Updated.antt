-- ===== src/KeepEngine/LastMatch/Updated.antt =====
-- How `traverse_add` descends into the children with the next segment's pattern, and what a rule
-- does to the decisions of the whole graph.
use lapas.Prelude.{
  Outcome, ok, ◌>>=◌, >>=-eq-ok, ok-injective, ◌≡◌, refl, inl, inr, true, false, ◌&&◌, Bool-cases,
  Option, List, [], ◌∷◌, arith, if◌then◌else◌,
}
use lapas.Prelude.Text.{Str, codes, str_eq}
use lapas.Prelude.Text.Laws.{eq_iff, str_eq→eq}
use lapas.KeepEngine.Actions.{Actions}
use lapas.KeepEngine.Nodes.{
  RegexCrate, Node, multi_segment, single_segment, Nodes, nil, cons, pattern, children,
  with_children, segment_regex,
}
use lapas.KeepEngine.Graph.{last_has, update_child, update_matching}
use lapas.KeepEngine.LastMatch.{IsPlain, IsPlainAll, segment_matches, rule_matches}
use lapas.KeepEngine.LastMatch.Decided.{instead, decided_by, decided}

module _ (crate : RegexCrate) where
  open crate use {Regex, new, is_match}

  -- The children after a rule was added: plain, and decided by the rule where it matches.
  abbrev pub AddsRule : List Str → Actions → Nodes Regex → Nodes Regex → Type 0
  AddsRule segments acts ns ns' =
      IsPlainAll crate ns'
      × ((path : List Str) (a : Actions)
          → decided crate ns' path a
            ≡ (if rule_matches crate segments path then acts else decided crate ns path a))

module _ (crate : RegexCrate) (s t : Str) (rest : List Str) (acts : Actions)
    (f : Nodes crate.Regex → Outcome (Nodes crate.Regex)) (single : str_eq s (codes "**") ≡ false)
    (adds : (ns ns' : Nodes crate.Regex)
      → f ns ≡ ok ns'
      → IsPlainAll crate ns
      → AddsRule crate (t ∷ rest) acts ns ns') where
  open crate use {Regex, new, is_match}

  updated_single :
      (p : Str) (re : Regex) (ac : Option Actions) (ch0 ch : Nodes Regex)
      → new (segment_regex crate p) ≡ ok re
      → p ≡ s
      → AddsRule crate (t ∷ rest) acts ch0 ch
      → (path : List Str) (a : Actions)
      → decided_by crate (single_segment p re ac ch) path a ≡ (
          if rule_matches crate (s ∷ t ∷ rest) path
          then acts
          else decided_by crate (single_segment p re ac ch0) path a)
  unfolding decided rule_matches segment_matches
  updated_single p re ac ch0 ch h e k [] a = refl
  updated_single p re ac ch0 ch h e k (x ∷ path) a = ground (arith, k.1 path (instead ac a))

  updated_node :
      (n : Node Regex) (ch : Nodes Regex)
      → IsPlain crate n
      → str_eq (pattern n) s ≡ true
      → f (children n) ≡ ok ch
      → IsPlain crate (with_children n ch)
        × ((path : List Str) (a : Actions)
            → decided_by crate (with_children n ch) path a ≡ (
                if rule_matches crate (s ∷ t ∷ rest) path then acts else decided_by crate n path a))
  unfolding IsPlain decided rule_matches segment_matches
  updated_node (multi_segment ac ch0) ch h e k =
      absurd (ground (arith, eq_iff (codes "**") s, eq_iff s (codes "**")))
  updated_node (single_segment p re ac ch0) ch (h, hs) e k =
      let k1 = adds ch0 ch k hs in ((h, k1.0), updated_single p re ac ch0 ch h (str_eq→eq p s e) k1)

  -- One round of `update_matching`.
  updated_round :
      (n n' : Node Regex)
      → IsPlain crate n
      → (if str_eq (pattern n) s then f (children n) >>= (λ ch. ok (with_children n ch)) else ok n)
        ≡ ok n'
      → IsPlain crate n'
        × ((path : List Str) (a : Actions)
            → decided_by crate n' path a ≡ (
                if str_eq (pattern n) s && rule_matches crate (s ∷ t ∷ rest) path
                then acts
                else decided_by crate n path a))
  updated_round n n' h e = elim (Bool-cases (str_eq (pattern n) s)) [
    | inl m ↦
        let (ch, e1, e2) = >>=-eq-ok (f (children n)) _ (rw m at e) in
        let (k, d) = updated_node n ch h m e1 in rw (← ok-injective _ _ e2) (k, rw m d)
    | inr m ↦ rw (← ok-injective _ _ (rw m at e)) (h, λ path a. rw m)
  ]

  pub updated_all :
      (ns ns' : Nodes Regex)
      → update_matching s f ns ≡ ok ns'
      → IsPlainAll crate ns
      → IsPlainAll crate ns'
        × ((path : List Str) (a : Actions)
            → rule_matches crate (s ∷ t ∷ rest) path ≡ false
            → decided crate ns' path a ≡ decided crate ns path a)
        × ((path : List Str) (a : Actions)
            → rule_matches crate (s ∷ t ∷ rest) path ≡ true
            → last_has s ns ≡ true
            → decided crate ns' path a ≡ acts)
  unfolding update_matching decided IsPlain last_has
  updated_all nil ns' e h = rw (← ok-injective _ _ e) (tt, λ path a m. refl, λ path a m l. cc)
  updated_all (cons n nil) ns' e (h, hs) =
      let (n1, e1, e2) = >>=-eq-ok (update_child s f n) _ e in
      let (h1, d1) = updated_round n n1 h e1 in
      rw (← ok-injective _ _ e2)
        ((h1, tt), λ path a m. ground (arith, d1 path a), λ path a m l. ground (arith, d1 path a))
  updated_all (cons n (cons m ms)) ns' e (h, hs) =
      let (n1, e1, e2) = >>=-eq-ok (update_child s f n) _ e in
      let (ns1, e3, e4) = >>=-eq-ok (update_matching s f (cons m ms)) _ e2 in
      let (h1, d1) = updated_round n n1 h e1 in
      let (k, miss, hit) = updated_all (cons m ms) ns1 e3 hs in
      rw (← ok-injective _ _ e4) (
        (h1, k),
        λ path a q. ground (arith, d1 path a, miss path (decided_by crate n1 path a)),
        λ path a q l. hit path _ q l,
      )
