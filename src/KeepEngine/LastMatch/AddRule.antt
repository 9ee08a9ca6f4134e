-- ===== src/KeepEngine/LastMatch/AddRule.antt =====
-- What `traverse_add` of bin/keepEngine/src/decisiongraph.rs does to the decisions of a plain graph.
use lapas.Prelude.{
  ok, ◌>>=◌, >>=-eq-ok, ok-injective, ◌≡◌, refl, ◌∙◌, inl, inr, true, not, Bool-cases, none, some,
  List, [], ◌∷◌, arith, if◌then◌else◌,
}
use lapas.Prelude.Text.{Str}
use lapas.KeepEngine.Actions.{Actions}
use lapas.KeepEngine.Nodes.{RegexCrate, Node, Nodes}
use lapas.KeepEngine.Graph.{push, retain, last_has, node_from_segment_pattern, traverse_add}
use lapas.KeepEngine.LastMatch.{IsPlainAll, StarsLast, rule_matches}
use lapas.KeepEngine.LastMatch.Decided.{decided}
use lapas.KeepEngine.LastMatch.Added.{
  decided-push, push-IsPlainAll, last_has-push, retain-IsPlainAll, decided-retain, new_node-IsPlain,
  new_node-decides, new_node-silent,
}
use lapas.KeepEngine.LastMatch.Updated.{AddsRule, updated_all}

module _ (crate : RegexCrate) where
  open crate use {Regex}

  -- The node that `traverse_add` makes sure of before it descends.
  ensured :
      (s : Str) (ns ns' : Nodes Regex)
      → (if not (last_has s ns)
          then node_from_segment_pattern crate s none >>= (λ n. ok (push ns n))
          else ok ns)
        ≡ ok ns'
      → IsPlainAll crate ns
      → IsPlainAll crate ns'
        × (last_has s ns' ≡ true)
        × ((path : List Str) (a : Actions) → decided crate ns' path a ≡ decided crate ns path a)
  ensured s ns ns' e h = elim (Bool-cases (last_has s ns)) [
    | inl m ↦ rw (← ok-injective _ _ (rw m at e)) (h, m, λ path a. refl)
    | inr m ↦
        let (n, e1, e2) = >>=-eq-ok (node_from_segment_pattern crate s none) _ (rw m at e) in
        let (k, p) = new_node-IsPlain crate s none n e1 in
        rw (← ok-injective _ _ e2) (
          push-IsPlainAll crate ns n h k,
          last_has-push crate s ns n p,
          λ path a.
              decided-push crate ns n path a
              ∙ new_node-silent crate s n path (decided crate ns path a) e1,
        )
  ]

  -- The last segment replaces the nodes with its pattern.
  replaced :
      (s : Str) (acts : Actions) (ns : Nodes Regex) (n : Node Regex)
      → node_from_segment_pattern crate s (some acts) ≡ ok n
      → IsPlainAll crate ns
      → AddsRule crate (s ∷ []) acts ns (push (retain s ns) n)
  replaced s acts ns n e h =
      let (k, _) = new_node-IsPlain crate s (some acts) n e in
      (
        push-IsPlainAll crate (retain s ns) n (retain-IsPlainAll crate s ns h) k,
        λ path a. ground (
          arith,
          decided-push crate (retain s ns) n path a,
          new_node-decides crate s acts n path (decided crate (retain s ns) path a) e,
          decided-retain crate s ns path a h,
        ),
      )

  -- A rule that was added decides the paths that it matches and no others.
  pub traverse_add-AddsRule :
      (segments : List Str) (acts : Actions) (ns ns' : Nodes Regex)
      → StarsLast segments
      → traverse_add crate segments acts ns ≡ ok ns'
      → IsPlainAll crate ns
      → AddsRule crate segments acts ns ns'
  unfolding traverse_add
  traverse_add-AddsRule [] acts ns ns' w e h = cc
  traverse_add-AddsRule (s ∷ []) acts ns ns' w e h =
      let made = node_from_segment_pattern crate s (some acts) in
      let (ns1, e1, e2) = >>=-eq-ok (made >>= (λ n. ok (push (retain s ns) n))) _ e in
      let (n, e3, e4) = >>=-eq-ok made _ e1 in
      rw (← ok-injective _ _ e2, ← ok-injective _ _ e4) (replaced s acts ns n e3 h)
  traverse_add-AddsRule (s ∷ t ∷ rest) acts ns ns' (single, w) e h =
      let (ns1, e1, e2) =
        >>=-eq-ok
          (if not (last_has s ns)
            then node_from_segment_pattern crate s none >>= (λ n. ok (push ns n))
            else ok ns)
          _ e in
      let (h1, l, d) = ensured s ns ns1 e1 h in
      let (k, miss, hit) =
        updated_all crate s t rest acts (traverse_add crate (t ∷ rest) acts) single
          (λ ms ms' p q. traverse_add-AddsRule (t ∷ rest) acts ms ms' w p q) ns1 ns' e2 h1 in
      (
        k,
        λ path a. elim (Bool-cases (rule_matches crate (s ∷ t ∷ rest) path)) [
          | inl q ↦ rw q (hit path a q l)
          | inr q ↦ rw q (miss path a q ∙ d path a)
        ],
      )
