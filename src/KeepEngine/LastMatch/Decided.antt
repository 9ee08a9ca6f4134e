-- ===== src/KeepEngine/LastMatch/Decided.antt =====
-- What the nodes of a plain graph decide, without the bookkeeping of `get_action`.
use lapas.Prelude.{
  Outcome, ok, ◌≡◌, refl, inl, inr, Bool-cases, Option, none, some, List, [], ◌∷◌, arith, ◌==◌,
  if◌then◌else◌,
}
use lapas.Prelude.Text.{Str}
use lapas.KeepEngine.Actions.{Actions, ActionResult, override, set_descend}
use lapas.KeepEngine.Nodes.{
  RegexCrate, Node, multi_segment, single_segment, Nodes, nil, cons, count, get_action,
  get_action_all,
}
use lapas.KeepEngine.LastMatch.{IsPlain, IsPlainAll}

-- The actions of a node, if it has some, in place of those before.
abbrev pub instead : Option Actions → Actions → Actions
instead none a = a
instead (some b) a = b

override-instead :
    (acts : Option Actions) (r : ActionResult) → (override acts r).actions ≡ instead acts r.actions
override-instead none r = refl
override-instead (some b) r = refl

module _ (crate : RegexCrate) where
  open crate use {Regex, is_match}

  unfoldable mutual
    pub decided_by : Node Regex → List Str → Actions → Actions
    decided_by (multi_segment acts ch) [] a = a
    decided_by (multi_segment acts ch) (x ∷ path) a = instead acts a
    decided_by (single_segment p re acts ch) [] a = a
    decided_by (single_segment p re acts ch) (x ∷ path) a =
        let deeper = decided ch path (instead acts a) in if is_match re x then deeper else a

    pub decided : Nodes Regex → List Str → Actions → Actions
    decided nil path a = a
    decided (cons n ns) path a = decided ns path (decided_by n path a)

  pub decided-nil : (ns : Nodes Regex) (a : Actions) → decided ns [] a ≡ a
  unfolding decided
  decided-nil nil a = refl
  decided-nil (cons (multi_segment acts ch) ns) a = decided-nil ns a
  decided-nil (cons (single_segment p re acts ch) ns) a = decided-nil ns a

  abbrev Decides : Outcome ActionResult → Actions → Type 0
  Decides o a = (r : ActionResult) × (o ≡ ok r) × (r.actions ≡ a)

  mutual
    unfolding get_action decided IsPlain

    get_action-decided_by :
        (n : Node Regex) (x : Str) (path : List Str) (r : ActionResult)
        → IsPlain crate n
        → Decides (get_action crate n (x ∷ path) r) (decided_by n (x ∷ path) r.actions)
    get_action-decided_by (multi_segment acts nil) x path r h =
        (override acts r, refl, override-instead acts r)
    get_action-decided_by (multi_segment acts (cons c ch)) x path r h = cc
    get_action-decided_by (single_segment p re acts ch) x [] r (h, hs) = (
      if is_match re x
          then (if count ch == 0 then override acts r else set_descend (override acts r))
          else r,
      ground arith,
      ground (arith, decided-nil ch (instead acts r.actions), override-instead acts r),
    )
    get_action-decided_by (single_segment p re acts ch) x (y ∷ path) r (h, hs) =
        elim (Bool-cases (is_match re x)) [
          | inl m ↦
              let (r1, e1, h1) = get_action_all-decided ch y path (override acts r) hs in
              (r1, rw m e1, rw m (rw (override-instead acts r) at h1))
          | inr m ↦ (r, rw m, rw m)
        ]

    pub get_action_all-decided :
        (ns : Nodes Regex) (x : Str) (path : List Str) (r : ActionResult)
        → IsPlainAll crate ns
        → Decides (get_action_all crate ns (x ∷ path) r) (decided ns (x ∷ path) r.actions)
    get_action_all-decided nil x path r h = (r, refl, refl)
    get_action_all-decided (cons n ns) x path r (h, hs) =
        let (r1, e1, h1) = get_action-decided_by n x path r h in
        let (r2, e2, h2) = get_action_all-decided ns x path r1 hs in (r2, rw e1 e2, rw (← h1) h2)
