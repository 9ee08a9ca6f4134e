-- ===== src/KeepEngine/Descend.antt =====
-- What `descend` promises. `apply_keep` removes or keeps a folder as a whole where `descend` is
-- false, so the decision on everything below it must then be the decision on the folder.
use lapas.Prelude.{
  ℕ, zero, suc, ◌+◌, Outcome, ok, assert, >>=-eq-ok, ◌≡◌, refl, sym, inl, inr, Bool, true, false,
  Bool-cases, Option, none, some, List, [], ◌∷◌, ◌++◌, arith, length, ◌==◌, if◌then◌else◌,
}
use lapas.Prelude.Text.{Str, split}
use lapas.Prelude.Text.Laws.{split_both}
use lapas.Prelude.Text.Utf8.{is_utf8}
use lapas.KeepEngine.Graph.{DecisionGraph, decide_path, undecided}
use lapas.KeepEngine.Actions.{Actions, ActionResult, override, set_descend}
use lapas.KeepEngine.Nodes.{
  RegexCrate, Node, multi_segment, single_segment, Nodes, nil, cons, slice_from, multi_rounds,
  get_action, get_action_all,
}

-- A visit never takes `descend` back.
abbrev KeepsDescend : (List Str → ActionResult → Outcome ActionResult) → Type 0
KeepsDescend f =
    (segments : List Str) (a r : ActionResult)
    → f segments a ≡ ok r
    → r.descend ≡ false
    → a.descend ≡ false

-- Where a visit leaves `descend` unset, it decides every longer path alike.
abbrev DecidesBelow : (List Str → ActionResult → Outcome ActionResult) → Type 0
DecidesBelow f =
    (segments more : List Str) (a b r : ActionResult)
    → f segments a ≡ ok r
    → r.descend ≡ false
    → a.actions ≡ b.actions
    → (s : ActionResult) × (f (segments ++ more) b ≡ ok s) × (s.actions ≡ r.actions)

override-descend :
    (acts : Option Actions) (r : ActionResult) → (override acts r).descend ≡ r.descend
override-descend none r = refl
override-descend (some a) r = refl

override-actions :
    (acts : Option Actions) (a b : ActionResult)
    → a.actions ≡ b.actions
    → (override acts a).actions ≡ (override acts b).actions
override-actions none a b h = h
override-actions (some x) a b h = refl

mark-actions :
    (x y : Bool) (a b : ActionResult)
    → a.actions ≡ b.actions
    → (if x then set_descend a else a).actions ≡ (if y then set_descend b else b).actions
mark-actions true true a b h = h
mark-actions true false a b h = h
mark-actions false true a b h = h
mark-actions false false a b h = h

slice_from-append :
    (i : ℕ) (segments more rest : List Str)
    → slice_from i segments ≡ ok rest
    → slice_from i (segments ++ more) ≡ ok (rest ++ more)
unfolding slice_from
slice_from-append zero segments more rest e = ground arith
slice_from-append (suc i) [] more rest e = cc
slice_from-append (suc i) (s ∷ segments) more rest e = slice_from-append i segments more rest e

module _ (visit : List Str → ActionResult → Outcome ActionResult) where
  multi_rounds-KeepsDescend : KeepsDescend visit → (n i : ℕ) → KeepsDescend (multi_rounds n i visit)
  unfolding multi_rounds
  multi_rounds-KeepsDescend h zero i segments a r e d = ground arith
  multi_rounds-KeepsDescend h (suc n) i segments a r e d =
      let (rest, _, e1) = >>=-eq-ok (slice_from i segments) _ e in
      let (r1, e2, e3) = >>=-eq-ok (visit rest a) _ e1 in
      h rest a r1 e2 (multi_rounds-KeepsDescend h n (i + 1) segments r1 r e3 d)

  multi_rounds-DecidesBelow :
      KeepsDescend visit → DecidesBelow visit → (n i : ℕ) → DecidesBelow (multi_rounds n i visit)
  unfolding multi_rounds
  multi_rounds-DecidesBelow keeps below zero i segments more a b r e d h = (b, refl, ground arith)
  multi_rounds-DecidesBelow keeps below (suc n) i segments more a b r e d h =
      let (rest, e0, e1) = >>=-eq-ok (slice_from i segments) _ e in
      let (r1, e2, e3) = >>=-eq-ok (visit rest a) _ e1 in
      let d1 = multi_rounds-KeepsDescend keeps n (i + 1) segments r1 r e3 d in
      let (s1, f1, g1) = below rest more a b r1 e2 d1 h in
      let (s, f2, g2) =
        multi_rounds-DecidesBelow keeps below n (i + 1) segments more r1 s1 r e3 d (sym g1) in
      (s, rw (slice_from-append i segments more rest e0, f1) f2, g2)

module _ (crate : RegexCrate) where
  open crate use {Regex, is_match}

  mutual
    unfolding get_action

    get_action-KeepsDescend : (n : Node Regex) → KeepsDescend (get_action crate n)
    get_action-KeepsDescend (multi_segment acts nil) segments a r e d =
        ground (arith, override-descend acts a)
    get_action-KeepsDescend (multi_segment acts (cons c ch)) segments a r e d = ground (
      arith,
      override-descend acts a,
      multi_rounds-KeepsDescend (get_action_all crate (cons c ch))
          (get_action_all-KeepsDescend (cons c ch)) _ 1 segments _ r e d,
    )
    get_action-KeepsDescend (single_segment p re acts ch) [] a r e d = cc
    get_action-KeepsDescend (single_segment p re acts ch) (s ∷ []) a r e d =
        ground (arith, override-descend acts a)
    get_action-KeepsDescend (single_segment p re acts ch) (s ∷ t ∷ rest) a r e d = ground (
      arith,
      override-descend acts a,
      get_action_all-KeepsDescend ch (t ∷ rest) (override acts a) r,
    )

    get_action_all-KeepsDescend : (ns : Nodes Regex) → KeepsDescend (get_action_all crate ns)
    get_action_all-KeepsDescend nil segments a r e d = ground arith
    get_action_all-KeepsDescend (cons n ns) segments a r e d =
        let (r1, e1, e2) = >>=-eq-ok (get_action crate n segments a) _ e in
        get_action-KeepsDescend n segments a r1 e1
          (get_action_all-KeepsDescend ns segments r1 r e2 d)

  mutual
    unfolding get_action

    get_action-DecidesBelow : (n : Node Regex) → DecidesBelow (get_action crate n)
    get_action-DecidesBelow (multi_segment acts nil) segments more a b r e d h =
        (override acts b, refl, ground (arith, override-actions acts a b h))
    get_action-DecidesBelow (multi_segment acts (cons c ch)) segments more a b r e d h =
        multi_rounds-DecidesBelow (get_action_all crate (cons c ch))
          (get_action_all-KeepsDescend (cons c ch)) (get_action_all-DecidesBelow (cons c ch)) _ 1
          segments more _ _ r e d
          (mark-actions (length segments == 1) (length (segments ++ more) == 1) _ _
            (override-actions acts a b h))
    get_action-DecidesBelow (single_segment p re acts ch) [] more a b r e d h = cc
    get_action-DecidesBelow (single_segment p re acts nil) (s ∷ []) [] a b r e d h = (
      if is_match re s then override acts b else b,
      ground arith,
      ground (arith, override-actions acts a b h),
    )
    get_action-DecidesBelow (single_segment p re acts nil) (s ∷ []) (x ∷ more) a b r e d h = (
      if is_match re s then override acts b else b,
      ground arith,
      ground (arith, override-actions acts a b h),
    )
    get_action-DecidesBelow (single_segment p re acts (cons c ch)) (s ∷ []) [] a b r e d h =
        (b, ground arith, ground arith)
    get_action-DecidesBelow (single_segment p re acts (cons c ch)) (s ∷ []) (x ∷ more) a b r e d h =
        (b, ground arith, ground arith)
    get_action-DecidesBelow (single_segment p re acts ch) (s ∷ t ∷ rest) more a b r e d h =
        elim (Bool-cases (is_match re s)) [
          | inl m ↦
              let (x, f, g) =
                get_action_all-DecidesBelow ch (t ∷ rest) more (override acts a) (override acts b) r
                  (ground arith) d (override-actions acts a b h) in
              (x, rw m f, g)
          | inr m ↦ (b, rw m, ground arith)
        ]

    get_action_all-DecidesBelow : (ns : Nodes Regex) → DecidesBelow (get_action_all crate ns)
    get_action_all-DecidesBelow nil segments more a b r e d h = (b, refl, ground arith)
    get_action_all-DecidesBelow (cons n ns) segments more a b r e d h =
        let (r1, e1, e2) = >>=-eq-ok (get_action crate n segments a) _ e in
        let d1 = get_action_all-KeepsDescend ns segments r1 r e2 d in
        let (s1, f1, g1) = get_action-DecidesBelow n segments more a b r1 e1 d1 h in
        let (s, f2, g2) = get_action_all-DecidesBelow ns segments more r1 s1 r e2 d (sym g1) in
        (s, rw f1 f2, g2)

  -- A decision that leaves `descend` unset is the decision on every path below.
  pub decide_path_below :
      (g : DecisionGraph Regex) (path more : Str) (r : ActionResult)
      → decide_path crate g path ≡ ok r
      → r.descend ≡ false
      → is_utf8 (path ++ (b'/' ∷ more)) ≡ true
      → (s : ActionResult) × (decide_path crate g (path ++ (b'/' ∷ more)) ≡ ok s)
        × (s.actions ≡ r.actions)
  unfolding decide_path
  decide_path_below g path more r e d u =
      let (_, _, e1) = >>=-eq-ok (assert (is_utf8 path)) _ e in
      let (s, f, h) =
        get_action_all-DecidesBelow g.roots (split b'/' path) (split b'/' more) undecided undecided
          r e1 d refl in
      (s, rw (u, split_both) f, h)
