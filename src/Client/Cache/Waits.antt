-- ===== src/Client/Cache/Waits.antt =====
-- How long `get` waits, and what it returns.
use lapas.Prelude.{
  ◌⊎◌, sym, Option-cases, Bool-cases, ◌==◌, ◌∙◌, ap, ℕ, zero, suc, ◌+◌, ◌≤◌, ◌<◌, ◌≡◌, refl, none,
  some, List, [], arith, inl, inr,
}
use lapas.Proto.Models.{LapasUserShadow}
use lapas.Client.Cache.{Polls, poll, get}

module _ {DateTime : Type 0} (cache : Polls DateTime) where
  poll-filled :
      (rounds i k : ℕ) (users : List (LapasUserShadow DateTime))
      → i ≤ k
      → k < i + rounds
      → ((j : ℕ) → i ≤ j → j < k → cache j ≡ none)
      → cache k ≡ some users
      → poll rounds i cache ≡ users
  unfolding poll
  poll-filled zero i k users l m before e = absurd (omega arith)
  poll-filled (suc rounds) i k users l m before e = elim (Bool-cases (i == k)) [
    | inl q ↦
        let here : i ≡ k = ground arith in
        let filled : cache i ≡ some users = ap cache here ∙ e in rw (filled, poll)
    | inr q ↦
        let less : i < k = ground arith in
        let unfilled : cache i ≡ none = before i (omega arith) less in
        rw (unfilled, poll)
          (poll-filled rounds (i + 1) k users (omega arith) (omega arith)
            (λ j p r. before j (omega arith) r) e)
  ]

  poll-empty :
      (rounds i : ℕ)
      → ((j : ℕ) → i ≤ j → j < i + rounds → cache j ≡ none)
      → poll rounds i cache ≡ []
  unfolding poll
  poll-empty zero i before = refl
  poll-empty (suc rounds) i before =
      let unfilled : cache i ≡ none = before i (omega arith) (omega arith) in
      rw (unfilled, poll)
        (poll-empty rounds (i + 1) (λ j p r. before j (omega arith) (omega arith)))

  pub get-filled :
      (k : ℕ) (users : List (LapasUserShadow DateTime))
      → k < 50
      → ((j : ℕ) → j < k → cache j ≡ none)
      → cache k ≡ some users
      → get cache ≡ users
  unfolding get
  get-filled k users l before e =
      poll-filled 50 0 k users (omega arith) (omega arith) (λ j p r. before j r) e

  get-unfilled : ((j : ℕ) → j < 50 → cache j ≡ none) → get cache ≡ []
  unfolding get
  get-unfilled before = poll-empty 50 0 (λ j p r. before j (omega arith))

  -- The number of the first poll below `n` that finds a list.
  abbrev pub FoundBelow : ℕ → ℕ → List (LapasUserShadow DateTime) → Type 0
  FoundBelow n k users = (k < n) × ((j : ℕ) → j < k → cache j ≡ none) × (cache k ≡ some users)

  abbrev pub EmptyBelow : ℕ → Type 0
  EmptyBelow n = (j : ℕ) → j < n → cache j ≡ none

  below-cases :
      (n : ℕ)
      → ((k : ℕ) × (users : List (LapasUserShadow DateTime)) × FoundBelow n k users) ⊎ EmptyBelow n
  below-cases zero = inr (λ j l. absurd (omega arith))
  below-cases (suc n) = elim (below-cases n) [
    | inl (k, users, (l, before, e)) ↦ inl (k, users, (omega arith, before, e))
    | inr empty ↦ elim (Option-cases (cache n)) [
      | inl e ↦ inr (λ j l. elim (Bool-cases (j == n)) [
        | inl q ↦ let here : j ≡ n = ground arith in ap cache here ∙ e
        | inr q ↦ let less : j < n = ground arith in empty j less
      ])
      | inr (users, e) ↦ inl (n, users, (omega arith, empty, e))
    ]
  ]

  -- `get` ends: it returns the list of the first poll that finds one, if that is among the first
  -- fifty, and no users otherwise.
  pub get-cases : ((k : ℕ) × FoundBelow 50 k (get cache)) ⊎ (EmptyBelow 50 × (get cache ≡ []))
  get-cases = elim (below-cases 50) [
    | inl (k, users, (l, before, e)) ↦
        inl (k, (l, before, e ∙ ap some (sym (get-filled k users l before e))))
    | inr empty ↦ inr (empty, get-unfilled empty)
  ]
