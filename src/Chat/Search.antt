-- ===== src/Chat/Search.antt =====
-- The loop over the clients in `try_match` of MP4/server.c.
use ntu_system_programming.Common.{
  ℕ, zero, suc, ◌+◌, ◌≤◌, ◌<◌, ◌≡◌, ◌≢◌, refl, ap, ◌∙◌, Bool, true, false, Option, none, some,
  arith, ◌==◌, Bool-cases, ==_iff, Option-cases, inl, inr,
}
use mathlib.Core.Path.{subst}
use ntu_system_programming.Chat.Handlers.{search_from}

-- The outcome of a search: the first round from `i` that says hit, and reject before it.
abbrev pub FoundFrom : (ℕ → Option Bool) → ℕ → ℕ → Option ℕ → Type 0
FoundFrom test n i none = (j : ℕ) → i ≤ j → j < i + n → test j ≡ some false
FoundFrom test n i (some m) =
    (i ≤ m) × (m < i + n) × (test m ≡ some true) × ((j : ℕ) → i ≤ j → j < m → test j ≡ some false)

extend :
    (test : ℕ → Option Bool) (n i : ℕ) (r : Option ℕ)
    → test i ≡ some false
    → FoundFrom test n (suc i) r
    → FoundFrom test (suc n) i r
extend test n i none reject found = λ j lo hi. elim (Bool-cases (i == j)) [
  | inl same ↦ subst (λ k. test k ≡ some false) ((==_iff i j).0 same) reject
  | inr other ↦ found j (ground arith) (ground arith)
]
extend test n i (some m) reject (lo, hi, hit, before) = (
  omega arith,
  omega arith,
  hit,
  λ j from below. elim (Bool-cases (i == j)) [
    | inl same ↦ subst (λ k. test k ≡ some false) ((==_iff i j).0 same) reject
    | inr other ↦ before j (ground arith) below
  ],
)

pub search_from_lem :
    (test : ℕ → Option Bool) (n i : ℕ)
    → ((j : ℕ) → test j ≢ none)
    → (r : Option ℕ) × (search_from test n i ≡ some r) × FoundFrom test n i r
unfolding search_from
search_from_lem test zero i total = (none, refl, λ j lo hi. absurd (omega arith))
search_from_lem test (suc n) i total =
    let (r, e, found) = search_from_lem test n (suc i) total in
    elim (Option-cases (test i)) [
      | inl stuck ↦ absurd (total i stuck)
      | inr (b, at) ↦ elim (Bool-cases b) [
        | inl accepted ↦
            let at' : test i ≡ some true = at ∙ ap some accepted in
            (some i, rw at' refl, (omega arith, omega arith, at', λ j lo hi. absurd (omega arith)))
        | inr refused ↦
            let at' : test i ≡ some false = at ∙ ap some refused in
            (r, rw (at', e) refl, extend test n i r at' found)
      ]
    ]
