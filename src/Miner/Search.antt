-- ===== src/Miner/Search.antt =====
-- A miner's run through its candidates: which ones it tries, and that it leaves none out.
use ntu_system_programming.Common.{
  ℕ, zero, suc, ◌+◌, ◌-◌, ◌≤◌, ◌<◌, ◌≡◌, refl, sym, ap, ◌∙◌, true, some, arith, leb, ltb, ◌==◌, inl,
  inr, Bool-cases,
}
use mathlib.Core.Path.{subst}
use ntu_system_programming.Miner.{TestSet, path_max, add, testset_next}
use ntu_system_programming.Miner.Order.{shorter, number, InRange, add-Added, number-bound}

pub record IsCandidate (low high : ℕ) (s : TestSet) : Type 0 where
  pub range : InRange low high (s.set)
  pub digits : 1 ≤ s.digit
  pub blank : (j : ℕ) → s.digit ≤ j → s.set j ≡ 0

-- The place of a candidate in the order of the search.
unfoldable pub rank : ℕ → ℕ → TestSet → ℕ
rank low high s = shorter low high (s.digit - 1) + number low (s.set) (s.digit - 1)

pub rank_at :
    (low high : ℕ) (s : TestSet) (d : ℕ)
    → s.digit ≡ suc d
    → rank low high s ≡ shorter low high d + number low (s.set) d
unfolding rank
rank_at low high s d e =
    let less : s.digit - 1 ≡ d = omega (arith, e) in
    ap (λ x. shorter low high x + number low (s.set) x) less

shorter_mono : (low high d k : ℕ) → shorter low high d ≤ shorter low high (d + k)
unfolding shorter
shorter_mono low high d zero = let same : d + 0 ≡ d = omega arith in rw same (omega arith)
shorter_mono low high d (suc k) =
    let same : d + suc k ≡ suc (d + k) = omega arith in
    rw same (omega (arith, shorter_mono low high d k))

-- Fewer digits come first.
pub rank_lt :
    (low high : ℕ) (s t : TestSet)
    → IsCandidate low high t
    → t.digit < s.digit
    → rank low high t < rank low high s
unfolding shorter
rank_lt low high s t c less =
    let d = t.digit - 1 in
    let k = s.digit - 1 - t.digit in
    let at_t = rank_at low high t d (omega (arith, c.digits)) in
    let at_s = rank_at low high s (suc d + k) (omega (arith, c.digits)) in
    omega (
      arith,
      at_t,
      at_s,
      number-bound low high (t.set) d (c.range),
      shorter_mono low high (suc d) k,
    )

number-injective :
    (low high : ℕ) (s t : ℕ → ℕ) (d : ℕ)
    → InRange low high s
    → InRange low high t
    → number low s d ≡ number low t d
    → (j : ℕ) → j ≤ d
    → s j ≡ t j
unfolding number
number-injective low high s t zero a b e j le =
    let first : 0 ≡ j = omega (arith, le) in
    subst (λ k. s k ≡ t k) first (omega (arith, e, a.above, b.above))
number-injective low high s t (suc d) a b e j le = elim (Bool-cases (j == suc d)) [
  | inl here ↦
      let last : suc d ≡ j = ground arith in
      subst (λ k. s k ≡ t k) last (omega (arith, e, a.bytes (suc d), b.bytes (suc d)))
  | inr there ↦
      number-injective low high s t d a b (omega (arith, e, a.bytes (suc d), b.bytes (suc d))) j
        (ground arith)
]

-- Two candidates of one rank are the same text.
pub same_rank :
    (low high : ℕ) (s t : TestSet)
    → IsCandidate low high s
    → IsCandidate low high t
    → rank low high s ≡ rank low high t
    → (s.digit ≡ t.digit) × ((j : ℕ) → s.set j ≡ t.set j)
same_rank low high s t c c' e =
    let digits : s.digit ≡ t.digit = elim (Bool-cases (ltb (s.digit) (t.digit))) [
      | inl less ↦ absurd (ground (arith, rank_lt low high t s c))
      | inr not_less ↦ elim (Bool-cases (ltb (t.digit) (s.digit))) [
        | inl more ↦ absurd (ground (arith, rank_lt low high s t c'))
        | inr neither ↦ ground arith
      ]
    ] in
    let d = t.digit - 1 in
    let numbers : number low (s.set) d ≡ number low (t.set) d = omega (
      arith,
      e,
      rank_at low high s d (omega (arith, digits, c'.digits)),
      rank_at low high t d (omega (arith, c'.digits)),
    ) in
    (
      digits,
      λ j. elim (Bool-cases (leb j d)) [
        | inl inside ↦
            number-injective low high (s.set) (t.set) d (c.range) (c'.range) numbers j
              (ground arith)
        | inr outside ↦
            c.blank j (ground (arith, c'.digits)) ∙ sym (c'.blank j (ground (arith, c'.digits)))
      ],
    )

-- The candidate that `add` makes.
abbrev advanced : ℕ → ℕ → ℕ → (ℕ → ℕ) → TestSet
advanced low high d set = let r = add set d low high in record { set = r.0; digit = suc d + r.1 }

testset_next-advanced :
    (low high d : ℕ) (set : ℕ → ℕ)
    → suc d ≤ path_max
    → testset_next (record { set = set; digit = suc d }) low high ≡ some (advanced low high d set)
unfolding testset_next
testset_next-advanced low high d set short =
    let less : suc d - 1 ≡ d = omega arith in
    let fits : leb (suc d) path_max ≡ true = ground arith in rw (less, fits) refl

advanced-IsCandidate :
    (low high d : ℕ) (set : ℕ → ℕ)
    → high ≤ 256
    → IsCandidate low high (record { set = set; digit = suc d })
    → IsCandidate low high (advanced low high d set)
advanced-IsCandidate low high d set small c =
    let a = add-Added low high set d small (c.range) in
    record {
      range = a.range;
      digits = omega arith;
      blank = λ j le. ground (arith, a.behind j, c.blank j);
    }

advanced-rank :
    (low high d : ℕ) (set : ℕ → ℕ)
    → high ≤ 256
    → IsCandidate low high (record { set = set; digit = suc d })
    → rank low high (advanced low high d set)
      ≡ rank low high (record { set = set; digit = suc d }) + 1
unfolding shorter number
advanced-rank low high d set small c =
    let a = add-Added low high set d small (c.range) in
    let now = rank_at low high (record { set = set; digit = suc d }) d refl in
    elim a.next [
      | inl (stays, up) ↦
          let after = rank_at low high (advanced low high d set) d (omega (arith, stays)) in
          omega (arith, now, after, up)
      | inr (over, full, zeros) ↦
          let after = rank_at low high (advanced low high d set) (suc d) (omega (arith, over)) in
          omega (
            arith,
            now,
            after,
            full,
            zeros,
            a.behind (suc d) (omega arith),
            c.blank (suc d) (omega arith),
          )
    ]

-- `testset_next` goes to the next place of the order.
pub testset_next-rank :
    (low high : ℕ) (s : TestSet)
    → high ≤ 256
    → s.digit ≤ path_max
    → IsCandidate low high s
    → (s' : TestSet) × (testset_next s low high ≡ some s')
      × IsCandidate low high s'
      × (rank low high s' ≡ rank low high s + 1)
testset_next-rank low high s small short c =
    let d = s.digit - 1 in
    let same : suc d ≡ s.digit = omega (arith, c.digits) in
    let c' : IsCandidate low high (record { set = s.set; digit = suc d }) =
      subst (λ n. IsCandidate low high (record { set = s.set; digit = n })) (sym same) c in
    (
      advanced low high d (s.set),
      subst
          (λ n.
            testset_next (record { set = s.set; digit = n }) low high
            ≡ some (advanced low high d (s.set)))
          same (testset_next-advanced low high d (s.set) (omega (arith, same, short))),
      advanced-IsCandidate low high d (s.set) small c',
      subst
          (λ n.
            rank low high (advanced low high d (s.set))
            ≡ rank low high (record { set = s.set; digit = n }) + 1)
          same (advanced-rank low high d (s.set) small c'),
    )
