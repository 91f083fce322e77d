-- ===== src/Miner/Order.antt =====
-- The order in which a miner tries its candidates: by length, then as numbers. A candidate's place
-- in it is its rank, and each call of `testset_next` goes one place on.
use ntu_system_programming.Common.{
  ℕ, zero, suc, ◌+◌, ◌-◌, ◌*◌, ◌%◌, ◌≤◌, ◌<◌, ◌≡◌, refl, ap, arith, ◌==◌, ◌⊎◌, inl, inr, Bool-cases,
}
use ntu_system_programming.Miner.{write_at, add}

-- How many candidates have `d + 1` places, and how many have fewer.
unfoldable pub size : ℕ → ℕ → ℕ → ℕ
size low high zero = high - low
size low high (suc d) = size low high d * 256

unfoldable pub shorter : ℕ → ℕ → ℕ → ℕ
shorter low high zero = 0
shorter low high (suc d) = shorter low high d + size low high d

-- The number of the places 0 to `d`.
unfoldable pub number : ℕ → (ℕ → ℕ) → ℕ → ℕ
number low s zero = s 0 - low
number low s (suc d) = number low s d * 256 + s (suc d)

pub record InRange (low high : ℕ) (s : ℕ → ℕ) : Type 0 where
  pub above : low ≤ s 0
  pub below : s 0 < high
  pub bytes : (j : ℕ) → s j < 256

pub number-agree :
    (low : ℕ) (s t : ℕ → ℕ) (d : ℕ)
    → ((j : ℕ) → j ≤ d → s j ≡ t j)
    → number low s d ≡ number low t d
unfolding number
number-agree low s t zero same = ap (λ x. x - low) (same 0 (omega arith))
number-agree low s t (suc d) same =
    omega (arith, number-agree low s t d (λ j le. same j (omega arith)), same (suc d) (omega arith))

pub number-bound :
    (low high : ℕ) (s : ℕ → ℕ) (d : ℕ) → InRange low high s → number low s d < size low high d
unfolding number size
number-bound low high s zero r = omega (arith, r.above, r.below)
number-bound low high s (suc d) r = omega (arith, number-bound low high s d r, r.bytes (suc d))

-- What `add` does at the places 0 to `d`.
pub record Added (low high : ℕ) (s : ℕ → ℕ) (d : ℕ) (r : (ℕ → ℕ) × ℕ) : Type 0 where
  pub range : InRange low high (r.0)
  pub behind : (j : ℕ) → d < j → r.0 j ≡ s j
  pub next :
      ((r.1 ≡ 0) × (number low (r.0) d ≡ number low s d + 1))
      ⊎ ((r.1 ≡ 1) × (number low s d + 1 ≡ size low high d) × (number low (r.0) d ≡ 0))

first-InRange :
    {low high : ℕ} (s : ℕ → ℕ) (v : ℕ)
    → InRange low high s
    → low ≤ v
    → v < high
    → high ≤ 256
    → InRange low high (write_at s 0 v)
first-InRange s v r above below small = record {
  above = above;
  below = below;
  bytes = λ j. ground (arith, r.bytes j);
}

later-InRange :
    {low high : ℕ} (s : ℕ → ℕ) (d v : ℕ)
    → InRange low high s
    → v < 256
    → InRange low high (write_at s (suc d) v)
later-InRange s d v r small = record {
  above = ground (arith, r.above);
  below = ground (arith, r.below);
  bytes = λ j. ground (arith, r.bytes j);
}

-- A write behind the place `d` leaves the number.
number-write :
    (low : ℕ) (s : ℕ → ℕ) (d v : ℕ) → number low (write_at s (suc d) v) d ≡ number low s d
number-write low s d v = number-agree low (write_at s (suc d) v) s d (λ j le. ground arith)

carry-Added :
    (low high : ℕ) (s : ℕ → ℕ) (d : ℕ) (r : (ℕ → ℕ) × ℕ)
    → s (suc d) ≡ 255
    → Added low high (write_at s (suc d) 0) d r
    → Added low high s (suc d) r
unfolding number size
carry-Added low high s d (t, c) full a = record {
  range = a.range;
  behind = λ j lt. ground (arith, a.behind j);
  next =
      let cleared : t (suc d) ≡ 0 = ground (arith, a.behind (suc d)) in
      let same = number-write low s d 0 in
      elim a.next [
        | inl (none_over, up) ↦ inl (none_over, omega (arith, up, same, cleared, full))
        | inr (over, full', none_left) ↦
            inr (over, omega (arith, full', same, full), omega (arith, none_left, cleared))
      ];
}

pub add-Added :
    (low high : ℕ) (s : ℕ → ℕ) (d : ℕ)
    → high ≤ 256
    → InRange low high s
    → Added low high s d (add s d low high)
unfolding add number size
add-Added low high s zero small r = elim (Bool-cases (s 0 + 1 == high)) [
  | inl last ↦ rw last record {
    range = first-InRange s low r (omega arith) (omega (arith, r.above, r.below)) small;
    behind = λ j lt. ground arith;
    next = inr (refl, ground (arith, r.above), omega arith);
  }
  | inr more ↦
      let word : (s 0 + 1) % 256 ≡ s 0 + 1 = ground (arith, r.below) in
      rw (more, word)
        record {
          range =
              first-InRange s (s 0 + 1) r (omega (arith, r.above)) (ground (arith, r.below)) small;
          behind = λ j lt. ground arith;
          next = inl (refl, omega (arith, r.above));
        }
]
add-Added low high s (suc d) small r = elim (Bool-cases (s (suc d) == 255)) [
  | inl last ↦ rw last (
      carry-Added low high s d (add (write_at s (suc d) 0) d low high) (ground arith)
        (add-Added low high (write_at s (suc d) 0) d small (later-InRange s d 0 r (omega arith))))
  | inr more ↦
      let word : (s (suc d) + 1) % 256 ≡ s (suc d) + 1 = ground (arith, r.bytes (suc d)) in
      rw (more, word)
        record {
          range = later-InRange s d (s (suc d) + 1) r (ground (arith, r.bytes (suc d)));
          behind = λ j lt. ground arith;
          next = inl (refl, ground (arith, number-write low s d (s (suc d) + 1)));
        }
]
