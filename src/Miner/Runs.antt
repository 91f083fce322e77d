-- ===== src/Miner/Runs.antt =====
-- A miner comes to each of its candidates.
use ntu_system_programming.Common.{
  ℕ, zero, suc, ◌≤◌, ◌<◌, ◌≡◌, refl, some, arith, leb, inl, inr, Bool-cases,
}
use ntu_system_programming.Miner.{TestSet, path_max, init, after_tries}
use ntu_system_programming.Miner.Order.{number, shorter}
use ntu_system_programming.Miner.Search.{
  IsCandidate, rank, rank_at, rank_lt, same_rank, testset_next-rank,
}

init-IsCandidate : (low high : ℕ) → low < high → high ≤ 256 → IsCandidate low high (init low)
unfolding init
init-IsCandidate low high some_left small = record {
  range = record { above = ground arith; below = ground arith; bytes = λ j. ground arith };
  digits = omega arith;
  blank = λ j le. ground arith;
}

init-rank : (low high : ℕ) → rank low high (init low) ≡ 0
unfolding init number shorter
init-rank low high = omega (arith, rank_at low high (init low) 0 refl)

-- As long as the candidate `t` is ahead, the search goes on, one place at a time.
after_tries-rank :
    (low high : ℕ) (t : TestSet)
    → low < high
    → high ≤ 256
    → IsCandidate low high t
    → t.digit ≤ path_max
    → (n : ℕ) → n ≤ rank low high t
    → (s : TestSet) × (after_tries low high n ≡ some s)
      × IsCandidate low high s
      × (rank low high s ≡ n)
unfolding after_tries
after_tries-rank low high t some_left small c short zero le =
    (init low, refl, init-IsCandidate low high some_left small, init-rank low high)
after_tries-rank low high t some_left small c short (suc n) le =
    let (s, e, c', at) = after_tries-rank low high t some_left small c short n (omega arith) in
    let fits : s.digit ≤ path_max = elim (Bool-cases (leb (s.digit) path_max)) [
      | inl ok ↦ ground arith
      | inr long ↦ absurd (ground (arith, rank_lt low high s t c))
    ] in
    let (s', e', c'', at') = testset_next-rank low high s small fits c' in
    (s', rw (e) e', c'', omega (arith, at, at'))

-- The candidates of a share are tried one by one in the order of their ranks: after as many tries as
-- its rank, the next text is the candidate, digit by digit, however the share is placed.
pub after_tries_lem :
    (low high : ℕ) (t : TestSet)
    → low < high
    → high ≤ 256
    → IsCandidate low high t
    → t.digit ≤ path_max
    → (s : TestSet) × (after_tries low high (rank low high t) ≡ some s)
      × (s.digit ≡ t.digit)
      × ((j : ℕ) → s.set j ≡ t.set j)
after_tries_lem low high t some_left small c short =
    let (s, e, c', at) =
      after_tries-rank low high t some_left small c short (rank low high t) (omega arith) in
    let (digits, same) = same_rank low high s t c' c at in (s, e, digits, same)
