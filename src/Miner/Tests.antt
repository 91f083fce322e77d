-- ===== src/Miner/Tests.antt =====
-- A miner run at concrete texts, and the theorems of its search there.
use ntu_system_programming.Common.{
  ℕ, suc, ◌<◌, ◌≡◌, ◌↔◌, refl, arith, true, Option, none, some, List, [], ◌∷◌,
}
use ntu_system_programming.Miner.{
  TestSet, write_at, add, testset_next, after_tries, split_at, verify,
}
use ntu_system_programming.Miner.Search.{IsCandidate}
use ntu_system_programming.Miner.Share.{IsText, complete}
use ntu_system_programming.Miner.Zeros.{leading_zeros, verify_iff}

-- The two bytes 70 and 255.
abbrev pair : TestSet
pair = record { set = write_at (write_at (λ j. 0) 0 70) 1 255; digit = 2 }

abbrev start_of : Option TestSet → List ℕ
start_of none = []
start_of (some s) = s.digit ∷ s.set 0 ∷ s.set 1 ∷ []

-- In the share of the bytes 64 to 127 the next text is 71 and 0.
next_pair : start_of (testset_next pair 64 128) ≡ 2 ∷ 71 ∷ 0 ∷ []
unfolding testset_next add
next_pair = refl

pair-IsCandidate : IsCandidate 64 128 pair
pair-IsCandidate = record {
  range = record { above = omega arith; below = omega arith; bytes = λ j. ground arith };
  digits = omega arith;
  blank = λ j le. ground arith;
}

pair-IsText : IsText pair
pair-IsText = record {
  digits = omega arith;
  short = omega arith;
  bytes = λ j. ground arith;
  blank = λ j le. ground arith;
}

complete_example :
    (i : ℕ) × (i < 4)
    × (k : ℕ) × (s : TestSet) × (after_tries (split_at 4 i) (split_at 4 (suc i)) k ≡ some s)
    × (s.digit ≡ pair.digit)
    × ((j : ℕ) → s.set j ≡ pair.set j)
complete_example = complete 4 pair (omega arith) pair-IsText

verify_iff_example : (verify (48 ∷ 48 ∷ 97 ∷ []) 2 ≡ true) ↔ (leading_zeros (48 ∷ 48 ∷ 97 ∷ []) ≡ 2)
verify_iff_example = verify_iff (48 ∷ 48 ∷ 97 ∷ []) 2
