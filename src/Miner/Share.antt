-- ===== src/Miner/Share.antt =====
-- How the miners share the search by the first byte of a candidate, and that together they come to
-- every text.
use ntu_system_programming.Common.{
  ℕ, zero, suc, ◌*◌, ◌≤◌, ◌<◌, ◌≡◌, arith, ltb, some, Bool-cases, inl, inr,
}
use native.Mathlib.Nat.{zero-div, mul-div_cancel, le-div_iff_mul-le, div-mul-le_self}
use ntu_system_programming.Miner.{TestSet, path_max, split_at, after_tries}
use ntu_system_programming.Miner.Search.{IsCandidate, rank}
use ntu_system_programming.Miner.Runs.{after_tries_lem}

split_at-zero : (n : ℕ) → split_at n 0 ≡ 0
unfolding split_at
split_at-zero n = zero-div n

split_at-all : (n : ℕ) → 0 < n → split_at n n ≡ 256
unfolding split_at
split_at-all n some_miner = mul-div_cancel 256 some_miner

split_at_mono : (n i j : ℕ) → 0 < n → i ≤ j → split_at n i ≤ split_at n j
unfolding split_at
split_at_mono n i j some_miner le =
    (le-div_iff_mul-le some_miner).1 (omega (arith, div-mul-le_self (256 * i) n))

-- Some share below the share `k` has the byte.
find_share :
    (n b k : ℕ)
    → b < split_at n k
    → (i : ℕ) × (i < k) × (split_at n i ≤ b) × (b < split_at n (suc i))
find_share n b zero lt = absurd (omega (arith, split_at-zero n, lt))
find_share n b (suc k) lt = elim (Bool-cases (ltb b (split_at n k))) [
  | inl lower ↦
      let (i, le, from, below) = find_share n b k (ground arith) in
      (i, omega (arith, le), from, below)
  | inr here ↦ (k, omega arith, ground arith, lt)
]

-- Each first byte is in exactly one of the shares of `n` miners.
pub split_at_lem :
    (n b : ℕ)
    → 0 < n
    → b < 256
    → (i : ℕ) × (i < n)
      × (split_at n i ≤ b)
      × (b < split_at n (suc i))
      × ((j : ℕ) → split_at n j ≤ b → b < split_at n (suc j) → j ≡ i)
split_at_lem n b some_miner byte =
    let (i, lt, from, below) = find_share n b n (omega (arith, split_at-all n some_miner)) in
    (
      i,
      lt,
      from,
      below,
      λ j from' below'. elim (Bool-cases (ltb j i)) [
        | inl less ↦
            absurd
              (omega (arith, from, below', split_at_mono n (suc j) i some_miner (ground arith)))
        | inr more ↦ elim (Bool-cases (ltb i j)) [
          | inl less ↦
              absurd
                (omega (arith, from', below, split_at_mono n (suc i) j some_miner (ground arith)))
          | inr same ↦ ground arith
        ]
      ],
    )

-- A text of 1 to PATH_MAX bytes, with zeros behind them.
pub record IsText (t : TestSet) : Type 0 where
  pub digits : 1 ≤ t.digit
  pub short : t.digit ≤ path_max
  pub bytes : (j : ℕ) → t.set j < 256
  pub blank : (j : ℕ) → t.digit ≤ j → t.set j ≡ 0

-- Every text is a candidate of one of the `n` miners, and that miner comes to it after finitely many
-- failed tries.
pub complete :
    (n : ℕ) (t : TestSet)
    → 0 < n
    → IsText t
    → (i : ℕ) × (i < n)
      × (k : ℕ) × (s : TestSet) × (after_tries (split_at n i) (split_at n (suc i)) k ≡ some s)
      × (s.digit ≡ t.digit)
      × ((j : ℕ) → s.set j ≡ t.set j)
complete n t some_miner text =
    let (i, lt, from, below, once) = split_at_lem n (t.set 0) some_miner (text.bytes 0) in
    let low = split_at n i in
    let high = split_at n (suc i) in
    let small : high ≤ 256 =
      omega (arith, split_at-all n some_miner, split_at_mono n (suc i) n some_miner lt) in
    let c : IsCandidate low high t = record {
      range = record { above = from; below = below; bytes = text.bytes };
      digits = text.digits;
      blank = text.blank;
    } in
    let (s, e, digits, same) =
      after_tries_lem low high t (omega (arith, from, below)) small c (text.short) in
    (i, lt, rank low high t, s, e, digits, same)
