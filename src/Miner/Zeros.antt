-- ===== src/Miner/Zeros.antt =====
-- What a miner accepts: a hash with exactly the wanted number of leading zeros.
use ntu_system_programming.Common.{
  ℕ, zero, suc, ◌≤◌, ◌≡◌, ◌↔◌, arith, true, List, [], ◌∷◌, ◌==◌, if◌then◌else◌, get_or,
}
use ntu_system_programming.Miner.{all_zero, verify}

unfoldable pub leading_zeros : List ℕ → ℕ
leading_zeros [] = 0
leading_zeros (c ∷ cs) = let rest = leading_zeros cs in if c == 48 then suc rest else 0

pub next_zero :
    (test : List ℕ) (n : ℕ)
    → n ≤ leading_zeros test
    → ((get_or test n 0 == 48) ≡ true) ↔ (suc n ≤ leading_zeros test)
unfolding leading_zeros
next_zero [] n le = ground arith
next_zero (c ∷ cs) zero le = ground arith
next_zero (c ∷ cs) (suc n) le = ground (arith, next_zero cs n)

all_zero_iff : (test : List ℕ) (n : ℕ) → (all_zero test n ≡ true) ↔ (n ≤ leading_zeros test)
unfolding all_zero
all_zero_iff test zero = ground arith
all_zero_iff test (suc n) = ground (arith, all_zero_iff test n, next_zero test n)

-- `verify` answers yes exactly for a hash whose number of leading zeros is the wanted one.
pub verify_iff : (test : List ℕ) (n : ℕ) → (verify test n ≡ true) ↔ (leading_zeros test ≡ n)
unfolding verify
verify_iff test n = ground (arith, all_zero_iff test n, next_zero test n)
