-- ===== src/CharCount.antt =====
-- The first exercise, MP0/MP0.c: for each line of the input, how many of its characters are in the
-- set. A `char` is signed, so a byte from 128 on is a negative index (`none`), and the byte 255 is
-- taken for the end of the input.
pub mod Lines
mod Tests
use ntu_system_programming.Common.{
  ℕ, zero, suc, ◌+◌, Bool, true, false, Option, none, some, List, [], ◌∷◌, ltb, ◌==◌, if◌then◌else◌,
  ◌>>=◌,
}

-- `sum` of `print_sum`, whose reset of `count` follows at its call.
unfoldable pub print_sum : List ℕ → (ℕ → ℕ) → Option ℕ
print_sum [] count = some 0
print_sum (c ∷ charset) count =
    let rest = print_sum charset count in
    if ltb c 128 then rest >>= (λ sum. some (count c + sum)) else none

abbrev pub count_up : (ℕ → ℕ) → ℕ → ℕ → ℕ
count_up count cha k = if cha == k then count k + 1 else count k

-- The loop over the input: the numbers that are printed.
unfoldable pub run : List ℕ → (ℕ → ℕ) → List ℕ → Option (List ℕ)
run charset count [] = some []
run charset count (cha ∷ input) =
    let after_line = run charset (λ k. 0) input in
    let after_char = run charset (count_up count cha) input in
    if cha == 255
    then some []
    else if cha == 10
    then print_sum charset count >>= (λ sum. after_line >>= (λ out. some (sum ∷ out)))
    else if ltb cha 128
    then after_char
    else none
