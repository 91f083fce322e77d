-- ===== src/CharCount/Tests.antt =====
-- The character counter at a concrete input, and its theorem there.
use ntu_system_programming.Common.{◌≡◌, refl, arith, some, [], ◌∷◌, map}
use ntu_system_programming.CharCount.{run, print_sum}
use ntu_system_programming.CharCount.Lines.{AllSmall, IsLine, AreLines, unlines, total, run_lem}

-- The set is a and b; of the line "aca" two characters are in it.
two_of_three : run (97 ∷ 98 ∷ []) (λ k. 0) (97 ∷ 99 ∷ 97 ∷ 10 ∷ 98 ∷ []) ≡ some (2 ∷ [])
unfolding run print_sum
two_of_three = refl

charset-AllSmall : AllSmall (97 ∷ 98 ∷ [])
unfolding AllSmall
charset-AllSmall = (omega arith, (omega arith, tt))

aca-IsLine : IsLine (97 ∷ 99 ∷ 97 ∷ [])
unfolding IsLine
aca-IsLine = (omega arith, omega arith, (omega arith, omega arith, (omega arith, omega arith, tt)))

lines-AreLines : AreLines ((97 ∷ 99 ∷ 97 ∷ []) ∷ [])
unfolding AreLines
lines-AreLines = (aca-IsLine, tt)

b-IsLine : IsLine (98 ∷ [])
unfolding IsLine
b-IsLine = (omega arith, omega arith, tt)

run_lem_example :
    run (97 ∷ 98 ∷ []) (λ k. 0) (unlines ((97 ∷ 99 ∷ 97 ∷ []) ∷ []) (98 ∷ []))
    ≡ some (map (total (97 ∷ 98 ∷ [])) ((97 ∷ 99 ∷ 97 ∷ []) ∷ []))
run_lem_example =
    run_lem (97 ∷ 98 ∷ []) ((97 ∷ 99 ∷ 97 ∷ []) ∷ []) (98 ∷ []) charset-AllSmall lines-AreLines
      b-IsLine
