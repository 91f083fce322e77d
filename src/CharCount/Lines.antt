-- ===== src/CharCount/Lines.antt =====
-- What is printed for an input, line by line.
use ntu_system_programming.Common.{
  ℕ, suc, ◌+◌, ◌<◌, ◌≡◌, ◌≢◌, refl, arith, false, some, List, [], ◌∷◌, ◌++◌, map, lt→ltb, ◌==◌,
  if◌then◌else◌, ◌>>=◌,
}
use ntu_system_programming.CharCount.{print_sum, count_up, run}

unfoldable pub occurrences : ℕ → List ℕ → ℕ
occurrences c [] = 0
occurrences c (b ∷ bs) = let rest = occurrences c bs in if b == c then suc rest else rest

-- How many characters of a line are in the set, once for each time they stand there.
unfoldable pub total : List ℕ → List ℕ → ℕ
total [] line = 0
total (c ∷ charset) line = occurrences c line + total charset line

unfoldable pub AllSmall : List ℕ → Type 0
AllSmall [] = Unit {0}
AllSmall (b ∷ bs) = (b < 128) × AllSmall bs

-- A line: ASCII characters but the newline.
unfoldable pub IsLine : List ℕ → Type 0
IsLine [] = Unit {0}
IsLine (b ∷ bs) = (b < 128) × (b ≢ 10) × IsLine bs

unfoldable pub AreLines : List (List ℕ) → Type 0
AreLines [] = Unit {0}
AreLines (l ∷ ls) = IsLine l × AreLines ls

unfoldable pub unlines : List (List ℕ) → List ℕ → List ℕ
unlines [] tail = tail
unlines (l ∷ ls) tail = l ++ 10 ∷ unlines ls tail

abbrev plus : (ℕ → ℕ) → List ℕ → ℕ → ℕ
plus count line k = count k + occurrences k line

print_sum-plus :
    (charset line : List ℕ) (count : ℕ → ℕ)
    → AllSmall charset
    → ((k : ℕ) → count k ≡ occurrences k line)
    → print_sum charset count ≡ some (total charset line)
unfolding print_sum total AllSmall
print_sum-plus [] line count small same = refl
print_sum-plus (c ∷ charset) line count (lt, small) same =
    rw (lt→ltb c 128 lt, print_sum-plus charset line count small same, same c) refl

run_line :
    (charset line whole rest : List ℕ) (count : ℕ → ℕ)
    → AllSmall charset
    → IsLine line
    → ((k : ℕ) → occurrences k whole ≡ count k + occurrences k line)
    → run charset count (line ++ 10 ∷ rest)
      ≡ (run charset (λ k. 0) rest >>= (λ out. some (total charset whole ∷ out)))
unfolding run IsLine occurrences
run_line charset [] whole rest count small ok same =
    rw (print_sum-plus charset whole count small (λ k. omega (arith, same k))) refl
run_line charset (b ∷ line) whole rest count small (lt, ne, ok) same =
    let no_end : (b == 255) ≡ false = ground arith in
    let no_newline : (b == 10) ≡ false = ground arith in
    rw (no_end, no_newline, lt→ltb b 128 lt)
      (run_line charset line whole rest (count_up count b) small ok (λ k. ground (arith, same k)))

run_tail : (charset tail : List ℕ) (count : ℕ → ℕ) → IsLine tail → run charset count tail ≡ some []
unfolding run IsLine
run_tail charset [] count ok = refl
run_tail charset (b ∷ tail) count (lt, ne, ok) =
    let no_end : (b == 255) ≡ false = ground arith in
    let no_newline : (b == 10) ≡ false = ground arith in
    rw (no_end, no_newline, lt→ltb b 128 lt) (run_tail charset tail (count_up count b) ok)

-- For lines of ASCII characters the program prints, for each line that a newline ends, how many of its
-- characters are in the set, counted once for each time they stand there; what follows the last
-- newline is not counted.
pub run_lem :
    (charset : List ℕ) (lines : List (List ℕ)) (tail : List ℕ)
    → AllSmall charset
    → AreLines lines
    → IsLine tail
    → run charset (λ k. 0) (unlines lines tail) ≡ some (map (total charset) lines)
unfolding AreLines unlines occurrences
run_lem charset [] tail small ok end = run_tail charset tail (λ k. 0) end
run_lem charset (l ∷ lines) tail small (line, ok) end =
    rw
      (
        run_line charset l l (unlines lines tail) (λ k. 0) small line (λ k. omega arith),
        run_lem charset lines tail small ok end,
      )
      refl
