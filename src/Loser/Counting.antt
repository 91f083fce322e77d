-- ===== src/Loser/Counting.antt =====
-- The number of a commit of MP1/MP1.c in the record that it writes.
use ntu_system_programming.Common.{
  ℕ, suc, ◌≤◌, ◌<◌, ◌≡◌, ◌≢◌, ◌^◌, refl, ap, ◌∙◌, arith, true, some, List, [], ◌∷◌, ◌++◌, length,
  length-append, map,
}
use mathlib.Core.List.{
  reverse, reverse_aux, reverse_aux-eq, reverse_aux-append, reverse-reverse, append-nil,
}
use ntu_system_programming.Common.Strings.{Text}
use ntu_system_programming.Loser.{
  md5_line_back, title_word, title_of, find_title, join_lines, collect_old_list,
}
use ntu_system_programming.Loser.Status.{decimal, title, md5_line}
use ntu_system_programming.Loser.Lines.{
  IsLine, IsLine-append, IsLine-reverse_aux, length-reverse_aux, reverse-body,
}
use ntu_system_programming.Loser.Reading.{AllEntries, entry_line, collect_reversed}
use ntu_system_programming.Loser.Numbers.{
  AllDigits, no_digits, and_digit, decimal-AllDigits, int_digits,
}
use ntu_system_programming.Loser.Titles.{
  above, reverse-above_all, append-ne-nil, AllQuiet, no_quiet, and_quiet, find_title-md5,
  find_title-rest, find_title-end, title_text, title_of-title,
}

AllDigits-IsLine : (t : Text) → AllDigits t → IsLine t
unfolding IsLine
AllDigits-IsLine [] no_digits = record {}
AllDigits-IsLine (b ∷ t) (and_digit low high p) = (omega arith, omega arith, AllDigits-IsLine t p)

word-IsLine : IsLine (title_word ++ 32 ∷ [])
unfolding IsLine
word-IsLine = ground arith

pub title_text-IsLine : (n : ℕ) → IsLine (reverse (title_text n))
title_text-IsLine n =
    IsLine-reverse_aux (title_text n) []
      (IsLine-append (title_word ++ 32 ∷ []) (decimal (suc n) n) word-IsLine
        (AllDigits-IsLine (decimal (suc n) n) (decimal-AllDigits (suc n) n)))
      (unfold IsLine in record {})

-- Where a title may stand: at the start of the file, or behind a newline that is not its first byte.
pub data IsStart : Text → Type 0 where
  at_start : IsStart []
  after_line : {b : ℕ} {t : Text} → IsStart (10 ∷ b ∷ t)

find_title-title :
    (n : ℕ) (rest : Text)
    → n < 2 ^ 31
    → IsStart rest
    → find_title [] (reverse (title_text n) ++ rest) ≡ some (some n)
find_title-title n [] small at_start =
    let size = length-reverse_aux (title_text n) [] in
    let digits = int_digits n small in
    ap (find_title []) (append-nil (reverse (title_text n)))
    ∙ find_title-end [] (reverse (title_text n)) (title_text-IsLine n) (omega arith) (omega arith)
    ∙ ap title_of (reverse-reverse (title_text n))
    ∙ title_of-title n small
find_title-title n (c ∷ []) small x4 = elim x4 [ ]
find_title-title n (c ∷ b ∷ t) small after_line =
    let size = length-reverse_aux (title_text n) [] in
    let digits = int_digits n small in
    find_title-rest [] (reverse (title_text n)) (b ∷ t) (append-ne-nil [] b t) (title_text-IsLine n)
      (omega arith)
    ∙ rw (reverse-reverse (title_text n), title_of-title n small) refl

pub reverse_titled :
    (pre : Text) (n : ℕ) (lines : List Text) (rest : Text)
    → reverse (pre ++ (title n ++ (join_lines lines ++ rest)))
      ≡ reverse_aux rest (10 ∷ above (reverse lines) (reverse (title_text n) ++ reverse pre))
reverse_titled pre n lines rest =
    reverse_aux-append pre (title n ++ (join_lines lines ++ rest)) []
    ∙ reverse_aux-append (title n) (join_lines lines ++ rest) (reverse pre)
    ∙ ap (reverse_aux (join_lines lines ++ rest)) (
        reverse_aux-append (title_text n) (10 ∷ []) (reverse pre)
        ∙ ap (λ u. 10 ∷ u) (reverse_aux-eq (title_text n) (reverse pre)))
    ∙ reverse_aux-append (join_lines lines) rest (10 ∷ (reverse (title_text n) ++ reverse pre))
    ∙ ap (reverse_aux rest) (reverse-above_all lines (reverse (title_text n) ++ reverse pre))

AllQuiet-reverse_aux :
    (ls rs : List Text) → AllQuiet ls → AllQuiet rs → AllQuiet (reverse_aux ls rs)
AllQuiet-reverse_aux [] rs no_quiet qs = qs
AllQuiet-reverse_aux (l ∷ ls) rs (and_quiet p ps) qs =
    AllQuiet-reverse_aux ls (l ∷ rs) ps (and_quiet p qs)

find_title-quiet :
    (rs : List Text) (rest : Text)
    → 0 < length rs
    → AllQuiet rs
    → rest ≢ []
    → find_title md5_line_back (above rs rest) ≡ find_title [] rest
find_title-quiet [] rest some_line qs ne = absurd (omega arith)
find_title-quiet (l ∷ rs) rest some_line (and_quiet q qs) ne = find_title-md5 l rs rest q qs ne

pub longer-ne-nil : (t : Text) → 0 < length t → t ≢ []
longer-ne-nil [] some_byte e = absurd (omega arith)
longer-ne-nil (b ∷ t) some_byte e = cc

-- A record that ends with a commit of the number `n`: its title where one may stand, at least one line
-- and none of them a title, `(MD5)` and the entries.
pub collect-titled :
    (pre : Text) (n : ℕ) (lines : List Text) (es : List (Text × Text))
    → IsStart (reverse pre)
    → n < 2 ^ 31
    → 0 < length lines
    → AllQuiet lines
    → AllEntries es
    → length es ≤ 3000
    → collect_old_list true
        (pre ++ (title n ++ (join_lines lines ++ (md5_line ++ join_lines (map entry_line es)))))
      ≡ some (es, some n)
collect-titled pre n lines es start small some_line qs ps few =
    let rest = reverse (title_text n) ++ reverse pre in
    let upper = above (reverse lines) rest in
    let body = md5_line ++ join_lines (map entry_line es) in
    let ne = longer-ne-nil rest (
      omega (
        arith,
        length-append (reverse (title_text n)) (reverse pre),
        length-reverse_aux (title_text n) [],
      )) in
    let found : find_title md5_line_back upper ≡ some (some n) =
      find_title-quiet (reverse lines) rest (omega (arith, length-reverse_aux lines []))
        (AllQuiet-reverse_aux lines [] qs no_quiet) ne
      ∙ find_title-title n (reverse pre) small start in
    collect_reversed true upper es ps few (pre ++ (title n ++ (join_lines lines ++ body)))
      (reverse_titled pre n lines body ∙ reverse-body (map entry_line es) upper)
    ∙ rw found refl
