-- ===== src/Loser.antt =====
-- The backup tool, MP1/MP1.c: `loser status`, `loser commit` and `loser log` on one directory.
-- `.loser_record` is its bytes, `none` if there is no such file; `sum` is the MD5 of a file by its name, and the directory what
-- `scandir` lists. The outer `none` of a function is undefined behaviour: a string longer than its
-- buffer, or a token that is not there.
pub mod Status
pub mod Lines
pub mod Reading
pub mod Recorded
pub mod Commits
pub mod Numbers
pub mod Titles
pub mod Counting
pub mod Quiet
pub mod Numbered
pub mod Log
pub mod Printed
mod Tests
use ntu_system_programming.Common.{
  ℕ, zero, suc, ◌+◌, ◌-◌, ◌*◌, ◌/◌, ◌%◌, ◌^◌, Bool, true, false, ◌&&◌, ◌||◌, not, Option, none,
  some, List, [], ◌∷◌, ◌++◌, ltb, leb, ◌==◌, if◌then◌else◌, ◌>>=◌, length, take, drop, map,
}
use mathlib.Core.List.{reverse}
use ntu_system_programming.Common.Strings.{Text, same_text}

-- The word `.loser_record`, and the line `(MD5)` as it is read from its end.
abbrev pub record_name : Text
record_name = 46 ∷ 108 ∷ 111 ∷ 115 ∷ 101 ∷ 114 ∷ 95 ∷ 114 ∷ 101 ∷ 99 ∷ 111 ∷ 114 ∷ 100 ∷ []

abbrev pub md5_line_back : Text
md5_line_back = 41 ∷ 53 ∷ 68 ∷ 77 ∷ 40 ∷ []

-- The names in the order of `alphasort`, without those three.
unfoldable pub file_list : List Text → List Text
file_list [] = []
file_list (name ∷ names) =
    let rest = file_list names in
    if same_text name (46 ∷ []) || (same_text name (46 ∷ 46 ∷ []) || same_text name record_name)
    then rest
    else name ∷ rest

-- `strncat` of one byte, which leaves out a NUL, to `temp_line`.
abbrev pub strncat : Text → ℕ → Text
strncat temp_line b = if b == 0 then temp_line else temp_line ++ b ∷ []

-- The first loop of `collect_old_list`, over the bytes from the end of the file, the last one left out:
-- the lines below `(MD5)` that it puts into `line`, from the last one, and the bytes before `(MD5)`, which
-- are `none` without such a line. `line` is at once a source and the target of `sprintf`; what is
-- modelled is that it gets the new line at its end.
unfoldable pub lines_back : Text → Text → Option (List Text × Option Text)
lines_back temp_line [] = some ([], none)
lines_back temp_line (b ∷ bs) =
    let next = lines_back [] bs in
    let longer = lines_back (strncat temp_line b) bs in
    if b == 10
    then if same_text md5_line_back temp_line
      then some ([], some bs)
      else next >>= (λ (lines, rest). some (reverse temp_line ∷ lines, rest))
    else if ltb (length (strncat temp_line b)) 1000
    then longer
    else none

unfoldable pub join_lines : List Text → Text
join_lines [] = []
join_lines (l ∷ ls) = l ++ 10 ∷ join_lines ls

-- `strtok` with " \n", all tokens; the first argument is what the current one has so far.
unfoldable pub tokens : Text → Text → List Text
tokens current [] = if length current == 0 then [] else current ∷ []
tokens current (b ∷ bs) =
    let fresh = tokens [] bs in
    let longer = tokens (current ++ b ∷ []) bs in
    if (b == 32) || (b == 10)
    then if length current == 0 then fresh else current ∷ fresh
    else longer

-- The arrays of names and digests, filled from their ends. A name without a digest is a `strdup` of NULL,
-- more pairs than lines a write in front of the arrays; places that stay unset are undefined too.
unfoldable pub fill : ℕ → List Text → Option (List (Text × Text))
fill zero [] = some []
fill zero (t ∷ ts) = none
fill (suc num) [] = none
fill (suc num) (name ∷ []) = none
fill (suc num) (name ∷ md5 ∷ ts) = do rest ← fill num ts; some (rest ++ (name, md5) ∷ [])

abbrev pub is_digit : ℕ → Bool
is_digit b = leb 48 b && ltb b 58

-- The digits of a number, up to another byte.
unfoldable pub read_digits : ℕ → Text → ℕ
read_digits acc [] = acc
read_digits acc (b ∷ bs) =
    let more = read_digits (acc * 10 + (b - 48)) bs in if is_digit b then more else acc

-- The word `# commit`.
abbrev pub title_word : Text
title_word = 35 ∷ 32 ∷ 99 ∷ 111 ∷ 109 ∷ 109 ∷ 105 ∷ 116 ∷ []

abbrev pub is_blank : ℕ → Bool
is_blank b = (b == 32) || (leb 9 b && ltb b 14)

unfoldable pub skip_blanks : Text → Text
skip_blanks [] = []
skip_blanks (b ∷ bs) = let rest = skip_blanks bs in if is_blank b then rest else b ∷ bs

-- `sscanf` with `%d`; no digit leaves the number unset, and an `int` is the limit of it. A sign, which the
-- tool does not write, is taken for no digit.
unfoldable pub read_number : Text → Option ℕ
read_number [] = none
read_number (b ∷ bs) =
    let n = read_digits 0 (b ∷ bs) in if is_digit b && ltb n (2 ^ 31) then some n else none

-- The number of a line that begins with `# commit`; `none` inside is another line. The code compares with
-- a string of which it has set eight bytes, and the next one is taken for its end.
unfoldable pub title_of : Text → Option (Option ℕ)
title_of l =
    if same_text (take 8 l) title_word
    then read_number (skip_blanks (drop 8 l)) >>= (λ n. some (some n))
    else some none

-- The second loop, from the byte before `(MD5)`; `none` inside is -1.
unfoldable pub find_title : Text → Text → Option (Option ℕ)
find_title temp_line [] = some none
find_title temp_line (b ∷ []) =
    if ltb (length (strncat temp_line b)) 1000
    then title_of (reverse (strncat temp_line b))
    else none
find_title temp_line (b ∷ b' ∷ bs) =
    let above = find_title [] (b' ∷ bs) in
    let longer = find_title (strncat temp_line b) (b' ∷ bs) in
    if b == 10
    then title_of (reverse temp_line) >>= (λ t. elim t [ none ↦ above | some n ↦ some (some n) ])
    else if ltb (length (strncat temp_line b)) 1000
    then longer
    else none

-- The entries of the last commit, and its number where one is asked for; without a line `(MD5)` the loop
-- for the number would run on with a negative counter.
unfoldable pub collect_old_list : Bool → Text → Option (List (Text × Text) × Option ℕ)
collect_old_list commit_num file = do
  (lines, rest) ← lines_back [] (drop 1 (reverse file))
  line ← (let l = join_lines lines in if ltb (length l) 300000 then some l else none)
  entries ← fill (length lines) (tokens [] line)
  number ← (if commit_num then rest >>= find_title md5_line_back else some (some 0))
  some (entries, number)
