-- ===== src/Loser/Log.antt =====
-- `get_log` of MP1/MP1.c: it prints the last commits of a record, which it reads from its end.
use ntu_system_programming.Common.{
  ℕ, ◌+◌, ◌-◌, Bool, true, false, ◌&&◌, ◌||◌, not, Option, none, some, [], ◌∷◌, ◌++◌, ltb, ◌==◌,
  if◌then◌else◌, ◌>>=◌, length, take, drop,
}
use mathlib.Core.List.{reverse}
use ntu_system_programming.Common.Strings.{Text, same_text}
use ntu_system_programming.Loser.{strncat, title_word}

abbrev pub is_nil : Text → Bool
is_nil [] = true
is_nil (b ∷ t) = false

-- `line` holds what was read since the last title, from its end. `none` is a line that is longer than its
-- buffer; as in `title_of`, the byte behind the eight that are set is taken for the end of the string.
unfoldable pub log_line : ℕ → Text → Text → Text → (ℕ → Text → Option Text) → Option Text
log_line num_req line temp_line bs next =
    let whole = line ++ temp_line in
    let printed = reverse whole ++ 10 ∷ (if (num_req == 1) || is_nil bs then [] else 10 ∷ []) in
    if ltb (length whole) 300000
    then if same_text (take 8 (reverse temp_line)) title_word
      then next (num_req - 1) [] >>= (λ more. some (printed ++ more))
      else if is_nil whole
      then next num_req []
      else if ltb (length whole + 1) 300000
      then next num_req (whole ++ 10 ∷ [])
      else none
    else none

-- The loop from the byte before the last one of the file.
unfoldable pub log_loop : ℕ → Text → Text → Text → Option Text
log_loop num_req line temp_line [] = some []
log_loop num_req line temp_line (b ∷ bs) =
    let next : ℕ → Text → Option Text = λ num_req' line'. log_loop num_req' line' [] bs in
    let longer = log_loop num_req line (strncat temp_line b) bs in
    if num_req == 0
    then some []
    else if (b == 10) && not (is_nil bs)
    then log_line num_req line temp_line bs next
    else if ltb (length (strncat temp_line b)) 1000
    then if is_nil bs then log_line num_req line (strncat temp_line b) bs next else longer
    else none

-- What is printed; without a record, nothing.
unfoldable pub get_log : ℕ → Option Text → Option Text
get_log num_req none = some []
get_log num_req (some file) = log_loop num_req [] [] (drop 1 (reverse file))
