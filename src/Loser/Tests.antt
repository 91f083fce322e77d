-- ===== src/Loser/Tests.antt =====
-- The backup tool on small directories, and its theorems there.
use ntu_system_programming.Common.{
  ◌+◌, ◌≤◌, ◌<◌, ◌≡◌, refl, arith, true, none, some, List, [], ◌∷◌, ◌++◌, length, replicate, ◌⊎◌,
}
use ntu_system_programming.Common.Strings.{Text, same_text}
use ntu_system_programming.Loser.{
  record_name, file_list, join_lines, collect_old_list, lines_back, tokens, fill, find_title,
  title_of, skip_blanks, read_number, read_digits,
}
use ntu_system_programming.Loser.Status.{
  no_changes, compare_all, compare, find_name, find_md5, md5_entries, md5_entry, fits_buffers,
  name_lines, status, decimal, title, commit,
}
use ntu_system_programming.Loser.Lines.{IsPlain, IsLine}
use ntu_system_programming.Loser.Reading.{AllEntries, no_entries, and_entry}
use ntu_system_programming.Loser.Recorded.{nothing, entries_of}
use ntu_system_programming.Loser.Commits.{next_number, first_record, status_after_commit}
use ntu_system_programming.Loser.Titles.{title_text}
use ntu_system_programming.Loser.Counting.{after_line}
use ntu_system_programming.Loser.Log.{get_log}
use ntu_system_programming.Loser.Printed.{AllBody, no_body, and_body, get_log_lem}
use ntu_system_programming.Loser.Numbered.{next_commit_lem}

-- The digest of a file is 32 times one byte, the first of its name and 23 more.
abbrev sum : Text → Text
sum name = elim name [ [] ↦ replicate 32 121 | b ∷ t ↦ replicate 32 (b + 23) ]

abbrev dir : List Text
dir = (46 ∷ []) ∷ (46 ∷ 46 ∷ []) ∷ record_name ∷ (97 ∷ []) ∷ (98 ∷ []) ∷ []

files : file_list dir ≡ (97 ∷ []) ∷ (98 ∷ []) ∷ []
unfolding file_list same_text
files = refl

abbrev later : List Text
later = dir ++ (99 ∷ []) ∷ []

all_entries : AllEntries (entries_of sum ((97 ∷ []) ∷ (98 ∷ []) ∷ []))
unfolding IsPlain
all_entries =
    and_entry (ground arith) (λ e. cc) (omega arith) (ground arith) refl
      (and_entry (ground arith) (λ e. cc) (omega arith) (ground arith) refl no_entries)

dir_entries : AllEntries (entries_of sum (file_list dir))
unfolding file_list same_text
dir_entries = all_entries

two_files : 0 < length (file_list dir)
unfolding file_list same_text
two_files = omega arith

few_files : length (file_list dir) ≤ 3000
unfolding file_list same_text
few_files = omega arith

abbrev first : Text
first = first_record sum ((97 ∷ []) ∷ (98 ∷ []) ∷ [])

first_made : commit sum dir none ≡ some (some first)
unfolding commit file_list same_text md5_entries md5_entry join_lines
first_made = refl

first_read :
    collect_old_list true first ≡ some (entries_of sum ((97 ∷ []) ∷ (98 ∷ []) ∷ []), some 1)
unfolding collect_old_list lines_back tokens fill find_title title_of skip_blanks read_number
    read_digits same_text join_lines name_lines decimal
first_read = refl

status_after_commit_example : status sum dir (some first) ≡ some nothing
status_after_commit_example =
    status_after_commit sum dir none first dir_entries few_files first_made

fits_later :
    fits_buffers
      (compare_all sum (entries_of sum ((97 ∷ []) ∷ (98 ∷ []) ∷ [])) no_changes (file_list later))
    ≡ true
unfolding file_list same_text compare_all compare find_name find_md5
fits_later = refl

later_entries : AllEntries (entries_of sum (file_list later))
unfolding file_list same_text IsPlain
later_entries =
    and_entry (ground arith) (λ e. cc) (omega arith) (ground arith) refl
      (and_entry (ground arith) (λ e. cc) (omega arith) (ground arith) refl
        (and_entry (ground arith) (λ e. cc) (omega arith) (ground arith) refl no_entries))

few_later : length (file_list later) ≤ 3000
unfolding file_list same_text
few_later = omega arith

-- A third file before the second commit.
next_commit_lem_example :
    (f : Text) × (commit sum later (some first) ≡ some (some f))
    × (((f ≡ first)
          × (compare_all sum
                (entries_of sum ((97 ∷ []) ∷ (98 ∷ []) ∷ []))
                no_changes
                (file_list later)
              ≡ no_changes))
        ⊎ (collect_old_list true f
            ≡ some (entries_of sum (file_list later), some (next_number sum (some 1)))))
next_commit_lem_example =
    next_commit_lem sum later later_entries few_later first
      (entries_of sum ((97 ∷ []) ∷ (98 ∷ []) ∷ [])) (some 1) first_read all_entries (omega arith)
      fits_later

-- A record of one commit, without files.
abbrev log_lines : List Text
log_lines = (91 ∷ 93 ∷ []) ∷ (40 ∷ 41 ∷ []) ∷ []

log_lines-AllBody : AllBody log_lines
unfolding IsLine same_text
log_lines-AllBody =
    and_body
      (record { line = ground arith; short = omega arith; some_byte = λ e. cc; quiet = refl })
      (and_body
        (record { line = ground arith; short = omega arith; some_byte = λ e. cc; quiet = refl })
        no_body)

log_lines_fit : length (join_lines log_lines) + length (title_text 7) < 300000
unfolding join_lines decimal
log_lines_fit = omega arith

get_log_lem_example :
    get_log 1 (some ((120 ∷ 10 ∷ []) ++ (title 7 ++ join_lines log_lines)))
    ≡ some (title 7 ++ join_lines log_lines)
get_log_lem_example =
    get_log_lem (120 ∷ 10 ∷ []) 7 log_lines after_line (omega arith) log_lines-AllBody log_lines_fit
