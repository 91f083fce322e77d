-- ===== src/Loser/Numbered.antt =====
-- The commits of MP1/MP1.c one after the other: each record is read back with its number.
use ntu_system_programming.Common.{
  ℕ, ◌≤◌, ◌<◌, ◌≡◌, ◌≢◌, ◌^◌, refl, sym, ap, ◌∙◌, arith, true, false, ◌&&◌, Option, none, some,
  List, [], ◌∷◌, ◌++◌, ◌==◌, length, map, take, Bool-cases, ◌⊎◌, inl, inr,
}
use mathlib.Core.Path.{subst}
use mathlib.Core.List.{reverse, reverse-append, append_assoc}
use ntu_system_programming.Common.Strings.{Text, same_text}
use ntu_system_programming.Loser.{file_list, lines_back, join_lines, collect_old_list}
use ntu_system_programming.Loser.Status.{
  Changes, no_changes, new_file_line, modified_line, copied_line, md5_line, compare_all,
  md5_entries, fits_buffers, current_status, name_lines, title, sections, is_empty, commit,
}
use ntu_system_programming.Loser.Lines.{IsLine, length-reverse_aux}
use ntu_system_programming.Loser.Reading.{AllEntries, entry_line}
use ntu_system_programming.Loser.Recorded.{entries_of, length-entries_of, md5_entries-join}
use ntu_system_programming.Loser.Commits.{
  next_number, commit-some, commit-first_record, first_record,
}
use ntu_system_programming.Loser.Counting.{IsStart, at_start, after_line, collect-titled}
use ntu_system_programming.Loser.Quiet.{
  AreLines, AreLines-append, AreLines-line, AreLines-nil, AreChanges, changes-AreChanges,
  name_lines-AreLines,
}

new_file_line-AreLines : AreLines new_file_line
unfolding IsLine same_text
new_file_line-AreLines =
    AreLines-line (take 10 new_file_line)
      (record { line = ground arith; short = omega arith; quiet = refl; quiet_end = refl })

modified_line-AreLines : AreLines modified_line
unfolding IsLine same_text
modified_line-AreLines =
    AreLines-line (take 10 modified_line)
      (record { line = ground arith; short = omega arith; quiet = refl; quiet_end = refl })

copied_line-AreLines : AreLines copied_line
unfolding IsLine same_text
copied_line-AreLines =
    AreLines-line (take 8 copied_line)
      (record { line = ground arith; short = omega arith; quiet = refl; quiet_end = refl })

-- What stands between the title and `(MD5)`.
abbrev middle : Changes → Text
middle c =
    new_file_line ++ (c.new_file ++ (modified_line ++ (c.modified ++ (copied_line ++ c.copied))))

middle-AreLines : (c : Changes) → AreChanges c → AreLines (middle c)
middle-AreLines c k =
    AreLines-append new_file_line
      (c.new_file ++ (modified_line ++ (c.modified ++ (copied_line ++ c.copied))))
      new_file_line-AreLines
      (AreLines-append c.new_file (modified_line ++ (c.modified ++ (copied_line ++ c.copied)))
        k.new_file
        (AreLines-append modified_line (c.modified ++ (copied_line ++ c.copied))
          modified_line-AreLines
          (AreLines-append c.modified (copied_line ++ c.copied) k.modified
            (AreLines-append copied_line c.copied copied_line-AreLines k.copied))))

middle-sections : (c : Changes) (rest : Text) → sections c rest ≡ middle c ++ (md5_line ++ rest)
middle-sections c rest = sym (
    ap (λ u. new_file_line ++ u)
      (append_assoc c.new_file (modified_line ++ (c.modified ++ (copied_line ++ c.copied)))
          (md5_line ++ rest)
        ∙ ap (λ u. c.new_file ++ (modified_line ++ u))
            (append_assoc c.modified (copied_line ++ c.copied) (md5_line ++ rest))))

some_line : (b : ℕ) (t : Text) (lines : List Text) → b ∷ t ≡ join_lines lines → 0 < length lines
unfolding join_lines
some_line b t [] e = absurd cc
some_line b t (l ∷ lines) e = omega arith

collect-sections :
    (pre : Text) (n : ℕ) (c : Changes) (es : List (Text × Text))
    → IsStart (reverse pre)
    → n < 2 ^ 31
    → AreChanges c
    → AllEntries es
    → length es ≤ 3000
    → collect_old_list true (pre ++ (title n ++ sections c (join_lines (map entry_line es))))
      ≡ some (es, some n)
collect-sections pre n c es start small k ps few =
    let body = join_lines (map entry_line es) in
    let lines = middle-AreLines c k in
    ap (λ u. collect_old_list true (pre ++ (title n ++ u)))
      (middle-sections c body ∙ ap (λ u. u ++ (md5_line ++ body)) lines.joined)
    ∙ collect-titled pre n lines.lines es start small (some_line 91 _ lines.lines lines.joined)
        lines.quiet ps few

-- A record that is read is not empty, so a title behind it and a newline can be found.
not_empty_file :
    (prev : List (Text × Text)) (number : Option ℕ) → collect_old_list true [] ≢ some (prev, number)
unfolding collect_old_list lines_back
not_empty_file prev number e = absurd (ground arith)

starts_after : (t : Text) → 0 < length t → IsStart (10 ∷ t)
starts_after [] some_byte = absurd (omega arith)
starts_after (b ∷ t) some_byte = after_line

some_byte_of : (file : Text) → file ≢ [] → 0 < length file
some_byte_of [] ne = absurd (ne refl)
some_byte_of (b ∷ t) ne = omega arith

starts_behind :
    (file : Text) (prev : List (Text × Text)) (number : Option ℕ)
    → collect_old_list true file ≡ some (prev, number)
    → IsStart (reverse (file ++ 10 ∷ []))
starts_behind file prev number e =
    let ne : file ≢ [] =
      λ empty. not_empty_file prev number (ap (collect_old_list true) (sym empty) ∙ e) in
    subst IsStart (sym (reverse-append file (10 ∷ []))) (
      starts_after (reverse file) (omega (arith, length-reverse_aux file [], some_byte_of file ne)))

current_status-some :
    (sum : Text → Text) (names : List Text) (file entries : Text) (prev : List (Text × Text))
    (number : Option ℕ)
    → collect_old_list true file ≡ some (prev, number)
    → md5_entries sum names ≡ some entries
    → fits_buffers (compare_all sum prev no_changes names) ≡ true
    → current_status sum names true file
      ≡ some (number, compare_all sum prev no_changes names, entries)
unfolding current_status
current_status-some sum names file entries prev number read written fits =
    rw (read, written, fits) refl

is_empty-eq : (t : Text) → is_empty t ≡ true → t ≡ []
is_empty-eq [] e = refl
is_empty-eq (b ∷ t) e = absurd (ground arith)

no_changes-eq :
    (c : Changes)
    → (is_empty c.new_file && (is_empty c.modified && is_empty c.copied)) ≡ true
    → c ≡ no_changes
no_changes-eq c e =
    let new = is_empty-eq c.new_file (ground arith) in
    let changed = is_empty-eq c.modified (ground arith) in
    let copied = is_empty-eq c.copied (ground arith) in
    λ i. record { new_file = new i; modified = changed i; copied = copied i }

module _ (sum : Text → Text) (dir : List Text) (ps : AllEntries (entries_of sum (file_list dir)))
    (few : length (file_list dir) ≤ 3000) where
  -- For at least one and at most 3000 files with names of less than 60 bytes, without blanks, and
  -- digests of 32 bytes, the first commit makes a record; it is read back as these files with their
  -- digests, and the number 1.
  pub first_commit_lem :
      0 < length (file_list dir)
      → (f : Text) × (commit sum dir none ≡ some (some f))
        × (collect_old_list true f ≡ some (entries_of sum (file_list dir), some 1))
  first_commit_lem some_file =
      let names = file_list dir in
      let files : (length names == 0) ≡ false = ground arith in
      let c : Changes = record { new_file = name_lines names; modified = []; copied = [] } in
      (
        first_record sum names,
        commit-first_record sum dir ps ∙ rw files refl,
        collect-sections [] 1 c (entries_of sum names) at_start (omega arith)
            (record {
              new_file = name_lines-AreLines sum names ps;
              modified = AreLines-nil;
              copied = AreLines-nil;
            })
            ps (omega (arith, length-entries_of sum names)),
      )

  -- For at most 3000 files with names of less than 60 bytes, without blanks, and digests of 32 bytes,
  -- and a record that is read as entries of this kind and a number, where the strings of the changes
  -- fit their buffers and the next number an `int`: a commit leaves the record as it is, where there
  -- are no changes, or what it leaves is read back as the files of the directory with their digests
  -- and the next number.
  pub next_commit_lem :
      (file : Text) (prev : List (Text × Text)) (number : Option ℕ)
      → collect_old_list true file ≡ some (prev, number)
      → AllEntries prev
      → next_number sum number < 2 ^ 31
      → fits_buffers (compare_all sum prev no_changes (file_list dir)) ≡ true
      → (f : Text) × (commit sum dir (some file) ≡ some (some f))
        × (((f ≡ file) × (compare_all sum prev no_changes (file_list dir) ≡ no_changes))
            ⊎ (collect_old_list true f
                ≡ some (entries_of sum (file_list dir), some (next_number sum number))))
  next_commit_lem file prev number read qs small fits =
      let names = file_list dir in
      let c = compare_all sum prev no_changes names in
      let written = join_lines (map entry_line (entries_of sum names)) in
      let empty = is_empty c.new_file && (is_empty c.modified && is_empty c.copied) in
      let s =
        current_status-some sum names file written prev number read (md5_entries-join sum names ps)
          fits in
      let made = commit-some sum dir file number c written s in
      elim (Bool-cases empty) [
        | inl same ↦ (file, made ∙ rw same refl, inl (refl, no_changes-eq c same))
        | inr different ↦
            let n = next_number sum number in
            let f = file ++ (10 ∷ (title n ++ sections c written)) in
            (
              f,
              made ∙ rw different refl,
              inr (
                  ap (collect_old_list true)
                    (sym (append_assoc file (10 ∷ []) (title n ++ sections c written)))
                  ∙ collect-sections (file ++ 10 ∷ []) n c (entries_of sum names)
                      (starts_behind file prev number read) small
                      (changes-AreChanges sum prev names qs ps) ps
                      (omega (arith, length-entries_of sum names))),
            )
      ]
