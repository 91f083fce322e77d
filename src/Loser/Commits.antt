-- ===== src/Loser/Commits.antt =====
-- What `commit` of MP1/MP1.c does, and `status` after it.
use ntu_system_programming.Common.{
  ℕ, ◌+◌, ◌≤◌, ◌≡◌, refl, sym, ap, ◌∙◌, arith, true, false, ◌&&◌, Option, none, some, List, [], ◌∷◌,
  ◌++◌, ◌==◌, if◌then◌else◌, length, map, Bool-cases, Option-cases, inl, inr,
}
use mathlib.Core.Path.{subst}
use mathlib.Core.List.{append_assoc}
use ntu_system_programming.Common.Strings.{Text}
use ntu_system_programming.Loser.{file_list, join_lines, collect_old_list}
use ntu_system_programming.Loser.Status.{
  Changes, no_changes, compare_all, md5_entries, fits_buffers, current_status, name_lines, status,
  title, sections, is_empty, commit,
}
use ntu_system_programming.Loser.Reading.{AllEntries, entry_line}
use ntu_system_programming.Loser.Recorded.{
  nothing, entries_of, EndsLine, md5_entries-join, status-IsRecorded, sections-IsRecorded,
  copied-EndsLine,
}

module _ (sum : Text → Text) where
  -- What `commit` works with.
  record Compared (names : List Text) (file : Text) (number : Option ℕ) (c : Changes)
      (entries : Text) : Type 0 where
    prev : List (Text × Text)
    collected : collect_old_list true file ≡ some (prev, number)
    compared : c ≡ compare_all sum prev no_changes names
    written : md5_entries sum names ≡ some entries
    fits : fits_buffers c ≡ true

  same_parts :
      {A B C : Type 0} (a a' : A) (b b' : B) (c c' : C)
      → ◌≡◌ {A = Option (A × B × C)} (some (a, b, c)) (some (a', b', c'))
      → (a ≡ a') × (b ≡ b') × (c ≡ c')
  same_parts a a' b b' c c' e = (cc, cc, cc)

  current_status-Compared :
      (names : List Text) (file : Text) (number : Option ℕ) (c : Changes) (entries : Text)
      → current_status sum names true file ≡ some (number, c, entries)
      → Compared names file number c entries
  unfolding current_status
  current_status-Compared names file number c entries e =
      elim (Option-cases (collect_old_list true file)) [
        | inl undefined ↦ absurd (ground arith)
        | inr ((prev, n), read) ↦ elim (Option-cases (md5_entries sum names)) [
          | inl undefined ↦ absurd (ground arith)
          | inr (written, w) ↦
              elim (Bool-cases (fits_buffers (compare_all sum prev no_changes names))) [
                | inr no_fit ↦ absurd (ground arith)
                | inl fits ↦
                    let made = compare_all sum prev no_changes names in
                    let at : current_status sum names true file ≡ some (n, made, written) =
                      rw (read, w, fits) refl in
                    let (same, same', same'') =
                      same_parts n number made c written entries (sym at ∙ e) in
                    record {
                      prev = prev;
                      collected = read ∙ ap (λ m. some (prev, m)) same;
                      compared = sym same';
                      written = w ∙ ap some same'';
                      fits = ap fits_buffers (sym same') ∙ fits;
                    }
              ]
        ]
      ]

  collect_unasked :
      (file : Text) (prev : List (Text × Text)) (number : Option ℕ)
      → collect_old_list true file ≡ some (prev, number)
      → collect_old_list false file ≡ some (prev, some 0)
  unfolding collect_old_list
  collect_unasked file prev number e = ground arith

  is_empty-eq : (t : Text) → is_empty t ≡ true → t ≡ []
  is_empty-eq [] e = refl
  is_empty-eq (b ∷ t) e = absurd (ground arith)

  status_unchanged :
      (dir : List Text) (file : Text) (number : Option ℕ) (c : Changes) (entries : Text)
      → Compared (file_list dir) file number c entries
      → (is_empty c.new_file && (is_empty c.modified && is_empty c.copied)) ≡ true
      → status sum dir (some file) ≡ some nothing
  unfolding status current_status
  status_unchanged dir file number c entries k e =
      let read = collect_unasked file k.prev number k.collected in
      let new = is_empty-eq c.new_file (ground arith) in
      let changed = is_empty-eq c.modified (ground arith) in
      let copied = is_empty-eq c.copied (ground arith) in
      rw (read, sym k.compared, k.fits, new, changed, copied) refl

  abbrev pub next_number : Option ℕ → ℕ
  next_number number = elim number [ none ↦ 0 | some n ↦ n + 1 ]

  pub commit-some :
      (dir : List Text) (file : Text) (number : Option ℕ) (c : Changes) (entries : Text)
      → current_status sum (file_list dir) true file ≡ some (number, c, entries)
      → commit sum dir (some file)
        ≡ some (
            some (
              if is_empty c.new_file && (is_empty c.modified && is_empty c.copied)
              then file
              else file ++ (10 ∷ (title (next_number number) ++ sections c entries))))
  unfolding commit
  commit-some dir file number c entries e = rw e refl

  commit-first :
      (dir : List Text) (entries : Text)
      → md5_entries sum (file_list dir) ≡ some entries
      → commit sum dir none
        ≡ some (
            if length (file_list dir) == 0
            then none
            else some (
                title 1
                ++ sections
                    (record { new_file = name_lines (file_list dir); modified = []; copied = [] })
                    entries))
  unfolding commit
  commit-first dir entries e = rw e refl

  commit-undefined :
      (dir : List Text) (file : Text)
      → current_status sum (file_list dir) true file ≡ none
      → commit sum dir (some file) ≡ none
  unfolding commit
  commit-undefined dir file e = rw e refl

  status_after_changes :
      (dir : List Text) (file f : Text)
      → AllEntries (entries_of sum (file_list dir))
      → length (file_list dir) ≤ 3000
      → commit sum dir (some file) ≡ some (some f)
      → status sum dir (some f) ≡ some nothing
  unfolding EndsLine
  status_after_changes dir file f ps few e =
      let names = file_list dir in
      let written = join_lines (map entry_line (entries_of sum names)) in
      elim (Option-cases (current_status sum names true file)) [
        | inl undefined ↦
            let no_result = commit-undefined dir file undefined in absurd (ground arith)
        | inr ((number, c, entries), s) ↦
            let k = current_status-Compared names file number c entries s in
            let made = commit-some dir file number c entries s in
            let empty = is_empty c.new_file && (is_empty c.modified && is_empty c.copied) in
            elim (Bool-cases empty) [
              | inl same ↦
                  let unchanged : f ≡ file = ground arith in
                  ap (λ g. status sum dir (some g)) unchanged
                  ∙ status_unchanged dir file number c entries k same
              | inr different ↦
                  let wrote : entries ≡ written =
                    (let joined = md5_entries-join sum names ps in
                      let w = k.written in ground arith) in
                  let pre = file ++ (10 ∷ title (next_number number)) in
                  let f_is : f ≡ file ++ (10 ∷ (title (next_number number) ++ sections c entries)) =
                    ground arith in
                  let grouped : f ≡ pre ++ sections c written =
                    f_is
                    ∙ ap (λ u. file ++ (10 ∷ (title (next_number number) ++ sections c u))) wrote
                    ∙ sym (
                        append_assoc file (10 ∷ title (next_number number)) (sections c written)) in
                  let copied =
                    subst (λ d. EndsLine sum (d.copied)) (sym k.compared)
                      (copied-EndsLine sum k.prev names no_changes (inl refl)) in
                  let (before, at) = sections-IsRecorded sum names pre c copied in
                  status-IsRecorded sum dir f ps few (before, grouped ∙ at)
            ]
      ]

  -- The record that the first commit makes.
  abbrev pub first_record : List Text → Text
  first_record names =
      title 1
      ++ sections (record { new_file = name_lines names; modified = []; copied = [] })
          (join_lines (map entry_line (entries_of sum names)))

  pub commit-first_record :
      (dir : List Text)
      → AllEntries (entries_of sum (file_list dir))
      → commit sum dir none
        ≡ some (if length (file_list dir) == 0 then none else some (first_record (file_list dir)))
  commit-first_record dir ps =
      commit-first dir (join_lines (map entry_line (entries_of sum (file_list dir))))
        (md5_entries-join sum (file_list dir) ps)

  status_after_first :
      (dir : List Text) (f : Text)
      → AllEntries (entries_of sum (file_list dir))
      → length (file_list dir) ≤ 3000
      → commit sum dir none ≡ some (some f)
      → status sum dir (some f) ≡ some nothing
  unfolding EndsLine
  status_after_first dir f ps few e =
      let names = file_list dir in
      let made = commit-first_record dir ps in
      elim (Bool-cases (length names == 0)) [
        | inl empty ↦ absurd (ground arith)
        | inr files ↦
            let f_is : f ≡ first_record names = ground arith in
            let (before, at) =
              sections-IsRecorded sum names (title 1)
                (record { new_file = name_lines names; modified = []; copied = [] }) (inl refl) in
            status-IsRecorded sum dir f ps few (before, f_is ∙ at)
      ]

  -- For at most 3000 files, with names of less than 60 bytes, without blanks, and digests of 32: after a
  -- commit that leaves a record, whether it is the first one, has changes to write or none, a status of
  -- the same directory shows no file as new, modified or copied.
  pub status_after_commit :
      (dir : List Text) (file : Option Text) (f : Text)
      → AllEntries (entries_of sum (file_list dir))
      → length (file_list dir) ≤ 3000
      → commit sum dir file ≡ some (some f)
      → status sum dir (some f) ≡ some nothing
  status_after_commit dir none f ps few e = status_after_first dir f ps few e
  status_after_commit dir (some file) f ps few e = status_after_changes dir file f ps few e
