-- ===== src/Loser/Recorded.antt =====
-- The files of a directory against a record of just these files: `current_status` of MP1/MP1.c finds no
-- changes; and what `commit` writes is such a record.
use ntu_system_programming.Common.{
  suc, ◌≤◌, ◌≡◌, refl, sym, ap, ◌∙◌, arith, true, false, some, List, [], ◌∷◌, ◌++◌, ltb, length,
  length-append, map, Bool-cases, Option-cases, ◌⊎◌, inl, inr,
}
use mathlib.Core.Path.{subst}
use mathlib.Core.List.{append_assoc}
use ntu_system_programming.Common.Strings.{Text, same_text}
use ntu_system_programming.Loser.{file_list, join_lines, collect_old_list}
use ntu_system_programming.Loser.Status.{
  Changes, no_changes, find_name, find_md5, new_file_line, modified_line, copied_line, md5_line,
  arrow, compare, compare_all, md5_entry, md5_entries, current_status, status, sections,
}
use ntu_system_programming.Loser.Reading.{AllEntries, and_entry, entry_line, collect_old_list_lem}

same_text-eq : (a b : Text) → same_text a b ≡ true → a ≡ b
unfolding same_text
same_text-eq [] [] e = refl
same_text-eq [] (y ∷ b) e = absurd cc
same_text-eq (x ∷ a) [] e = absurd cc
same_text-eq (x ∷ a) (y ∷ b) e = ground (arith, same_text-eq a b)

same_text_self : (a : Text) → same_text a a ≡ true
unfolding same_text
same_text_self [] = refl
same_text_self (x ∷ a) = ground (arith, same_text_self a)

-- What `status` prints where there are no changes.
abbrev pub nothing : Text
nothing = new_file_line ++ (modified_line ++ copied_line)

-- The files with their digests.
abbrev pub entries_of : (Text → Text) → List Text → List (Text × Text)
entries_of sum names = map (λ name. (name, sum name)) names

entry_same :
    (name md5 rest : Text)
    → (name ++ 32 ∷ (md5 ++ 10 ∷ [])) ++ rest ≡ (name ++ 32 ∷ md5) ++ 10 ∷ rest
entry_same name md5 rest =
    append_assoc name (32 ∷ (md5 ++ 10 ∷ [])) rest
    ∙ ap (λ u. name ++ 32 ∷ u) (append_assoc md5 (10 ∷ []) rest)
    ∙ sym (append_assoc name (32 ∷ md5) (10 ∷ rest))

module _ (sum : Text → Text) where
  find_name-entries :
      (xs ys : List Text) (name : Text)
      → find_name name (entries_of sum (xs ++ name ∷ ys)) ≡ some (sum name)
  unfolding find_name
  find_name-entries [] ys name = rw (same_text_self name) refl
  find_name-entries (x ∷ xs) ys name = elim (Bool-cases (same_text name x)) [
    | inl same ↦ rw same (ap (λ t. some (sum t)) (sym (same_text-eq name x same)))
    | inr other ↦ rw (other, find_name-entries xs ys name) refl
  ]

  compare_known :
      (prev : List (Text × Text)) (c : Changes) (name : Text)
      → find_name name prev ≡ some (sum name)
      → compare sum prev c name ≡ c
  unfolding compare
  compare_known prev c name e = rw (compare, e, same_text_self (sum name)) refl

  compare_all-entries :
      (xs ys : List Text) (c : Changes) → compare_all sum (entries_of sum (xs ++ ys)) c ys ≡ c
  unfolding compare_all
  compare_all-entries xs [] c = refl
  compare_all-entries xs (y ∷ ys) c =
      ap (λ c'. compare_all sum (entries_of sum (xs ++ y ∷ ys)) c' ys)
        (compare_known (entries_of sum (xs ++ y ∷ ys)) c y (find_name-entries xs ys y))
      ∙ subst (λ zs. compare_all sum (entries_of sum zs) c ys ≡ c) (append_assoc xs (y ∷ []) ys)
          (compare_all-entries (xs ++ y ∷ []) ys c)

  pub md5_entries-join :
      (names : List Text)
      → AllEntries (entries_of sum names)
      → md5_entries sum names ≡ some (join_lines (map entry_line (entries_of sum names)))
  unfolding md5_entries md5_entry join_lines
  md5_entries-join [] ps = refl
  md5_entries-join (name ∷ names) (and_entry p some_name small q len ps) =
      let whole = length-append name (32 ∷ (sum name ++ 10 ∷ [])) in
      let line = length-append (sum name) (10 ∷ []) in
      let fits : ltb (length (name ++ 32 ∷ (sum name ++ 10 ∷ []))) 100 ≡ true = ground arith in
      rw (fits, md5_entries-join names ps)
        (ap some (entry_same name (sum name) (join_lines (map entry_line (entries_of sum names)))))

  -- A record whose last commit is that of these files.
  abbrev pub IsRecorded : List Text → Text → Type 0
  IsRecorded names file =
      (before : Text) × (file
        ≡ before ++ 10 ∷ (md5_line ++ join_lines (map entry_line (entries_of sum names))))

  pub length-entries_of : (names : List Text) → length (entries_of sum names) ≡ length names
  length-entries_of [] = refl
  length-entries_of (name ∷ names) = ap suc (length-entries_of names)

  pub status-IsRecorded :
      (dir : List Text) (file : Text)
      → AllEntries (entries_of sum (file_list dir))
      → length (file_list dir) ≤ 3000
      → IsRecorded (file_list dir) file
      → status sum dir (some file) ≡ some nothing
  unfolding status current_status
  status-IsRecorded dir file ps few (before, e) =
      let names = file_list dir in
      let read =
        ap (collect_old_list false) e
        ∙ collect_old_list_lem false before (entries_of sum names) ps
            (omega (arith, length-entries_of names)) in
      rw (read, compare_all-entries [] names no_changes) refl

  -- Text of whole lines.
  unfoldable pub EndsLine : Text → Type 0
  EndsLine t = (t ≡ []) ⊎ ((front : Text) × (t ≡ front ++ 10 ∷ []))

  copied_more :
      (copied old name : Text) → EndsLine (copied ++ (old ++ (arrow ++ (name ++ 10 ∷ []))))
  unfolding EndsLine
  copied_more copied old name = inr (
    copied ++ (old ++ (arrow ++ name)),
    ap (λ u. copied ++ u) (sym (append_assoc old (arrow ++ name) (10 ∷ [])))
        ∙ sym (append_assoc copied (old ++ (arrow ++ name)) (10 ∷ [])),
  )

  compare-EndsLine :
      (prev : List (Text × Text)) (c : Changes) (name : Text)
      → EndsLine c.copied
      → EndsLine ((compare sum prev c name).copied)
  unfolding compare
  compare-EndsLine prev c name e = elim (Option-cases (find_name name prev)) [
    | inr (md5, found) ↦ elim (Bool-cases (same_text (sum name) md5)) [
      | inl same ↦ rw (compare, found, same) e
      | inr other ↦ rw (compare, found, other) e
    ]
    | inl new ↦ elim (Option-cases (find_md5 (sum name) prev)) [
      | inr (old, copy) ↦ rw (compare, new, copy) (copied_more c.copied old name)
      | inl fresh ↦ rw (compare, new, fresh) e
    ]
  ]

  pub copied-EndsLine :
      (prev : List (Text × Text)) (names : List Text) (c : Changes)
      → EndsLine c.copied
      → EndsLine ((compare_all sum prev c names).copied)
  unfolding compare_all
  copied-EndsLine prev [] c e = e
  copied-EndsLine prev (name ∷ names) c e =
      copied-EndsLine prev names (compare sum prev c name) (compare-EndsLine prev c name e)

  -- The word `[copied]`.
  abbrev copied_word : Text
  copied_word = 91 ∷ 99 ∷ 111 ∷ 112 ∷ 105 ∷ 101 ∷ 100 ∷ 93 ∷ []

  regroup :
      (pre new changed d rest : Text)
      → pre ++ (new_file_line ++ (new ++ (modified_line ++ (changed ++ (d ++ rest)))))
        ≡ (pre ++ (new_file_line ++ (new ++ (modified_line ++ (changed ++ d))))) ++ rest
  regroup pre new changed d rest = sym (
      append_assoc pre (new_file_line ++ (new ++ (modified_line ++ (changed ++ d)))) rest
      ∙ ap (λ u. pre ++ (new_file_line ++ u))
          (append_assoc new (modified_line ++ (changed ++ d)) rest
            ∙ ap (λ u. new ++ (modified_line ++ u)) (append_assoc changed d rest)))

  pub sections-IsRecorded :
      (names : List Text) (pre : Text) (c : Changes)
      → EndsLine c.copied
      → IsRecorded names (pre ++ sections c (join_lines (map entry_line (entries_of sum names))))
  unfolding EndsLine
  sections-IsRecorded names pre c (inl none_copied) =
      let rest = md5_line ++ join_lines (map entry_line (entries_of sum names)) in
      (
        pre ++ (new_file_line ++ (c.new_file ++ (modified_line ++ (c.modified ++ copied_word)))),
        rw none_copied (regroup pre c.new_file c.modified copied_word (10 ∷ rest)),
      )
  sections-IsRecorded names pre c (inr (front, e)) =
      let rest = md5_line ++ join_lines (map entry_line (entries_of sum names)) in
      (
        pre
            ++ (new_file_line
                ++ (c.new_file ++ (modified_line ++ (c.modified ++ (copied_line ++ front))))),
        rw (e, append_assoc front (10 ∷ []) rest)
            (regroup pre c.new_file c.modified (copied_line ++ front) (10 ∷ rest)),
      )
