-- ===== src/Loser/Quiet.antt =====
-- The lines that `current_status` of MP1/MP1.c writes: none of them reads like the title of a commit.
use ntu_system_programming.Common.{
  ◌<◌, ◌≡◌, ◌≢◌, refl, sym, ap, ◌∙◌, arith, false, some, List, [], ◌∷◌, ◌++◌, ◌==◌, length,
  length-append, take, Bool-cases, Option-cases, inl, inr,
}
use mathlib.Core.Path.{subst}
use mathlib.Core.List.{append_assoc, append-nil}
use ntu_system_programming.Common.Strings.{Text, same_text}
use ntu_system_programming.Loser.{title_word, join_lines}
use ntu_system_programming.Loser.Status.{
  Changes, no_changes, find_name, find_md5, arrow, compare, compare_all, name_lines,
}
use ntu_system_programming.Loser.Lines.{IsPlain, IsLine, IsPlain-IsLine, IsLine-append}
use ntu_system_programming.Loser.Reading.{AllEntries, no_entries, and_entry}
use ntu_system_programming.Loser.Titles.{IsQuiet, AllQuiet, no_quiet, and_quiet, md5_word}
use ntu_system_programming.Loser.Recorded.{entries_of}

pub record IsName (t : Text) : Type 0 where
  pub plain : IsPlain t
  pub some_byte : t ≢ []
  pub small : length t < 60

-- A name, and behind it something else than a blank.
no_title :
    (name r : Text)
    → IsPlain name
    → name ≢ []
    → ((t : Text) → r ≢ 32 ∷ t)
    → same_text (take 8 (name ++ r)) title_word ≡ false
unfolding same_text IsPlain
no_title [] r p ne other = absurd (ne refl)
no_title (b ∷ []) [] p ne other = ground arith
no_title (b ∷ []) (c ∷ r) p ne other = elim (Bool-cases (c == 32)) [
  | inl blank ↦ absurd (other r (ap (λ x. x ∷ r) (ground arith)))
  | inr no_blank ↦ ground arith
]
no_title (b ∷ c ∷ name) r (nz, nl, ns, (nz', nl', ns', p)) ne other = ground arith

no_title_copied :
    (old r : Text)
    → IsPlain old
    → old ≢ []
    → same_text (take 8 (old ++ (arrow ++ r))) title_word ≡ false
unfolding same_text IsPlain
no_title_copied [] r p ne = absurd (ne refl)
no_title_copied (b ∷ []) r p ne = ground arith
no_title_copied (b ∷ c ∷ old) r (nz, nl, ns, (nz', nl', ns', p)) ne = ground arith

name-IsQuiet : (name : Text) → IsName name → IsQuiet name
name-IsQuiet name n = record {
  line = IsPlain-IsLine name n.plain;
  short = omega (arith, n.small);
  quiet =
      ap (λ t. same_text (take 8 t) title_word) (sym (append-nil name))
      ∙ no_title name [] n.plain n.some_byte (λ t e. cc);
  quiet_end = no_title name md5_word n.plain n.some_byte (λ t e. ground arith);
}

arrow-IsLine : IsLine arrow
unfolding IsLine
arrow-IsLine = ground arith

copied-IsQuiet : (old name : Text) → IsName old → IsName name → IsQuiet (old ++ (arrow ++ name))
copied-IsQuiet old name o n = record {
  line =
      IsLine-append old (arrow ++ name) (IsPlain-IsLine old o.plain)
        (IsLine-append arrow name arrow-IsLine (IsPlain-IsLine name n.plain));
  short = omega (arith, length-append old (arrow ++ name), o.small, n.small);
  quiet = no_title_copied old name o.plain o.some_byte;
  quiet_end =
      ap (λ t. same_text (take 8 t) title_word) (append_assoc old (arrow ++ name) md5_word)
      ∙ no_title_copied old (name ++ md5_word) o.plain o.some_byte;
}

join_lines-append : (xs ys : List Text) → join_lines (xs ++ ys) ≡ join_lines xs ++ join_lines ys
unfolding join_lines
join_lines-append [] ys = refl
join_lines-append (x ∷ xs) ys =
    ap (λ t. x ++ 10 ∷ t) (join_lines-append xs ys)
    ∙ sym (append_assoc x (10 ∷ join_lines xs) (join_lines ys))

AllQuiet-append : (xs ys : List Text) → AllQuiet xs → AllQuiet ys → AllQuiet (xs ++ ys)
AllQuiet-append [] ys no_quiet qs = qs
AllQuiet-append (x ∷ xs) ys (and_quiet p ps) qs = and_quiet p (AllQuiet-append xs ys ps qs)

-- A string of whole lines, none like a title.
pub record AreLines (t : Text) : Type 0 where
  pub lines : List Text
  pub joined : t ≡ join_lines lines
  pub quiet : AllQuiet lines

pub AreLines-line : (l : Text) → IsQuiet l → AreLines (l ++ 10 ∷ [])
AreLines-line l q = record {
  lines = l ∷ [];
  joined = unfold join_lines in refl;
  quiet = and_quiet q no_quiet;
}

pub AreLines-append : (s t : Text) → AreLines s → AreLines t → AreLines (s ++ t)
AreLines-append s t p q = record {
  lines = p.lines ++ q.lines;
  joined = rw (p.joined, q.joined) (sym (join_lines-append p.lines q.lines));
  quiet = AllQuiet-append p.lines q.lines p.quiet q.quiet;
}

pub AreLines-nil : AreLines []
AreLines-nil = record { lines = []; joined = unfold join_lines in refl; quiet = no_quiet }

pub record AreChanges (c : Changes) : Type 0 where
  pub new_file : AreLines c.new_file
  pub modified : AreLines c.modified
  pub copied : AreLines c.copied

find_md5-IsName :
    (md5 old : Text) (prev : List (Text × Text))
    → AllEntries prev
    → find_md5 md5 prev ≡ some old
    → IsName old
unfolding find_md5
find_md5-IsName md5 old [] no_entries e = absurd cc
find_md5-IsName md5 old ((n, m) ∷ es) (and_entry p ne small q len ps) e =
    elim (Bool-cases (same_text md5 m)) [
      | inl same ↦
          let here : n ≡ old = ground arith in
          subst IsName here (record { plain = p; some_byte = ne; small = small })
      | inr other ↦ find_md5-IsName md5 old es ps (ground arith)
    ]

module _ (sum : Text → Text) (prev : List (Text × Text)) (ps : AllEntries prev) where
  compare-AreChanges :
      (c : Changes) (name : Text)
      → IsName name
      → AreChanges c
      → AreChanges (compare sum prev c name)
  unfolding compare
  compare-AreChanges c name n k =
      let line = AreLines-line name (name-IsQuiet name n) in
      elim (Option-cases (find_name name prev)) [
        | inr (md5, found) ↦ elim (Bool-cases (same_text (sum name) md5)) [
          | inl same ↦ rw (compare, found, same) k
          | inr other ↦
              rw (compare, found, other)
                (record {
                  new_file = k.new_file;
                  modified = AreLines-append c.modified (name ++ 10 ∷ []) k.modified line;
                  copied = k.copied;
                })
        ]
        | inl new ↦ elim (Option-cases (find_md5 (sum name) prev)) [
          | inr (old, copy) ↦
              let whole =
                AreLines-line (old ++ (arrow ++ name))
                  (copied-IsQuiet old name (find_md5-IsName (sum name) old prev ps copy) n) in
              rw (compare, new, copy)
                (record {
                  new_file = k.new_file;
                  modified = k.modified;
                  copied =
                      AreLines-append c.copied (old ++ (arrow ++ (name ++ 10 ∷ []))) k.copied
                        (subst AreLines (append_assoc old (arrow ++ name) (10 ∷ [])) whole);
                })
          | inl fresh ↦
              rw (compare, new, fresh)
                (record {
                  new_file = AreLines-append c.new_file (name ++ 10 ∷ []) k.new_file line;
                  modified = k.modified;
                  copied = k.copied;
                })
        ]
      ]

  compare_all-AreChanges :
      (names : List Text) (c : Changes)
      → AllEntries (entries_of sum names)
      → AreChanges c
      → AreChanges (compare_all sum prev c names)
  unfolding compare_all
  compare_all-AreChanges [] c qs k = k
  compare_all-AreChanges (name ∷ names) c (and_entry p ne small q len qs) k =
      compare_all-AreChanges names (compare sum prev c name) qs
        (compare-AreChanges c name (record { plain = p; some_byte = ne; small = small }) k)

pub changes-AreChanges :
    (sum : Text → Text) (prev : List (Text × Text)) (names : List Text)
    → AllEntries prev
    → AllEntries (entries_of sum names)
    → AreChanges (compare_all sum prev no_changes names)
changes-AreChanges sum prev names ps qs =
    compare_all-AreChanges sum prev ps names no_changes qs
      (record { new_file = AreLines-nil; modified = AreLines-nil; copied = AreLines-nil })

pub name_lines-AreLines :
    (sum : Text → Text) (names : List Text)
    → AllEntries (entries_of sum names)
    → AreLines (name_lines names)
unfolding name_lines
name_lines-AreLines sum [] qs = AreLines-nil
name_lines-AreLines sum (name ∷ names) (and_entry p ne small q len qs) =
    subst AreLines (append_assoc name (10 ∷ []) (name_lines names)) (
      AreLines-append (name ++ 10 ∷ []) (name_lines names)
        (AreLines-line name
          (name-IsQuiet name (record { plain = p; some_byte = ne; small = small })))
        (name_lines-AreLines sum names qs))
