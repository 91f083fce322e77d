-- ===== src/Loser/Titles.antt =====
-- The search for the title of the last commit, from its end: the second loop of `collect_old_list` of
-- MP1/MP1.c.
use ntu_system_programming.Common.{
  ℕ, suc, ◌+◌, ◌<◌, ◌≡◌, ◌≢◌, ◌^◌, refl, sym, ap, ◌∙◌, arith, true, false, Option, none, some, List,
  [], ◌∷◌, ◌++◌, ltb, ◌==◌, ◌>>=◌, length, length-append, take,
}
use mathlib.Core.List.{
  reverse, reverse_aux, reverse_aux-eq, reverse_aux-append, reverse-reverse, reverse-append,
  append_assoc, append-nil,
}
use ntu_system_programming.Common.Strings.{Text, same_text}
use ntu_system_programming.Loser.{md5_line_back, title_word, title_of, find_title, join_lines}
use ntu_system_programming.Loser.Status.{decimal}
use ntu_system_programming.Loser.Lines.{IsLine, IsLine-reverse_aux, length-reverse_aux}
use ntu_system_programming.Loser.Numbers.{read_number-decimal}

abbrev found_or : Option (Option ℕ) → Text → Option (Option ℕ)
found_or title rest = title >>= (λ t. elim t [ none ↦ find_title [] rest | some n ↦ some (some n) ])

find_title-step :
    (temp_line : Text) (c d : ℕ) (t : Text)
    → c ≢ 0
    → c ≢ 10
    → length temp_line + 1 < 1000
    → find_title temp_line (c ∷ d ∷ t) ≡ find_title (temp_line ++ c ∷ []) (d ∷ t)
unfolding find_title
find_title-step temp_line c d t nz nl short =
    let not_end : (c == 10) ≡ false = ground arith in
    let not_nul : (c == 0) ≡ false = ground arith in
    let fits : ltb (length (temp_line ++ c ∷ [])) 1000 ≡ true =
      ground (arith, length-append temp_line (c ∷ [])) in
    rw (not_end, not_nul, fits) refl

module _ (b' : ℕ) (bs : Text) where
  find_title-line :
      (temp_line t : Text)
      → IsLine t
      → length temp_line + length t < 1000
      → find_title temp_line (t ++ 10 ∷ b' ∷ bs)
        ≡ found_or (title_of (reverse (temp_line ++ t))) (b' ∷ bs)
  unfolding find_title IsLine
  find_title-line temp_line [] p short =
      ap (λ u. found_or (title_of (reverse u)) (b' ∷ bs)) (sym (append-nil temp_line))
  find_title-line temp_line (c ∷ []) (nz, nl, p) short =
      find_title-step temp_line c 10 (b' ∷ bs) nz nl (omega arith)
  find_title-line temp_line (c ∷ d ∷ t) (nz, nl, p) short =
      find_title-step temp_line c d (t ++ 10 ∷ b' ∷ bs) nz nl (omega arith)
      ∙ find_title-line (temp_line ++ c ∷ []) (d ∷ t) p
          (omega (arith, length-append temp_line (c ∷ [])))
      ∙ ap (λ u. found_or (title_of (reverse u)) (b' ∷ bs))
          (append_assoc temp_line (c ∷ []) (d ∷ t))

pub find_title-end :
    (temp_line : Text) (t : Text)
    → IsLine t
    → 0 < length t
    → length temp_line + length t < 1000
    → find_title temp_line t ≡ title_of (reverse (temp_line ++ t))
unfolding find_title IsLine
find_title-end temp_line [] p some_byte short = absurd (omega arith)
find_title-end temp_line (c ∷ []) (nz, nl, p) some_byte short =
    let not_nul : (c == 0) ≡ false = ground arith in
    let fits : ltb (length (temp_line ++ c ∷ [])) 1000 ≡ true =
      ground (arith, length-append temp_line (c ∷ [])) in
    rw (not_nul, fits) refl
find_title-end temp_line (c ∷ d ∷ t) (nz, nl, p) some_byte short =
    find_title-step temp_line c d t nz nl (omega arith)
    ∙ find_title-end (temp_line ++ c ∷ []) (d ∷ t) p (omega arith)
        (omega (arith, length-append temp_line (c ∷ [])))
    ∙ ap (λ u. title_of (reverse u)) (append_assoc temp_line (c ∷ []) (d ∷ t))

pub find_title-rest :
    (temp_line t rest : Text)
    → rest ≢ []
    → IsLine t
    → length temp_line + length t < 1000
    → find_title temp_line (t ++ 10 ∷ rest) ≡ found_or (title_of (reverse (temp_line ++ t))) rest
find_title-rest temp_line t [] ne p short = absurd (ne refl)
find_title-rest temp_line t (b' ∷ bs) ne p short = find_title-line b' bs temp_line t p short

-- Lines from the last one to the first, above them other text.
unfoldable pub above : List Text → Text → Text
above [] rest = rest
above (l ∷ ls) rest = reverse l ++ 10 ∷ above ls rest

reverse-above :
    (ls rs : List Text) (rest : Text)
    → reverse_aux (join_lines ls) (10 ∷ above rs rest) ≡ 10 ∷ above (reverse_aux ls rs) rest
unfolding join_lines above
reverse-above [] rs rest = refl
reverse-above (l ∷ ls) rs rest =
    reverse_aux-append l (10 ∷ join_lines ls) (10 ∷ above rs rest)
    ∙ ap (λ t. reverse_aux (join_lines ls) (10 ∷ t)) (reverse_aux-eq l (10 ∷ above rs rest))
    ∙ reverse-above ls (l ∷ rs) rest

pub reverse-above_all :
    (ls : List Text) (rest : Text)
    → reverse_aux (join_lines ls) (10 ∷ rest) ≡ 10 ∷ above (reverse ls) rest
unfolding above
reverse-above_all ls rest = reverse-above ls [] rest

pub append-ne-nil : (t : Text) (b : ℕ) (rest : Text) → t ++ b ∷ rest ≢ []
append-ne-nil [] b rest e = cc
append-ne-nil (c ∷ t) b rest e = cc

pub above-ne-nil : (rs : List Text) (rest : Text) → rest ≢ [] → above rs rest ≢ []
unfolding above
above-ne-nil [] rest ne = ne
above-ne-nil (l ∷ rs) rest ne = append-ne-nil (reverse l) 10 (above rs rest)

-- The word `(MD5)`.
abbrev pub md5_word : Text
md5_word = 40 ∷ 77 ∷ 68 ∷ 53 ∷ 41 ∷ []

-- A line that is not a title, also with `(MD5)` behind it.
pub record IsQuiet (l : Text) : Type 0 where
  pub line : IsLine l
  pub short : length l < 990
  pub quiet : same_text (take 8 l) title_word ≡ false
  pub quiet_end : same_text (take 8 (l ++ md5_word)) title_word ≡ false

pub data AllQuiet : List Text → Type 0 where
  no_quiet : AllQuiet []
  and_quiet : {l : Text} {ls : List Text} → IsQuiet l → AllQuiet ls → AllQuiet (l ∷ ls)

title_of-quiet : (l : Text) → same_text (take 8 l) title_word ≡ false → title_of l ≡ some none
unfolding title_of
title_of-quiet l e = rw e refl

reverse-IsLine : (l : Text) → IsQuiet l → IsLine (reverse l)
reverse-IsLine l q = IsLine-reverse_aux l [] q.line (unfold IsLine in record {})

length-reverse_quiet : (l : Text) → IsQuiet l → length (reverse l) < 990
length-reverse_quiet l q = omega (arith, length-reverse_aux l [], q.short)

find_title-above :
    (rs : List Text) (rest : Text)
    → AllQuiet rs
    → rest ≢ []
    → find_title [] (above rs rest) ≡ find_title [] rest
unfolding above
find_title-above [] rest no_quiet ne = refl
find_title-above (l ∷ rs) rest (and_quiet q qs) ne =
    find_title-rest [] (reverse l) (above rs rest) (above-ne-nil rs rest ne) (reverse-IsLine l q)
      (omega (arith, length-reverse_quiet l q))
    ∙ ap (λ u. found_or (title_of u) (above rs rest)) (reverse-reverse l)
    ∙ ap (λ u. found_or u (above rs rest)) (title_of-quiet l q.quiet)
    ∙ find_title-above rs rest qs ne

-- The first of the lines is read together with what is left of `(MD5)`.
pub find_title-md5 :
    (l : Text) (rs : List Text) (rest : Text)
    → IsQuiet l
    → AllQuiet rs
    → rest ≢ []
    → find_title md5_line_back (above (l ∷ rs) rest) ≡ find_title [] rest
unfolding above
find_title-md5 l rs rest q qs ne =
    find_title-rest md5_line_back (reverse l) (above rs rest) (above-ne-nil rs rest ne)
      (reverse-IsLine l q) (omega (arith, length-reverse_quiet l q))
    ∙ ap (λ u. found_or (title_of u) (above rs rest))
        (reverse-append md5_line_back (reverse l) ∙ ap (λ u. u ++ md5_word) (reverse-reverse l))
    ∙ ap (λ u. found_or u (above rs rest)) (title_of-quiet (l ++ md5_word) q.quiet_end)
    ∙ find_title-above rs rest qs ne

-- The title without its newline.
abbrev pub title_text : ℕ → Text
title_text n = 35 ∷ 32 ∷ 99 ∷ 111 ∷ 109 ∷ 109 ∷ 105 ∷ 116 ∷ 32 ∷ decimal (suc n) n

pub title_of-title : (n : ℕ) → n < 2 ^ 31 → title_of (title_text n) ≡ some (some n)
unfolding title_of same_text
title_of-title n small = rw (read_number-decimal n small) refl
