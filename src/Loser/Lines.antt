-- ===== src/Loser/Lines.antt =====
-- A record of MP1/MP1.c read line by line from its end: the first loop of `collect_old_list`.
use ntu_system_programming.Common.{
  ◌+◌, ◌<◌, ◌≡◌, ◌≢◌, refl, sym, ap, ◌∙◌, arith, true, false, Option, some, List, [], ◌∷◌, ◌++◌,
  ltb, ◌==◌, if◌then◌else◌, ◌>>=◌, length, length-append, Bool-cases, inl, inr,
}
use mathlib.Core.List.{
  reverse, reverse_aux, reverse_aux-eq, reverse_aux-append, reverse-reverse, append_assoc,
  append-nil,
}
use ntu_system_programming.Common.Strings.{Text, same_text}
use ntu_system_programming.Loser.{md5_line_back, lines_back, join_lines}
use ntu_system_programming.Loser.Status.{md5_line}

same_text-length : (a b : Text) → same_text a b ≡ true → length a ≡ length b
unfolding same_text
same_text-length [] [] e = refl
same_text-length [] (y ∷ b) e = absurd cc
same_text-length (x ∷ a) [] e = absurd cc
same_text-length (x ∷ a) (y ∷ b) e = ground (arith, same_text-length a b)

-- Text without the bytes that end a token or a string.
unfoldable pub IsPlain : Text → Type 0
IsPlain [] = Unit {0}
IsPlain (b ∷ t) = (b ≢ 0) × (b ≢ 10) × (b ≢ 32) × IsPlain t

-- Text on one line.
unfoldable pub IsLine : Text → Type 0
IsLine [] = Unit {0}
IsLine (b ∷ t) = (b ≢ 0) × (b ≢ 10) × IsLine t

pub IsPlain-IsLine : (t : Text) → IsPlain t → IsLine t
unfolding IsPlain IsLine
IsPlain-IsLine [] p = p
IsPlain-IsLine (b ∷ t) (nz, nl, ns, p) = (nz, nl, IsPlain-IsLine t p)

pub IsLine-append : (s t : Text) → IsLine s → IsLine t → IsLine (s ++ t)
unfolding IsLine
IsLine-append [] t p q = q
IsLine-append (b ∷ s) t (nz, nl, p) q = (nz, nl, IsLine-append s t p q)

abbrev lines_back_found : Text → Text → Option (List Text × Option Text)
lines_back_found temp_line bs =
    if same_text md5_line_back temp_line
    then some ([], some bs)
    else lines_back [] bs >>= (λ (lines, rest). some (reverse temp_line ∷ lines, rest))

lines_back-line :
    (temp_line t bs : Text)
    → IsLine t
    → length temp_line + length t < 1000
    → lines_back temp_line (t ++ 10 ∷ bs) ≡ lines_back_found (temp_line ++ t) bs
unfolding lines_back IsLine
lines_back-line temp_line [] bs p short =
    ap (λ u. lines_back_found u bs) (sym (append-nil temp_line))
lines_back-line temp_line (b ∷ t) bs (nz, nl, p) short =
    let not_end : (b == 10) ≡ false = ground arith in
    let not_nul : (b == 0) ≡ false = ground arith in
    let longer = length-append temp_line (b ∷ []) in
    let fits : ltb (length (temp_line ++ b ∷ [])) 1000 ≡ true = ground arith in
    let rest = lines_back-line (temp_line ++ b ∷ []) t bs p (omega arith) in
    rw (not_end, not_nul, fits, rest)
      (ap (λ u. lines_back_found u bs) (append_assoc temp_line (b ∷ []) t))

-- A record from its end: lines, the last one first, above them `(MD5)`, and what is before.
unfoldable pub back : List Text → Text → Text
back [] before = md5_line_back ++ 10 ∷ before
back (l ∷ ls) before = reverse l ++ 10 ∷ back ls before

reverse-join_lines :
    (ls rs : List Text) (before : Text)
    → reverse_aux (join_lines ls) (10 ∷ back rs before) ≡ 10 ∷ back (reverse_aux ls rs) before
unfolding join_lines back
reverse-join_lines [] rs before = refl
reverse-join_lines (l ∷ ls) rs before =
    reverse_aux-append l (10 ∷ join_lines ls) (10 ∷ back rs before)
    ∙ ap (λ t. reverse_aux (join_lines ls) (10 ∷ t)) (reverse_aux-eq l (10 ∷ back rs before))
    ∙ reverse-join_lines ls (l ∷ rs) before

-- The bytes behind `(MD5)` from their end, in front of those before it.
pub reverse-body :
    (ls : List Text) (upper : Text)
    → reverse_aux (md5_line ++ join_lines ls) (10 ∷ upper) ≡ 10 ∷ back (reverse ls) upper
unfolding back
reverse-body ls upper = reverse-join_lines ls [] upper

pub reverse_record :
    (before : Text) (ls : List Text)
    → reverse (before ++ 10 ∷ (md5_line ++ join_lines ls)) ≡ 10 ∷ back (reverse ls) (reverse before)
unfolding back
reverse_record before ls =
    reverse_aux-append before (10 ∷ (md5_line ++ join_lines ls)) []
    ∙ reverse-join_lines ls [] (reverse before)

-- Lines that come back one by one.
pub record IsEntryLine (l : Text) : Type 0 where
  pub line : IsLine (reverse l)
  pub short : length (reverse l) < 1000
  pub long : 5 < length (reverse l)

pub data AllLines : List Text → Type 0 where
  no_lines : AllLines []
  one_more : {l : Text} {ls : List Text} → IsEntryLine l → AllLines ls → AllLines (l ∷ ls)

read_end : (before : Text) → lines_back [] (back [] before) ≡ some ([], some before)
unfolding back lines_back same_text
read_end before = refl

pub back_read :
    (rs : List Text) (before : Text)
    → AllLines rs
    → lines_back [] (back rs before) ≡ some (rs, some before)
unfolding back
back_read [] before no_lines = read_end before
back_read (l ∷ rs) before (one_more p ps) =
    let other : same_text md5_line_back (reverse l) ≡ false =
      elim (Bool-cases (same_text md5_line_back (reverse l))) [
        | inl same ↦ absurd (omega (arith, same_text-length md5_line_back (reverse l) same, p.long))
        | inr differs ↦ differs
      ] in
    lines_back-line [] (reverse l) (back rs before) p.line (omega (arith, p.short))
    ∙ rw (other, back_read rs before ps, reverse-reverse l) refl

pub IsLine-reverse_aux : (s t : Text) → IsLine s → IsLine t → IsLine (reverse_aux s t)
unfolding IsLine
IsLine-reverse_aux [] t p q = q
IsLine-reverse_aux (b ∷ s) t (nz, nl, p) q = IsLine-reverse_aux s (b ∷ t) p (nz, nl, q)

pub length-reverse_aux :
    {A : Type 0} (s t : List A) → length (reverse_aux s t) ≡ length s + length t
length-reverse_aux [] t = omega arith
length-reverse_aux (b ∷ s) t = omega (arith, length-reverse_aux s (b ∷ t))
