-- ===== src/Loser/Printed.antt =====
-- What `get_log` of MP1/MP1.c prints: the last commit as it was written.
use ntu_system_programming.Common.{
  ℕ, ◌+◌, ◌<◌, ◌≡◌, ◌≢◌, ◌^◌, refl, sym, ap, ◌∙◌, arith, true, false, Option, some, List, [], ◌∷◌,
  ◌++◌, ltb, ◌==◌, length, length-append, take, drop,
}
use mathlib.Core.List.{
  reverse, reverse_aux, reverse-reverse, reverse-append, append_assoc, append-nil,
}
use ntu_system_programming.Common.Strings.{Text, same_text}
use ntu_system_programming.Loser.{title_word, join_lines}
use ntu_system_programming.Loser.Status.{title}
use ntu_system_programming.Loser.Lines.{IsLine, IsLine-reverse_aux, length-reverse_aux}
use ntu_system_programming.Loser.Counting.{
  IsStart, at_start, after_line, title_text-IsLine, longer-ne-nil, reverse_titled,
}
use ntu_system_programming.Loser.Numbers.{int_digits}
use ntu_system_programming.Loser.Titles.{above, above-ne-nil, title_text}
use ntu_system_programming.Loser.Log.{is_nil, log_line, log_loop, get_log}

module _ (num_req : ℕ) (some_left : (num_req == 0) ≡ false) where
  log_loop-step :
      (line temp_line : Text) (c d : ℕ) (t : Text)
      → c ≢ 0
      → c ≢ 10
      → length temp_line + 1 < 1000
      → log_loop num_req line temp_line (c ∷ d ∷ t)
        ≡ log_loop num_req line (temp_line ++ c ∷ []) (d ∷ t)
  unfolding log_loop
  log_loop-step line temp_line c d t nz nl short =
      let not_end : (c == 10) ≡ false = ground arith in
      let not_nul : (c == 0) ≡ false = ground arith in
      let fits : ltb (length (temp_line ++ c ∷ [])) 1000 ≡ true =
        ground (arith, length-append temp_line (c ∷ [])) in
      rw (some_left, not_end, not_nul, fits) refl

  log_loop-newline :
      (line temp_line : Text) (b : ℕ) (bs : Text)
      → length temp_line + 1 < 1000
      → log_loop num_req line temp_line (10 ∷ b ∷ bs)
        ≡ log_line num_req line temp_line (b ∷ bs) (λ n l. log_loop n l [] (b ∷ bs))
  unfolding log_loop
  log_loop-newline line temp_line b bs short = rw some_left refl

  log_loop-line :
      (line temp_line t : Text) (b : ℕ) (bs : Text)
      → IsLine t
      → length temp_line + length t + 1 < 1000
      → log_loop num_req line temp_line (t ++ 10 ∷ b ∷ bs)
        ≡ log_line num_req line (temp_line ++ t) (b ∷ bs) (λ n l. log_loop n l [] (b ∷ bs))
  unfolding IsLine
  log_loop-line line temp_line [] b bs p short =
      log_loop-newline line temp_line b bs (omega arith)
      ∙ ap (λ u. log_line num_req line u (b ∷ bs) (λ n l. log_loop n l [] (b ∷ bs)))
          (sym (append-nil temp_line))
  log_loop-line line temp_line (c ∷ []) b bs (nz, nl, p) short =
      log_loop-step line temp_line c 10 (b ∷ bs) nz nl (omega arith)
      ∙ log_loop-newline line (temp_line ++ c ∷ []) b bs
          (omega (arith, length-append temp_line (c ∷ [])))
  log_loop-line line temp_line (c ∷ d ∷ t) b bs (nz, nl, p) short =
      log_loop-step line temp_line c d (t ++ 10 ∷ b ∷ bs) nz nl (omega arith)
      ∙ log_loop-line line (temp_line ++ c ∷ []) (d ∷ t) b bs p
          (omega (arith, length-append temp_line (c ∷ [])))
      ∙ ap (λ u. log_line num_req line u (b ∷ bs) (λ n l. log_loop n l [] (b ∷ bs)))
          (append_assoc temp_line (c ∷ []) (d ∷ t))

  log_loop-end :
      (line temp_line t : Text)
      → IsLine t
      → 0 < length t
      → length temp_line + length t < 1000
      → log_loop num_req line temp_line t
        ≡ log_line num_req line (temp_line ++ t) [] (λ n l. some [])
  unfolding IsLine log_loop
  log_loop-end line temp_line [] p some_byte short = absurd (omega arith)
  log_loop-end line temp_line (c ∷ []) (nz, nl, p) some_byte short =
      let not_end : (c == 10) ≡ false = ground arith in
      let not_nul : (c == 0) ≡ false = ground arith in
      let fits : ltb (length (temp_line ++ c ∷ [])) 1000 ≡ true =
        ground (arith, length-append temp_line (c ∷ [])) in
      rw (some_left, not_end, not_nul, fits) refl
  log_loop-end line temp_line (c ∷ d ∷ t) (nz, nl, p) some_byte short =
      log_loop-step line temp_line c d t nz nl (omega arith)
      ∙ log_loop-end line (temp_line ++ c ∷ []) (d ∷ t) p (omega arith)
          (omega (arith, length-append temp_line (c ∷ [])))
      ∙ ap (λ u. log_line num_req line u [] (λ n l. some []))
          (append_assoc temp_line (c ∷ []) (d ∷ t))

-- A line of a commit, of which no title begins at the line.
pub record IsBody (l : Text) : Type 0 where
  pub line : IsLine l
  pub short : length l < 990
  pub some_byte : l ≢ []
  pub quiet : same_text (take 8 l) title_word ≡ false

pub data AllBody : List Text → Type 0 where
  no_body : AllBody []
  and_body : {l : Text} {ls : List Text} → IsBody l → AllBody ls → AllBody (l ∷ ls)

not_nil : (t : Text) → 0 < length t → is_nil t ≡ false
not_nil [] some_byte = absurd (omega arith)
not_nil (b ∷ t) some_byte = refl

some_byte_of : (t : Text) → t ≢ [] → 0 < length t
some_byte_of [] ne = absurd (ne refl)
some_byte_of (b ∷ t) ne = omega arith

log_line-body :
    (line l bs : Text) (next : ℕ → Text → Option Text)
    → IsBody l
    → length line + length l + 1 < 300000
    → log_line 1 line (reverse l) bs next ≡ next 1 ((line ++ reverse l) ++ 10 ∷ [])
unfolding log_line
log_line-body line l bs next q room =
    let size = length-append line (reverse l) in
    let size' = length-reverse_aux l [] in
    let some_byte = some_byte_of l q.some_byte in
    let fits : ltb (length (line ++ reverse l)) 300000 ≡ true = ground arith in
    let fits' : ltb (length (line ++ reverse l) + 1) 300000 ≡ true = ground arith in
    let there = not_nil (line ++ reverse l) (omega arith) in
    rw (reverse-reverse l, fits, q.quiet, there, fits') refl

log_line-title :
    (line bs : Text) (n : ℕ) (next : ℕ → Text → Option Text)
    → length line + length (title_text n) < 300000
    → next 0 [] ≡ some []
    → log_line 1 line (reverse (title_text n)) bs next
      ≡ some (title_text n ++ (reverse line ++ 10 ∷ []))
unfolding log_line same_text
log_line-title line bs n next room stop =
    let fits : ltb (length (line ++ reverse (title_text n))) 300000 ≡ true =
      ground (
        arith,
        length-append line (reverse (title_text n)),
        length-reverse_aux (title_text n) [],
      ) in
    rw (reverse-reverse (title_text n), fits, stop)
      (ap some (
        append-nil (reverse (line ++ reverse (title_text n)) ++ 10 ∷ [])
        ∙ ap (λ u. u ++ 10 ∷ [])
            (reverse-append line (reverse (title_text n))
              ∙ ap (λ u. u ++ reverse line) (reverse-reverse (title_text n)))
        ∙ append_assoc (title_text n) (reverse line) (10 ∷ [])))

reverse-IsLine : (l : Text) → IsLine l → IsLine (reverse l)
reverse-IsLine l p = IsLine-reverse_aux l [] p (unfold IsLine in record {})

log_loop_zero : (line bs : Text) → log_loop 0 line [] bs ≡ some []
unfolding log_loop
log_loop_zero line [] = refl
log_loop_zero line (b ∷ bs) = refl

held_more :
    (line l : Text) (done : List Text)
    → reverse line ++ 10 ∷ [] ≡ 10 ∷ join_lines done
    → reverse ((line ++ reverse l) ++ 10 ∷ []) ++ 10 ∷ [] ≡ 10 ∷ join_lines (l ∷ done)
unfolding join_lines
held_more line l done held =
    ap (λ u. u ++ 10 ∷ [])
      (reverse-append (line ++ reverse l) (10 ∷ [])
        ∙ ap (λ u. 10 ∷ u)
            (reverse-append line (reverse l) ∙ ap (λ u. u ++ reverse line) (reverse-reverse l)))
    ∙ ap (λ u. 10 ∷ u) (append_assoc l (reverse line) (10 ∷ []) ∙ ap (λ u. l ++ u) held)

length-join_lines :
    (l : Text) (ls : List Text)
    → length (join_lines (l ∷ ls)) ≡ length l + 1 + length (join_lines ls)
unfolding join_lines
length-join_lines l ls = omega (arith, length-append l (10 ∷ join_lines ls))

log_loop-title :
    (done : List Text) (line : Text) (n : ℕ) (rest : Text)
    → n < 2 ^ 31
    → IsStart rest
    → reverse line ++ 10 ∷ [] ≡ 10 ∷ join_lines done
    → length line + length (title_text n) < 300000
    → log_loop 1 line [] (reverse (title_text n) ++ rest)
      ≡ some (title_text n ++ 10 ∷ join_lines done)
log_loop-title done line n [] small at_start held room =
    let size = length-reverse_aux (title_text n) [] in
    let digits = int_digits n small in
    ap (log_loop 1 line []) (append-nil (reverse (title_text n)))
    ∙ log_loop-end 1 refl line [] (reverse (title_text n)) (title_text-IsLine n) (omega arith)
        (omega arith)
    ∙ log_line-title line [] n (λ n' l. some []) room refl
    ∙ ap (λ u. some (title_text n ++ u)) held
log_loop-title done line n (c ∷ []) small x4 held room = elim x4 [ ]
log_loop-title done line n (c ∷ b ∷ t) small after_line held room =
    let size = length-reverse_aux (title_text n) [] in
    let digits = int_digits n small in
    log_loop-line 1 refl line [] (reverse (title_text n)) b t (title_text-IsLine n) (omega arith)
    ∙ log_line-title line (b ∷ t) n (λ n' l. log_loop n' l [] (b ∷ t)) room
        (log_loop_zero [] (b ∷ t))
    ∙ ap (λ u. some (title_text n ++ u)) held

log_loop-body :
    (line l rest : Text)
    → rest ≢ []
    → IsBody l
    → length line + length l + 1 < 300000
    → log_loop 1 line [] (reverse l ++ 10 ∷ rest)
      ≡ log_loop 1 ((line ++ reverse l) ++ 10 ∷ []) [] rest
log_loop-body line l [] ne q room = absurd (ne refl)
log_loop-body line l (b ∷ t) ne q room =
    log_loop-line 1 refl line [] (reverse l) b t (reverse-IsLine l q.line)
      (omega (arith, length-reverse_aux l [], q.short))
    ∙ log_line-body line l (b ∷ t) (λ n' l'. log_loop n' l' [] (b ∷ t)) q room

-- The lines of a commit, from the last one, on top of those that `line` holds already.
log_loop-above :
    (rs done : List Text) (line : Text) (n : ℕ) (rest : Text)
    → AllBody rs
    → n < 2 ^ 31
    → IsStart rest
    → reverse line ++ 10 ∷ [] ≡ 10 ∷ join_lines done
    → length line + length (join_lines rs) + length (title_text n) < 300000
    → log_loop 1 line [] (above rs (reverse (title_text n) ++ rest))
      ≡ some (title_text n ++ 10 ∷ join_lines (reverse_aux rs done))
unfolding above
log_loop-above [] done line n rest no_body small start held room =
    log_loop-title done line n rest small start held (omega arith)
log_loop-above (l ∷ rs) done line n rest (and_body q qs) small start held room =
    let joined = length-join_lines l rs in
    let longer = length-append (line ++ reverse l) (10 ∷ []) in
    let long = length-append line (reverse l) in
    let turned = length-reverse_aux l [] in
    let ne = above-ne-nil rs (reverse (title_text n) ++ rest) (
      longer-ne-nil (reverse (title_text n) ++ rest) (
        omega (
          arith,
          length-append (reverse (title_text n)) rest,
          length-reverse_aux (title_text n) [],
        ))) in
    log_loop-body line l (above rs (reverse (title_text n) ++ rest)) ne q (omega arith)
    ∙ log_loop-above rs (l ∷ done) ((line ++ reverse l) ++ 10 ∷ []) n rest qs small start
        (held_more line l done held) (omega arith)

AllBody-reverse_aux : (ls rs : List Text) → AllBody ls → AllBody rs → AllBody (reverse_aux ls rs)
AllBody-reverse_aux [] rs no_body qs = qs
AllBody-reverse_aux (l ∷ ls) rs (and_body p ps) qs =
    AllBody-reverse_aux ls (l ∷ rs) ps (and_body p qs)

empty_lines : length (join_lines []) ≡ 0
unfolding join_lines
empty_lines = refl

length-join_reverse :
    (ls rs : List Text)
    → length (join_lines (reverse_aux ls rs)) ≡ length (join_lines ls) + length (join_lines rs)
length-join_reverse [] rs = unfold join_lines in omega arith
length-join_reverse (l ∷ ls) rs =
    omega (arith, length-join_reverse ls (l ∷ rs), length-join_lines l rs, length-join_lines l ls)

-- A record that ends with a title where one may stand and lines that are not empty and no titles, all of
-- this shorter than the buffer: the log of one commit prints the title and these lines.
pub get_log_lem :
    (pre : Text) (n : ℕ) (lines : List Text)
    → IsStart (reverse pre)
    → n < 2 ^ 31
    → AllBody lines
    → length (join_lines lines) + length (title_text n) < 300000
    → get_log 1 (some (pre ++ (title n ++ join_lines lines))) ≡ some (title n ++ join_lines lines)
unfolding get_log
get_log_lem pre n lines start small qs room =
    ap (λ u. log_loop 1 [] [] (drop 1 (reverse (pre ++ (title n ++ u)))))
      (sym (append-nil (join_lines lines)))
    ∙ ap (λ u. log_loop 1 [] [] (drop 1 u)) (reverse_titled pre n lines [])
    ∙ log_loop-above (reverse lines) [] [] n (reverse pre) (AllBody-reverse_aux lines [] qs no_body)
        small start (unfold join_lines in refl)
        (omega (arith, length-join_reverse lines [], empty_lines))
    ∙ ap (λ ls. some (title_text n ++ 10 ∷ join_lines ls)) (reverse-reverse lines)
    ∙ ap some (sym (append_assoc (title_text n) (10 ∷ []) (join_lines lines)))
