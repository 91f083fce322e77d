-- ===== src/Loser/Reading.antt =====
-- What `collect_old_list` of MP1/MP1.c reads back from a record.
use ntu_system_programming.Common.{
  ℕ, suc, ◌*◌, ◌≤◌, ◌<◌, ◌≡◌, ◌≢◌, refl, sym, ap, ◌∙◌, arith, Bool, true, false, ◌||◌, some, List,
  [], ◌∷◌, ◌++◌, ltb, ◌==◌, if◌then◌else◌, ◌>>=◌, length, length-append, map,
}
use mathlib.Core.List.{
  reverse, reverse_aux, reverse_aux-eq, reverse-reverse, append_assoc, append-nil,
}
use ntu_system_programming.Common.Strings.{Text}
use ntu_system_programming.Loser.{
  md5_line_back, join_lines, tokens, fill, find_title, collect_old_list,
}
use ntu_system_programming.Loser.Status.{md5_line}
use ntu_system_programming.Loser.Lines.{
  IsPlain, IsLine, IsPlain-IsLine, IsLine-append, back, reverse_record, IsEntryLine, AllLines,
  back_read, IsLine-reverse_aux, length-reverse_aux, no_lines, one_more,
}

abbrev pub entry_line : Text × Text → Text
entry_line (name, md5) = name ++ 32 ∷ md5

pub data AllEntries : List (Text × Text) → Type 0 where
  no_entries : AllEntries []
  and_entry :
      {name md5 : Text} {es : List (Text × Text)}
      → IsPlain name
      → name ≢ []
      → length name < 60
      → IsPlain md5
      → length md5 ≡ 32
      → AllEntries es
      → AllEntries ((name, md5) ∷ es)

tokens-word :
    (current word : Text) (b : ℕ) (bs : Text)
    → IsPlain word
    → ((b == 32) || (b == 10)) ≡ true
    → (length (current ++ word) == 0) ≡ false
    → tokens current (word ++ b ∷ bs) ≡ (current ++ word) ∷ tokens [] bs
unfolding tokens IsPlain
tokens-word current [] b bs p sep some_word =
    let there : (length current == 0) ≡ false = ground (arith, ap length (append-nil current)) in
    rw (sep, there, append-nil current) refl
tokens-word current (w ∷ word) b bs (nz, nl, ns, p) sep some_word =
    let inside : ((w == 32) || (w == 10)) ≡ false = ground arith in
    let whole = append_assoc current (w ∷ []) word in
    rw inside (
      tokens-word (current ++ w ∷ []) word b bs p sep (ap (λ u. length u == 0) whole ∙ some_word)
      ∙ ap (λ u. u ∷ tokens [] bs) whole)

not_empty : (t : Text) → t ≢ [] → (length t == 0) ≡ false
not_empty [] ne = absurd (ne refl)
not_empty (b ∷ t) ne = ground arith

unfoldable flat : List (Text × Text) → List Text
flat [] = []
flat ((name, md5) ∷ es) = name ∷ md5 ∷ flat es

tokens-entries :
    (es : List (Text × Text)) → AllEntries es → tokens [] (join_lines (map entry_line es)) ≡ flat es
unfolding flat join_lines
tokens-entries [] no_entries = unfold tokens in refl
tokens-entries ((name, md5) ∷ es) (and_entry p some_name small q len ps) =
    ap (tokens []) (append_assoc name (32 ∷ md5) (10 ∷ join_lines (map entry_line es)))
    ∙ tokens-word [] name 32 (md5 ++ 10 ∷ join_lines (map entry_line es)) p refl
        (not_empty name some_name)
    ∙ ap (λ u. name ∷ u)
        (tokens-word [] md5 10 (join_lines (map entry_line es)) q refl (ground arith)
          ∙ ap (λ u. md5 ∷ u) (tokens-entries es ps))

fill-flat : (es : List (Text × Text)) → fill (length es) (flat es) ≡ some (reverse es)
unfolding fill flat
fill-flat [] = refl
fill-flat ((name, md5) ∷ es) =
    rw (fill-flat es) (ap some (sym (reverse_aux-eq es ((name, md5) ∷ []))))

entry_line-IsEntryLine :
    (name md5 : Text)
    → IsPlain name
    → length name < 60
    → IsPlain md5
    → length md5 ≡ 32
    → IsEntryLine (entry_line (name, md5))
entry_line-IsEntryLine name md5 p small q len =
    let l = name ++ 32 ∷ md5 in
    let size = length-append name (32 ∷ md5) in
    let size' = length-reverse_aux l [] in
    let q' : IsLine (32 ∷ md5) =
      unfold IsLine in (omega arith, omega arith, IsPlain-IsLine md5 q) in
    record {
      line =
          IsLine-reverse_aux l [] (IsLine-append name (32 ∷ md5) (IsPlain-IsLine name p) q')
            (unfold IsLine in record {});
      short = omega arith;
      long = omega arith;
    }

AllEntries-AllLines : (es : List (Text × Text)) → AllEntries es → AllLines (map entry_line es)
AllEntries-AllLines [] no_entries = no_lines
AllEntries-AllLines ((name, md5) ∷ es) (and_entry p some_name small q len ps) =
    one_more (entry_line-IsEntryLine name md5 p small q len) (AllEntries-AllLines es ps)

AllEntries-reverse_aux :
    (es acc : List (Text × Text)) → AllEntries es → AllEntries acc → AllEntries (reverse_aux es acc)
AllEntries-reverse_aux [] acc no_entries qs = qs
AllEntries-reverse_aux ((name, md5) ∷ es) acc (and_entry p some_name small q len ps) qs =
    AllEntries-reverse_aux es ((name, md5) ∷ acc) ps (and_entry p some_name small q len qs)

map-reverse_aux :
    {A B : Type 0} (f : A → B) (xs acc : List A)
    → map f (reverse_aux xs acc) ≡ reverse_aux (map f xs) (map f acc)
map-reverse_aux f [] acc = refl
map-reverse_aux f (x ∷ xs) acc = map-reverse_aux f xs (x ∷ acc)

length-map_entry : (es : List (Text × Text)) → length (map entry_line es) ≡ length es
length-map_entry [] = refl
length-map_entry (e ∷ es) = ap suc (length-map_entry es)

length-entries :
    (es : List (Text × Text))
    → AllEntries es
    → length (join_lines (map entry_line es)) ≤ 94 * length es
unfolding join_lines
length-entries [] no_entries = omega arith
length-entries ((name, md5) ∷ es) (and_entry p some_name small q len ps) = omega (
  arith,
  length-append (name ++ 32 ∷ md5) (10 ∷ join_lines (map entry_line es)),
  length-append name (32 ∷ md5),
  length-entries es ps,
)

-- The record from its end, with its entries in that order.
collect_back :
    (asked : Bool) (before : Text) (rs : List (Text × Text))
    → AllEntries rs
    → length rs ≤ 3000
    → (file : Text) → reverse file ≡ 10 ∷ back (map entry_line rs) (reverse before)
    → collect_old_list asked file ≡ (
        (if asked then find_title md5_line_back (reverse before) else some (some 0))
        >>= (λ number. some (reverse rs, number)))
unfolding collect_old_list
collect_back asked before rs ps few file e =
    let fits : ltb (length (join_lines (map entry_line rs))) 300000 ≡ true =
      ground (arith, length-entries rs ps) in
    elim asked [
      | true ↦
          rw
            (
              e,
              back_read (map entry_line rs) (reverse before) (AllEntries-AllLines rs ps),
              fits,
              tokens-entries rs ps,
              length-map_entry rs,
              fill-flat rs,
            )
            refl
      | false ↦
          rw
            (
              e,
              back_read (map entry_line rs) (reverse before) (AllEntries-AllLines rs ps),
              fits,
              tokens-entries rs ps,
              length-map_entry rs,
              fill-flat rs,
            )
            refl
    ]

-- The same with the entries in their order, and the bytes above `(MD5)` from their end.
pub collect_reversed :
    (asked : Bool) (upper : Text) (es : List (Text × Text))
    → AllEntries es
    → length es ≤ 3000
    → (file : Text) → reverse file ≡ 10 ∷ back (reverse (map entry_line es)) upper
    → collect_old_list asked file ≡ (
        (if asked then find_title md5_line_back upper else some (some 0))
        >>= (λ number. some (es, number)))
collect_reversed asked upper es ps few file e =
    collect_back asked (reverse upper) (reverse es) (AllEntries-reverse_aux es [] ps no_entries)
      (omega (arith, length-reverse_aux es [])) file
      (e
        ∙ ap (λ ls. 10 ∷ back ls upper) (sym (map-reverse_aux entry_line es []))
        ∙ ap (λ u. 10 ∷ back (map entry_line (reverse es)) u) (sym (reverse-reverse upper)))
    ∙ rw (reverse-reverse es, reverse-reverse upper) refl

-- A record that ends with a line `(MD5)` and a line for each entry, of at most 3000 entries with names
-- of less than 60 bytes and digests of 32: just these entries are read back, in their order, with the
-- number that is found above.
pub collect_old_list_lem :
    (asked : Bool) (before : Text) (es : List (Text × Text))
    → AllEntries es
    → length es ≤ 3000
    → collect_old_list asked (before ++ 10 ∷ (md5_line ++ join_lines (map entry_line es))) ≡ (
        (if asked then find_title md5_line_back (reverse before) else some (some 0))
        >>= (λ number. some (es, number)))
collect_old_list_lem asked before es ps few =
    collect_reversed asked (reverse before) es ps few
      (before ++ 10 ∷ (md5_line ++ join_lines (map entry_line es)))
      (reverse_record before (map entry_line es))
