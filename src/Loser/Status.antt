-- ===== src/Loser/Status.antt =====
-- `current_status`, `status` and `commit` of MP1/MP1.c.
use ntu_system_programming.Common.{
  ℕ, zero, suc, ◌+◌, ◌/◌, ◌%◌, Bool, true, false, ◌&&◌, Option, none, some, List, [], ◌∷◌, ◌++◌,
  ltb, ◌==◌, if◌then◌else◌, ◌>>=◌, length,
}
use ntu_system_programming.Common.Strings.{Text, same_text}
use ntu_system_programming.Loser.{file_list, collect_old_list}

-- The three strings that `current_status` appends to.
pub record Changes : Type 0 where
  pub new_file : Text
  pub modified : Text
  pub copied : Text

abbrev pub no_changes : Changes
no_changes = record { new_file = []; modified = []; copied = [] }

-- The first entry with a name, and with a digest.
unfoldable pub find_name : Text → List (Text × Text) → Option Text
find_name name [] = none
find_name name ((n, md5) ∷ es) =
    let rest = find_name name es in if same_text name n then some md5 else rest

unfoldable pub find_md5 : Text → List (Text × Text) → Option Text
find_md5 md5 [] = none
find_md5 md5 ((n, m) ∷ es) = let rest = find_md5 md5 es in if same_text md5 m then some n else rest

-- The words `[new_file]`, `[modified]` and `[copied]`, each with its newline, and ` => `.
abbrev pub new_file_line : Text
new_file_line = 91 ∷ 110 ∷ 101 ∷ 119 ∷ 95 ∷ 102 ∷ 105 ∷ 108 ∷ 101 ∷ 93 ∷ 10 ∷ []

abbrev pub modified_line : Text
modified_line = 91 ∷ 109 ∷ 111 ∷ 100 ∷ 105 ∷ 102 ∷ 105 ∷ 101 ∷ 100 ∷ 93 ∷ 10 ∷ []

abbrev pub copied_line : Text
copied_line = 91 ∷ 99 ∷ 111 ∷ 112 ∷ 105 ∷ 101 ∷ 100 ∷ 93 ∷ 10 ∷ []

abbrev pub md5_line : Text
md5_line = 40 ∷ 77 ∷ 68 ∷ 53 ∷ 41 ∷ 10 ∷ []

abbrev pub arrow : Text
arrow = 32 ∷ 61 ∷ 62 ∷ 32 ∷ []

-- One file of the loop: the same as in the last commit, modified, copied or new.
unfoldable pub compare : (Text → Text) → List (Text × Text) → Changes → Text → Changes
compare sum prev c name = elim (find_name name prev) [
  | some md5 ↦
      if same_text (sum name) md5
      then c
      else record c { modified = c.modified ++ (name ++ 10 ∷ []) }
  | none ↦ elim (find_md5 (sum name) prev) [
    | some old ↦ record c { copied = c.copied ++ (old ++ (arrow ++ (name ++ 10 ∷ []))) }
    | none ↦ record c { new_file = c.new_file ++ (name ++ 10 ∷ []) }
  ]
]

unfoldable pub compare_all : (Text → Text) → List (Text × Text) → Changes → List Text → Changes
compare_all sum prev c [] = c
compare_all sum prev c (name ∷ names) = compare_all sum prev (compare sum prev c name) names

-- `sprintf` of "%s %s\n" into 100 bytes.
unfoldable pub md5_entry : (Text → Text) → Text → Option Text
md5_entry sum name =
    let data' = name ++ (32 ∷ (sum name ++ 10 ∷ [])) in
    if ltb (length data') 100 then some data' else none

unfoldable pub md5_entries : (Text → Text) → List Text → Option Text
md5_entries sum [] = some []
md5_entries sum (name ∷ names) = do
  one ← md5_entry sum name
  rest ← md5_entries sum names
  some (one ++ rest)

abbrev pub fits_buffers : Changes → Bool
fits_buffers c =
    ltb (length c.new_file) 300000
    && (ltb (length c.modified) 300000 && ltb (length c.copied) 300000)

-- The number of the last commit, the changes, and with `need_md5` the new entries.
unfoldable pub current_status :
    (Text → Text) → List Text → Bool → Text → Option (Option ℕ × Changes × Text)
current_status sum names need_md5 file = do
  (prev, number) ← collect_old_list need_md5 file
  entries ← (if need_md5 then md5_entries sum names else some [])
  c ← (let c = compare_all sum prev no_changes names in if fits_buffers c then some c else none)
  some (number, c, entries)

unfoldable pub name_lines : List Text → Text
name_lines [] = []
name_lines (name ∷ names) = name ++ 10 ∷ name_lines names

-- What `status` prints.
unfoldable pub status : (Text → Text) → List Text → Option Text → Option Text
status sum dir none =
    some (new_file_line ++ (name_lines (file_list dir) ++ (modified_line ++ copied_line)))
status sum dir (some file) = do
  (number, c, entries) ← current_status sum (file_list dir) false file
  some (
      new_file_line ++ (c.new_file ++ (modified_line ++ (c.modified ++ (copied_line ++ c.copied)))))

-- The decimal digits of a number.
unfoldable pub decimal : ℕ → ℕ → Text
decimal zero n = []
decimal (suc fuel) n =
    let front = decimal fuel (n / 10) in
    if ltb n 10 then (48 + n) ∷ [] else front ++ (48 + n % 10) ∷ []

-- The line `# commit `, its number and its newline.
abbrev pub title : ℕ → Text
title n = 35 ∷ 32 ∷ 99 ∷ 111 ∷ 109 ∷ 109 ∷ 105 ∷ 116 ∷ 32 ∷ (decimal (suc n) n ++ 10 ∷ [])

abbrev pub sections : Changes → Text → Text
sections c entries =
    new_file_line
    ++ (c.new_file
        ++ (modified_line ++ (c.modified ++ (copied_line ++ (c.copied ++ (md5_line ++ entries))))))

abbrev pub is_empty : Text → Bool
is_empty t = length t == 0

-- The record after `commit`. The title has the number of the last commit raised by one, and -1 gives 0.
unfoldable pub commit : (Text → Text) → List Text → Option Text → Option (Option Text)
commit sum dir none = do
  entries ← md5_entries sum (file_list dir)
  some (
      if length (file_list dir) == 0
      then none
      else some (
          title 1
          ++ sections (record { new_file = name_lines (file_list dir); modified = []; copied = [] })
              entries))
commit sum dir (some file) = do
  (number, c, entries) ← current_status sum (file_list dir) true file
  let next : ℕ = elim number [ none ↦ 0 | some n ↦ n + 1 ]
  some (
      some (
        if is_empty c.new_file && (is_empty c.modified && is_empty c.copied)
        then file
        else file ++ (10 ∷ (title next ++ sections c entries))))
