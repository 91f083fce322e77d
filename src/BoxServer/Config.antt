-- ===== src/BoxServer/Config.antt =====
-- The configuration file of the server: parse_arg of MP5/src/csiebox_server.c, from the text of the
-- file. `none` is the write in front of `val` when a key stands at the end of the file. The number of
-- threads is kept as the text that `atoi` reads.
use ntu_system_programming.Common.{
  ℕ, zero, suc, ◌+◌, ◌≤◌, ◌≡◌, ◌≢◌, refl, arith, Bool, true, false, Option, none, some, List, [],
  ◌∷◌, ◌++◌, leb, ◌==◌, ◌&&◌, if◌then◌else◌, ◌>>=◌, length, length-append, ◌<◌, Bool-cases, inl,
  inr,
}
use ntu_system_programming.BoxServer.{Text, same_text}

pub record Arg : Type 0 where
  pub path : Option Text
  pub account_path : Option Text
  pub thread : Option Text
  pub run_path : Option Text

-- `getdelim`, without the last byte that it reads, and the rest of the file; the last byte is the
-- delimiter, or at the end of the file any other.
unfoldable pub getdelim : ℕ → Text → Text × Text
getdelim c [] = ([], [])
getdelim c (b ∷ []) = ([], [])
getdelim c (b ∷ b' ∷ bs) =
    let rest = getdelim c (b' ∷ bs) in if b == c then ([], b' ∷ bs) else (b ∷ rest.0, rest.1)

-- The words `path`, `account_path`, `thread` and `run_path`.
abbrev pub path_key : Text
path_key = 112 ∷ 97 ∷ 116 ∷ 104 ∷ []

abbrev pub account_path_key : Text
account_path_key = 97 ∷ 99 ∷ 99 ∷ 111 ∷ 117 ∷ 110 ∷ 116 ∷ 95 ∷ 112 ∷ 97 ∷ 116 ∷ 104 ∷ []

abbrev pub thread_key : Text
thread_key = 116 ∷ 104 ∷ 114 ∷ 101 ∷ 97 ∷ 100 ∷ []

abbrev pub run_path_key : Text
run_path_key = 114 ∷ 117 ∷ 110 ∷ 95 ∷ 112 ∷ 97 ∷ 116 ∷ 104 ∷ []

-- What one line sets; a value longer than PATH_MAX is passed over.
unfoldable pub set_arg : Arg → Text → Text → Arg
set_arg a key val =
    if same_text path_key key
    then if leb (length val) 4096 then record a { path = some val } else a
    else if same_text account_path_key key
    then if leb (length val) 4096 then record a { account_path = some val } else a
    else if same_text thread_key key
    then record a { thread = some val }
    else if same_text run_path_key key
    then if leb (length val) 4096 then record a { run_path = some val } else a
    else a

-- The loop over the file, which an empty key ends; `set_one` is what one line does.
unfoldable pub read_args : {A : Type 0} → (A → Text → Text → A) → ℕ → A → Text → Option A
read_args set_one zero a file = some a
read_args set_one (suc fuel) a file =
    let (key, rest) = getdelim 61 file in
    let (val, rest') = getdelim 10 rest in
    let next = read_args set_one fuel (set_one a key val) rest' in
    if length key == 0 then some a else if length rest == 0 then none else next

abbrev pub is_some : Option Text → Bool
is_some none = false
is_some (some t) = true

-- The result 1 is `some`; `none` inside is the result 0.
unfoldable pub parse_arg : Text → Option (Option Arg)
parse_arg file =
    read_args set_arg (length file + 1)
      (record { path = none; account_path = none; thread = none; run_path = none }) file
    >>= (λ a.
        if is_some a.path && (is_some a.account_path && is_some a.thread)
        then some (some a)
        else some none)

-- A file of lines `key=value`.
unfoldable pub config_lines : List (Text × Text) → Text
config_lines [] = []
config_lines ((key, val) ∷ es) = key ++ 61 ∷ (val ++ 10 ∷ config_lines es)

-- No byte of a text is `c`.
unfoldable pub IsFreeOf : ℕ → Text → Type 0
IsFreeOf c [] = Unit {0}
IsFreeOf c (b ∷ bs) = (b ≢ c) × IsFreeOf c bs

-- Keys are not empty and have no equals sign, values have no newline.
unfoldable pub AreEntries : List (Text × Text) → Type 0
AreEntries [] = Unit {0}
AreEntries ((key, val) ∷ es) = (key ≢ []) × IsFreeOf 61 key × IsFreeOf 10 val × AreEntries es

unfoldable pub set_all : {A : Type 0} → (A → Text → Text → A) → A → List (Text × Text) → A
set_all set_one a [] = a
set_all set_one a ((key, val) ∷ es) = set_all set_one (set_one a key val) es

abbrev pub set_args : Arg → List (Text × Text) → Arg
set_args = set_all set_arg

getdelim_lem : (c : ℕ) (t rest : Text) → IsFreeOf c t → getdelim c (t ++ c ∷ rest) ≡ (t, rest)
unfolding getdelim IsFreeOf
getdelim_lem c [] [] free = refl
getdelim_lem c [] (r ∷ rest) free = let here : (c == c) ≡ true = ground arith in rw here refl
getdelim_lem c (b ∷ []) rest (ne, free) =
    let other : (b == c) ≡ false = ground arith in rw (other, getdelim_lem c [] rest free) refl
getdelim_lem c (b ∷ b' ∷ t) rest (ne, free) =
    let other : (b == c) ≡ false = ground arith in
    rw (other, getdelim_lem c (b' ∷ t) rest free) refl

-- How many entries there are.
unfoldable pub count_entries : List (Text × Text) → ℕ
count_entries [] = 0
count_entries (e ∷ es) = suc (count_entries es)

read_args-lines :
    {A : Type 0} (set_one : A → Text → Text → A) (fuel : ℕ) (a : A) (es : List (Text × Text))
    → count_entries es < fuel
    → AreEntries es
    → read_args set_one fuel a (config_lines es) ≡ some (set_all set_one a es)
unfolding read_args config_lines set_all AreEntries count_entries
read_args-lines set_one zero a es enough ok = absurd (omega arith)
read_args-lines set_one (suc fuel) a [] enough ok = unfold getdelim in refl
read_args-lines set_one (suc fuel) a (([], val) ∷ es) enough (ne, key_free, val_free, ok) =
    absurd (ne refl)
read_args-lines set_one (suc fuel) a ((k ∷ ks, val) ∷ es) enough (ne, key_free, val_free, ok) =
    let there : (length (val ++ 10 ∷ config_lines es) == 0) ≡ false =
      ground (arith, length-append val (10 ∷ config_lines es)) in
    let named : (length (k ∷ ks) == 0) ≡ false = ground arith in
    rw
      (
        getdelim_lem 61 (k ∷ ks) (val ++ 10 ∷ config_lines es) key_free,
        getdelim_lem 10 val (config_lines es) val_free,
        named,
        there,
      )
      (read_args-lines set_one fuel (set_one a (k ∷ ks) val) es (omega (arith, enough)) ok)

enough_lines : (es : List (Text × Text)) → count_entries es ≤ length (config_lines es)
unfolding count_entries config_lines
enough_lines [] = omega arith
enough_lines ((key, val) ∷ es) = omega (
  arith,
  length-append key (61 ∷ (val ++ 10 ∷ config_lines es)),
  length-append val (10 ∷ config_lines es),
  enough_lines es,
)

-- A file of such lines is read to its end.
pub read_args-all :
    {A : Type 0} (set_one : A → Text → Text → A) (a : A) (es : List (Text × Text))
    → AreEntries es
    → read_args set_one (length (config_lines es) + 1) a (config_lines es)
      ≡ some (set_all set_one a es)
read_args-all set_one a es ok =
    read_args-lines set_one (length (config_lines es) + 1) a es (omega (arith, enough_lines es)) ok

abbrev pub no_args : Arg
no_args = record { path = none; account_path = none; thread = none; run_path = none }

-- A file of lines with a key that is not empty and has no equals sign, and a value without a newline,
-- is read to its end, each line in turn, a later line for the same key in place of an earlier one; it is
-- accepted exactly if path, account_path and thread are set in the end.
pub parse_arg_lem :
    (es : List (Text × Text))
    → AreEntries es
    → let a = set_args no_args es in
      parse_arg (config_lines es)
      ≡ some
          (if is_some a.path && (is_some a.account_path && is_some a.thread) then some a else none)
unfolding parse_arg
parse_arg_lem es ok =
    let a = set_args no_args es in
    let read = read_args-all set_arg no_args es ok in
    elim (Bool-cases (is_some a.path && (is_some a.account_path && is_some a.thread))) [
      | inl complete ↦ rw (read, complete) refl
      | inr missing ↦ rw (read, missing) refl
    ]
