-- ===== src/BoxClient/Config.antt =====
-- The configuration file of the client: parse_arg of MP5/src/csiebox_client.c, from the text of the
-- file, with the loop of the server's. `none` is the write in front of `val` when a key stands at the
-- end of the file. A value as long as its field is kept without a NUL behind it.
use ntu_system_programming.Common.{
  ℕ, ◌+◌, ◌≤◌, ◌≡◌, refl, arith, Bool, Option, none, some, List, [], ◌∷◌, leb, ◌==◌, ◌&&◌,
  if◌then◌else◌, ◌>>=◌, length,
}
use ntu_system_programming.BoxServer.{Text, same_text}
use ntu_system_programming.BoxServer.Config.{
  read_args, is_some, path_key, config_lines, AreEntries, set_all, read_args-all,
}

pub record ClientArg : Type 0 where
  pub name : Option Text
  pub server : Option Text
  pub user : Option Text
  pub passwd : Option Text
  pub path : Option Text

-- The words `name`, `server`, `user` and `passwd`.
abbrev pub name_key : Text
name_key = 110 ∷ 97 ∷ 109 ∷ 101 ∷ []

abbrev pub server_key : Text
server_key = 115 ∷ 101 ∷ 114 ∷ 118 ∷ 101 ∷ 114 ∷ []

abbrev pub user_key : Text
user_key = 117 ∷ 115 ∷ 101 ∷ 114 ∷ []

abbrev pub passwd_key : Text
passwd_key = 112 ∷ 97 ∷ 115 ∷ 115 ∷ 119 ∷ 100 ∷ []

abbrev pub fits : ℕ → Text → Bool
fits size val = leb (length val) size

-- What one line sets; a value longer than its field is passed over.
unfoldable pub set_client_arg : ClientArg → Text → Text → ClientArg
set_client_arg a key val =
    if same_text name_key key
    then if fits 30 val then record a { name = some val } else a
    else if same_text server_key key
    then if fits 30 val then record a { server = some val } else a
    else if same_text user_key key
    then if fits 30 val then record a { user = some val } else a
    else if same_text passwd_key key
    then if fits 30 val then record a { passwd = some val } else a
    else if same_text path_key key
    then if fits 4096 val then record a { path = some val } else a
    else a

abbrev pub no_client_args : ClientArg
no_client_args = record { name = none; server = none; user = none; passwd = none; path = none }

abbrev pub is_complete : ClientArg → Bool
is_complete a =
    is_some a.name && (is_some a.server && (is_some a.user && (is_some a.passwd && is_some a.path)))

-- `some` inside is the result 1; `file` is `none` if `fopen` fails.
unfoldable pub parse_client_arg : ℕ → Option Text → Option (Option ClientArg)
parse_client_arg argc file =
    if argc == 2
    then elim file [
      | none ↦ some none
      | some text ↦
          read_args set_client_arg (length text + 1) no_client_args text
          >>= (λ a. some (if is_complete a then some a else none))
    ]
    else some none

abbrev FitsOption : ℕ → Option Text → Type 0
FitsOption size t = (val : Text) → t ≡ some val → length val ≤ size

-- Every value fits its field.
pub record FitsFields (a : ClientArg) : Type 0 where
  pub name : FitsOption 30 a.name
  pub server : FitsOption 30 a.server
  pub user : FitsOption 30 a.user
  pub passwd : FitsOption 30 a.passwd
  pub path : FitsOption 4096 a.path

set_client_arg-FitsFields :
    (a : ClientArg) (key val : Text) → FitsFields a → FitsFields (set_client_arg a key val)
unfolding set_client_arg
set_client_arg-FitsFields a key val f = record {
  name = λ v e. ground (arith, f.name v);
  server = λ v e. ground (arith, f.server v);
  user = λ v e. ground (arith, f.user v);
  passwd = λ v e. ground (arith, f.passwd v);
  path = λ v e. ground (arith, f.path v);
}

set_all-FitsFields :
    (es : List (Text × Text)) (a : ClientArg)
    → FitsFields a
    → FitsFields (set_all set_client_arg a es)
unfolding set_all
set_all-FitsFields [] a f = f
set_all-FitsFields ((key, val) ∷ es) a f =
    set_all-FitsFields es (set_client_arg a key val) (set_client_arg-FitsFields a key val f)

no_args-FitsFields : FitsFields no_client_args
no_args-FitsFields = record {
  name = λ v e. cc;
  server = λ v e. cc;
  user = λ v e. cc;
  passwd = λ v e. cc;
  path = λ v e. cc;
}

-- A configuration file of lines with a key that is not empty and has no equals sign, and a value
-- without a newline, is read to its end, each line in turn; it is accepted exactly if all five fields
-- are set in the end, and no value is longer than its field.
pub parse_client_arg_lem :
    (es : List (Text × Text))
    → AreEntries es
    → let a = set_all set_client_arg no_client_args es in
      (parse_client_arg 2 (some (config_lines es)) ≡ some (if is_complete a then some a else none))
      × FitsFields a
unfolding parse_client_arg
parse_client_arg_lem es ok = (
  rw (read_args-all set_client_arg no_client_args es ok) refl,
  set_all-FitsFields es no_client_args no_args-FitsFields,
)
