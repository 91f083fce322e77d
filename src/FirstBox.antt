-- ===== src/FirstBox.antt =====
-- The first csiebox, without threads (MP2). This file and the modules below it are
-- about MP2/src/csiebox_client.c: `process`, which nftw calls for every entry of the directory, and
-- what the client asks of the server. An entry is what nftw gives for it, with the result of readlink
-- and the watch descriptor of inotify_add_watch where these are called.
pub mod Links
pub mod Traverse
pub mod Depth
pub mod Events
pub mod Watches
pub mod Watched
pub mod Session
mod Tests
use ntu_system_programming.Common.{
  ℕ, zero, suc, ◌+◌, ◌-◌, Bool, true, false, Option, none, some, List, [], ◌∷◌, ◌++◌, ltb, ◌==◌,
  ◌&&◌, if◌then◌else◌, take, drop, replicate, set,
}
use ntu_system_programming.Common.Strings.{Text, same_text}

pub data Flag : Type 0 where
  regular directory symbolic other : Flag

pub record FtwEntry : Type 0 where
  pub file : Text
  pub flag : Flag
  pub level : ℕ
  pub base : ℕ
  pub ino : ℕ
  pub nlink : ℕ
  pub link : Text
  pub wd : ℕ

-- What `syn`, `linking` and `delete` ask for: paths below the root, and for a symbolic link whether its target
-- lies below the root too.
pub data Request : Type 0 where
  syn_file syn_dir : Text → Request
  hard_link : Text → Text → Request
  soft_link : Text → Text → Bool → Request
  rm : Text → Request

pub record Watch : Type 0 where
  pub wd : ℕ
  pub path : Text

-- The globals of the client. `hl_list` holds the files with several links before `end`.
pub record Client : Type 0 where
  pub inotify_table : List (Option Watch)
  pub hl_list : List (Text × ℕ)
  pub base : ℕ
  pub level : ℕ
  pub longest_path : Text
  pub num : ℕ
  pub requests : List Request

abbrev pub inotify_places : ℕ
inotify_places = 400

abbrev pub fresh : Client
fresh = record {
  inotify_table = replicate inotify_places none;
  hl_list = [];
  base = 0;
  level = 0;
  longest_path = [];
  num = 0;
  requests = [];
}

abbrev pub ask : Client → Request → Client
ask c r = record c { requests = c.requests ++ (r ∷ []) }

-- `find_ino_num`: the name under which the inode was seen first.
unfoldable pub find_ino : ℕ → List (Text × ℕ) → Option Text
find_ino ino [] = none
find_ino ino ((name, n) ∷ l) = let rest = find_ino ino l in if n == ino then some name else rest

abbrev pub symlink_request : ℕ → Text → Text → Request
symlink_request base file target =
    let same_head =
      (if base == 0
        then same_text file target
        else same_text (take (base - 1) file) (take (base - 1) target)) in
    soft_link (drop base file) (if same_head then drop base target else target) same_head

-- A regular file: sent, or linked to the name that was sent.
unfoldable pub on_file : Client → FtwEntry → Client
unfolding find_ino
on_file c e =
    if ltb 1 e.nlink
    then elim (find_ino e.ino c.hl_list) [
      | none ↦ ask (record c { hl_list = c.hl_list ++ ((e.file, e.ino) ∷ []) }) (syn_file e.file)
      | some name ↦ ask c (hard_link (drop c.base e.file) (drop c.base name))
    ]
    else ask c (syn_file e.file)

-- The first free place of the table, if there is one.
unfoldable pub add_to_table : Watch → List (Option Watch) → List (Option Watch)
add_to_table w [] = []
add_to_table w (none ∷ t) = some w ∷ t
add_to_table w (some v ∷ t) = some v ∷ add_to_table w t

abbrev pub add_inotify_watch : Client → Text → ℕ → Client
add_inotify_watch c file wd = record c {
  inotify_table = add_to_table (record { wd = wd; path = file }) c.inotify_table;
}

unfoldable pub on_flag : Flag → Client → FtwEntry → Client
unfolding on_file add_to_table
on_flag regular c e = on_file c e
on_flag directory c e = ask (add_inotify_watch c e.file e.wd) (syn_dir e.file)
on_flag symbolic c e = ask c (symlink_request c.base e.file e.link)
on_flag other c e = c

-- The base of the first entry below the root, and the deepest path so far.
unfoldable pub note_path : Client → FtwEntry → Client
note_path c e =
    let base = if (c.base == 0) && (e.level == 1) then e.base else c.base in
    let deeper = ltb c.level e.level in
    record c {
      base = base;
      level = if deeper then e.level else c.level;
      longest_path = if deeper then drop base e.file else c.longest_path;
      num = c.num + 1;
    }

unfoldable pub process : Client → FtwEntry → Client
unfolding on_flag note_path
process c e =
    if e.level == 0
    then record c {
      inotify_table = set c.inotify_table 0 (some (record { wd = e.wd; path = e.file }));
    }
    else on_flag e.flag (note_path c e) e

unfoldable pub traverse : Client → List FtwEntry → Client
unfolding process
traverse c [] = c
traverse c (e ∷ es) = traverse (process c e) es

-- The file `longestPath.txt` of the root is written and sent.
abbrev pub longest_path_txt : Text
longest_path_txt =
    108 ∷ 111 ∷ 110 ∷ 103 ∷ 101 ∷ 115 ∷ 116 ∷ 80 ∷ 97 ∷ 116 ∷ 104 ∷ 46 ∷ 116 ∷ 120 ∷ 116 ∷ []

abbrev pub create_longest_path_txt : Client → Text → Client
create_longest_path_txt c path = ask c (syn_file (path ++ (47 ∷ longest_path_txt)))
