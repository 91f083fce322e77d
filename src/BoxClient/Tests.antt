-- ===== src/BoxClient/Tests.antt =====
-- The client run with a small layout of messages, and its theorems there.
use ntu_system_programming.Common.{
  ℕ, ◌≤◌, ◌≡◌, ◌↔◌, refl, arith, true, false, none, some, List, [], ◌∷◌, ◌++◌, take, drop, get_or,
  replicate,
}
use mathlib.Core.Path.{subst}
use ntu_system_programming.Common.Int.{ℤ, pos, same_int}
use ntu_system_programming.HashTable.{
  Hash, init_hash, find, slot, put_into_hash, locate, append_node,
}
use ntu_system_programming.HashTable.Lookup.{IsValid, view, init-IsValid, init_hash-IsValid}
use ntu_system_programming.HashTable.Insert.{put_absent}
use ntu_system_programming.BoxServer.{Text, World, Server, ClientInfo, set_client}
use ntu_system_programming.BoxServer.Config.{set_all, path_key}
use ntu_system_programming.BoxClient.{Wire, Local, absolute, convert_to_relative_path}
use ntu_system_programming.BoxClient.Config.{
  set_client_arg, no_client_args, name_key, server_key, user_key, passwd_key,
}
use ntu_system_programming.BoxClient.Paths.{convert_to_relative_path_lem}
use ntu_system_programming.BoxClient.Agree.{Agree}
use ntu_system_programming.BoxClient.Stored.{Stored}
use ntu_system_programming.BoxClient.Exchange.{IsSent}
use ntu_system_programming.BoxClient.Walk.{Entries, plain, folder, end, unopened, more}
use ntu_system_programming.BoxClient.Start.{Os, Started}
use ntu_system_programming.BoxClient.Watch.{Event, Client, handle_inotify}
use ntu_system_programming.BoxClient.Events.{
  IsRoot, AreKnown, none_left, and_then, all_ops, handle_inotify_lem, handle_inotify_stuck,
}

abbrev at : Text → ℕ → ℕ
at t i = get_or t i 0

-- A header has five places, the struct of a file one more and that of a meta message 20 more.
abbrev wire : Wire
wire = record {
  encode_header = λ h. h.magic ∷ h.op ∷ h.status ∷ h.client_id ∷ h.datalen ∷ [];
  encode_login = λ l. take 30 (l.user ++ replicate 30 0) ++ l.passwd_hash;
  login_len = 46;
  encode_meta = λ m.
      m.pathlen
      ∷ m.stat.st_mode
      ∷ m.stat.st_atime
      ∷ m.stat.st_mtime
      ∷ take 16 (m.hash ++ replicate 16 0);
  meta_len = 20;
  encode_rm = λ n. n ∷ [];
  rm_len = 1;
  encode_file = λ n. n ∷ [];
  file_len = 1;
}

abbrev world : World
world = record {
  header_size = 5;
  decode_header = λ t. record {
    magic = at t 0;
    op = at t 1;
    status = at t 2;
    client_id = at t 3;
    datalen = at t 4;
  };
  login_size = 46;
  decode_login = λ t. record { user = take 30 t; passwd_hash = drop 30 t };
  meta_size = 20;
  decode_meta = λ t. record {
    pathlen = at t 0;
    stat = record { st_mode = at t 1; st_atime = at t 2; st_mtime = at t 3 };
    hash = drop 4 t;
  };
  rm_size = 1;
  decode_rm = λ t. at t 0;
  file_size = 6;
  decode_file = λ t. at t 5;
  lstat = λ p. none;
  md5_file = λ p. [];
  md5 = λ p. p;
  account_lines = none;
  opens = λ p. true;
}

abbrev user_info : ClientInfo
user_info = record { user = 65 ∷ []; conn_fd = 4; in_thread = false }

abbrev session : Server
session = set_client (record { path = 47 ∷ []; client = λ fd. none }) 4 (some user_info)

-- A file of three bytes, and its path relative to the root.
abbrev local_file : Local
local_file = record {
  stat = record { st_mode = 33188; st_atime = 5; st_mtime = 6 };
  digest = replicate 16 7;
  contents = some (1 ∷ 2 ∷ 3 ∷ []);
}

abbrev relative_path : Text
relative_path = 47 ∷ 112 ∷ []

relative_path-IsSent : IsSent relative_path
relative_path-IsSent = record { short = omega arith; no_nul = λ k lt. ground arith }

at_root : absolute [] (47 ∷ 97 ∷ 47 ∷ 112 ∷ []) ≡ some ((47 ∷ 97 ∷ []) ++ relative_path)
unfolding absolute
at_root = refl

-- A root `/a` and the file `/a/p` in it.
convert_to_relative_path_lem_example :
    (convert_to_relative_path (47 ∷ 97 ∷ []) [] (47 ∷ 97 ∷ 47 ∷ 112 ∷ []) []
      ≡ some (some (take 2 relative_path)))
    × ((take 2 relative_path ≡ relative_path) ↔ (2 ≤ 2))
convert_to_relative_path_lem_example =
    convert_to_relative_path_lem (47 ∷ 97 ∷ []) [] (47 ∷ 97 ∷ 47 ∷ 112 ∷ []) relative_path []
      at_root (omega arith) (omega arith) (λ k lt. ground arith)

abbrev config : List (Text × Text)
config =
    (name_key, 97 ∷ [])
    ∷ (server_key, 98 ∷ [])
    ∷ (user_key, 99 ∷ [])
    ∷ (passwd_key, 100 ∷ [])
    ∷ (path_key, 101 ∷ [])
    ∷ []

abbrev table : Hash Text
table = record { node = some (replicate 3 []); n = 3 }

table-IsValid : IsValid table
table-IsValid = init-IsValid 3 (omega arith)

empty_table : (q : ℤ) → view table q ≡ none
unfolding init_hash
empty_table q =
    let (done, valid, empty) =
      init_hash-IsValid {V = Text} (record { node = none; n = 0 }) 3 refl (omega arith) in
    empty q

-- A file, and a folder with a file and a folder that is not entered.
abbrev tree : Entries
tree = more (plain (46 ∷ [])) (
    more (plain (112 ∷ [])) (
      more
        (folder (100 ∷ []) true (pos 7)
          (more (plain (113 ∷ [])) (more (folder (101 ∷ []) false (pos 8) unopened) end)))
        end))

abbrev root_path : Text
root_path = 47 ∷ 97 ∷ []

abbrev os : Os
os = record {
  room = true;
  inotify_room = true;
  dir_room = true;
  client_start = λ arg. some 3;
  inotify_init = some 4;
  realpath = λ path. root_path;
}

abbrev started : Started
started = record {
  arg = set_all set_client_arg no_client_args config;
  conn_fd = 3;
  inotify_fd = 4;
  inotify_hash = record { node = some (replicate 100 []); n = 100 };
  dir_hash = record { node = some (replicate 100 []); n = 100 };
  root = root_path;
}

-- The root is watched with the descriptor 1.
abbrev watched : Hash Text
watched = record {
  node = some ([] ∷ (record { contain = root_path; hash_code = pos 1 } ∷ []) ∷ [] ∷ []);
  n = 3;
}

watched_put : put_into_hash true table root_path (pos 1) ≡ some (true, watched)
unfolding put_into_hash locate append_node slot
watched_put = refl

watched-IsValid : IsValid watched
watched-IsValid =
    let (r, e, puts) = put_absent table-IsValid (pos 1) root_path (empty_table (pos 1)) in
    let same : r ≡ (true, watched) = cc (e, watched_put) in
    subst (λ x. IsValid x.1) same puts.valid'

abbrev client : Client
client = record {
  root = root_path;
  cwd = root_path;
  inotify_add_watch = λ p. pos 2;
  junk = [];
  behind = λ p. [];
}

-- A new file `p` in the root, and a new directory `p`; and a file of a directory that is not watched.
abbrev new_file : Event
new_file = record {
  wd = pos 1;
  name = 112 ∷ [];
  create = true;
  attrib = false;
  delete = false;
  isdir = false;
}

abbrev new_dir : Event
new_dir = record {
  wd = pos 1;
  name = 112 ∷ [];
  create = true;
  attrib = false;
  delete = false;
  isdir = true;
}

abbrev stray : Event
stray = record {
  wd = pos 5;
  name = 112 ∷ [];
  create = true;
  attrib = false;
  delete = false;
  isdir = false;
}

root_path-IsRoot : IsRoot root_path
root_path-IsRoot = record { from_slash = refl; small = omega arith }

in_root : view watched (pos 1) ≡ some root_path
unfolding view find slot same_int
in_root = refl

abbrev both_known : AreKnown client watched (new_file ∷ new_dir ∷ [])
both_known =
    and_then
      (record {
        wd_path = root_path;
        rel = relative_path;
        known = in_root;
        under = refl;
        short = omega arith;
        no_nul = relative_path-IsSent.no_nul;
        kept = refl;
      })
      (and_then
        (record {
          wd_path = root_path;
          rel = relative_path;
          known = in_root;
          under = refl;
          short = omega arith;
          no_nul = relative_path-IsSent.no_nul;
          kept = refl;
        })
        none_left)

handle_inotify_lem_example :
    (h' : Hash Text) × (handle_inotify 2 client false watched (some (new_file ∷ new_dir ∷ []))
      ≡ some (some (false, h', all_ops both_known)))
    × IsValid h'
    × ((q : ℤ) (v : Text) → view watched q ≡ some v → view h' q ≡ some v)
handle_inotify_lem_example =
    handle_inotify_lem client root_path-IsRoot 2 watched (new_file ∷ new_dir ∷ []) watched-IsValid
      both_known (omega arith)

not_there : view watched (pos 5) ≡ none
unfolding view find slot same_int
not_there = refl

handle_inotify_stuck_example : handle_inotify 1000 client false watched (some (stray ∷ [])) ≡ none
handle_inotify_stuck_example =
    handle_inotify_stuck 1000 client watched stray [] watched-IsValid not_there
