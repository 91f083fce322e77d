-- ===== src/BoxClient/Start.antt =====
-- The start of the client: csiebox_client_init and csiebox_client_run of MP5/src/csiebox_client.c.
-- What the calls of the system give are parameters; `none` is undefined behaviour.
use ntu_system_programming.Common.{
  ℕ, ◌≡◌, Bool, Option, none, some, List, [], ◌∷◌, ◌&&◌, if◌then◌else◌, ◌>>=◌, ◌⊎◌, inl, inr,
}
use ntu_system_programming.Common.Int.{ℤ, pos}
use ntu_system_programming.HashTable.{Hash, init_hash}
use ntu_system_programming.HashTable.Lookup.{IsValid, view}
use ntu_system_programming.BoxServer.{Text}
use ntu_system_programming.BoxClient.Config.{ClientArg, parse_client_arg}
use ntu_system_programming.BoxClient.Walk.{Entries, Op, Walker, sync_all}

-- Whether `malloc` gives the client and the arrays of the two tables, the results of `client_start`,
-- `inotify_init` and `realpath`.
pub record Os : Type 0 where
  pub room : Bool
  pub inotify_room : Bool
  pub dir_room : Bool
  pub client_start : ClientArg → Option ℕ
  pub inotify_init : Option ℕ
  pub realpath : Option Text → Text

pub record Started : Type 0 where
  pub arg : ClientArg
  pub conn_fd : ℕ
  pub inotify_fd : ℕ
  pub inotify_hash : Hash Text
  pub dir_hash : Hash Text
  pub root : Text

abbrev zeroed : Hash Text
zeroed = record { node = none; n = 0 }

-- The tables. Where one is not made the code frees the client and goes on to write to it.
unfoldable pub make_tables : Os → ClientArg → ℕ → ℕ → Option Started
make_tables os arg conn_fd inotify_fd =
    let (first, inotify_hash) = init_hash (os.inotify_room) zeroed (pos 100) in
    let (second, dir_hash) = init_hash (os.dir_room) zeroed (pos 100) in
    let c : Started = record {
      arg = arg;
      conn_fd = conn_fd;
      inotify_fd = inotify_fd;
      inotify_hash = inotify_hash;
      dir_hash = dir_hash;
      root = os.realpath arg.path;
    } in
    if first && second then some c else none

-- `inr` is a client, `inl` the descriptors that are closed where there is none.
unfoldable pub csiebox_client_init : Os → ℕ → Option Text → Option (List ℕ ⊎ Started)
csiebox_client_init os argc file =
    if os.room
    then parse_client_arg argc file >>= (λ parsed. elim parsed [
      | none ↦ some (inl [])
      | some arg ↦ elim (os.client_start arg) [
        | none ↦ some (inl [])
        | some conn_fd ↦ elim os.inotify_init [
          | none ↦ some (inl (conn_fd ∷ []))
          | some inotify_fd ↦ make_tables os arg conn_fd inotify_fd >>= (λ c. some (inr c))
        ]
      ]
    ])
    else some (inl [])

abbrev pub walker_of : Started → (Text → ℤ) → (Text → Text) → Walker
walker_of c wd_of behind = record {
  dir_hash = c.dir_hash;
  inotify_hash = c.inotify_hash;
  inotify_add_watch = wd_of;
  behind = behind;
}

-- What a run does: `inl` is a result, `inr` the first synchronisation and then the loop without end.
-- `logged_in` is the result of `login`, `cwd` of `getcwd` before and after `chdir`, which fails with
-- `none`; `wd_of` and `behind` are what the kernel and the memory give `add_inotify`.
unfoldable pub csiebox_client_run :
    Started
    → (Text → ℤ)
    → (Text → Text)
    → Bool
    → Bool
    → Option Text
    → ℤ
    → Entries
    → Option (ℕ ⊎ (Walker × List Op))
csiebox_client_run c wd_of behind logged_in has_cwd entered code es =
    if logged_in
    then if has_cwd
      then elim entered [
        | none ↦ some (inl 0)
        | some cwd ↦ sync_all (walker_of c wd_of behind) cwd code es >>= (λ r. some (inr r))
      ]
      else some (inl 0)
    else some (inl 0)

-- Both tables of a client that was made are usable and empty.
record HasTables (c : Started) : Type 0 where
  inotify_valid : IsValid c.inotify_hash
  dir_valid : IsValid c.dir_hash
  dir_empty : (q : ℤ) → view c.dir_hash q ≡ none

abbrev table_of : Bool → Hash Text
table_of room = (init_hash room zeroed (pos 100)).1
