-- ===== src/BoxClient/Walk.antt =====
-- The first synchronisation: sync_all and check_walked_dir of MP5/src/csiebox_client.c, on the tree of
-- directories as `readdir` lists them. A folder has its name, whether `chdir` enters it, its hash code
-- and its entries, which are `unopened` where `opendir` fails.
use ntu_system_programming.Common.{
  Bool, true, ◌||◌, Option, none, some, List, [], ◌∷◌, ◌++◌, if◌then◌else◌, ◌>>=◌,
}
use ntu_system_programming.Common.Int.{ℤ}
use ntu_system_programming.HashTable.{Hash, put_into_hash}
use ntu_system_programming.BoxServer.{Text, same_text}

mutual
  pub data Entry : Type 0 where
    plain : Text → Entry
    folder : Text → Bool → ℤ → Entries → Entry

  pub data Entries : Type 0 where
    end unopened : Entries
    more : Entry → Entries → Entries

-- A watch of a directory and a call of `sync_file` or `sync_file_meta`, by absolute paths; a
-- descriptor that is given up; and a request to remove a relative path.
pub data Op : Type 0 where
  watch : Text → Op
  sync : Text → Op
  sync_meta : Text → Op
  unwatch : ℤ → Op
  remove : Text → Op

-- The names `.` and `..`.
abbrev pub is_dots : Text → Bool
is_dots name = same_text (46 ∷ []) name || same_text (46 ∷ 46 ∷ []) name

abbrev pub below : Text → Text → Text
below cwd name = cwd ++ 47 ∷ name

abbrev pub with_ops {ℓ} : {A : Type ℓ} → List Op → Option (A × List Op) → Option (A × List Op)
with_ops before r = r >>= (λ (t, ops). some (t, before ++ ops))

-- The two tables of the client, the descriptor that the kernel gives for a path, and the bytes up to the
-- next NUL behind the copy of a path, which `add_inotify` makes one byte too short for its own.
pub record Walker : Type 0 where
  pub dir_hash : Hash Text
  pub inotify_hash : Hash Text
  pub inotify_add_watch : Text → ℤ
  pub behind : Text → Text

-- `add_inotify` in the walk: the watch goes into its table whatever stands there.
unfoldable pub put_watch : Walker → Text → Option (Hash Text)
put_watch t path =
    put_into_hash true (t.inotify_hash) (path ++ t.behind path) (t.inotify_add_watch path)
    >>= (λ (fresh, h). some h)

-- `check_walked_dir` and the watch; a code that is in the table already ends the visit.
unfoldable pub enter :
    Walker → Text → ℤ → (Walker → Option (Walker × List Op)) → Option (Walker × List Op)
unfolding put_watch
enter t cwd code inside = put_into_hash true (t.dir_hash) cwd code >>= (λ (fresh, dirs).
    let watched = put_watch t cwd >>= (λ watches.
      with_ops (watch cwd ∷ []) (inside (record t { dir_hash = dirs; inotify_hash = watches }))) in
    if fresh then watched else some (record t { dir_hash = dirs }, []))

-- The loop over the entries of `cwd`; `readdir` is called with what `opendir` gave.
unfoldable pub walk : Walker → Text → Entries → Option (Walker × List Op)
walk t cwd end = some (t, [])
walk t cwd unopened = none
walk t cwd (more (plain name) es) =
    let rest = walk t cwd es in
    if is_dots name then rest else with_ops (sync (below cwd name) ∷ []) rest
walk t cwd (more (folder name enters code sub) es) =
    let skipped = walk t cwd es in
    let visited =
      enter t (below cwd name) code (λ t'. walk t' (below cwd name) sub)
      >>= (λ (t', ops). with_ops ops (walk t' cwd es)) in
    if is_dots name
    then skipped
    else with_ops (sync (below cwd name) ∷ []) (if enters then visited else skipped)

unfoldable pub sync_all : Walker → Text → ℤ → Entries → Option (Walker × List Op)
unfolding enter walk
sync_all t cwd code es = enter t cwd code (λ t'. walk t' cwd es)
