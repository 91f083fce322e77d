-- ===== src/FirstBox/Events.antt =====
-- The loop over the events of inotify of MP2/src/csiebox_client.c: change, find_wd and delete. `none` is
-- a look behind the table or into a free place of it, or a path that does not fit its buffer.
use ntu_system_programming.Common.{
  ℕ, zero, suc, Bool, Option, none, some, List, [], ◌∷◌, ◌++◌, ltb, ◌==◌, if◌then◌else◌, ◌>>=◌,
  drop, get_or, length,
}
use ntu_system_programming.Common.Strings.{Text, same_text}
use ntu_system_programming.FirstBox.{Client, Watch, syn_file, syn_dir, rm, ask, add_inotify_watch}

-- `new_wd` is what inotify_add_watch returns where it is called.
pub record Event : Type 0 where
  pub wd : ℕ
  pub name : Text
  pub is_delete : Bool
  pub is_dir : Bool
  pub new_wd : ℕ

-- `sprintf(path, "%s/%s", ...)` into PATH_MAX bytes.
unfoldable pub path_in : Option Watch → Text → Option Text
path_in none name = none
path_in (some w) name =
    let path : Text = w.path ++ (47 ∷ name) in if ltb (length path) 4096 then some path else none

-- `inotify_table[event->wd - 1]`.
unfoldable pub watch_of : Client → ℕ → Option Watch
watch_of c zero = none
watch_of c (suc i) = get_or c.inotify_table i none

unfoldable pub change : Client → Event → Option Client
unfolding path_in watch_of
change c e =
    let on_path = path_in (watch_of c e.wd) e.name >>= (λ path. some (
      if e.is_dir
      then ask (add_inotify_watch c path e.new_wd) (syn_dir path)
      else ask c (syn_file path))) in
    if length e.name == 0 then some c else on_path

-- The first place with the descriptor.
unfoldable pub find_wd : ℕ → List (Option Watch) → Option ℕ
find_wd wd [] = none
find_wd wd (none ∷ t) = find_wd wd t >>= (λ i. some (suc i))
find_wd wd (some w ∷ t) =
    let rest = find_wd wd t >>= (λ i. some (suc i)) in if w.wd == wd then some 0 else rest

-- The loop that frees the place of a directory.
unfoldable pub forget_path : Text → List (Option Watch) → List (Option Watch)
forget_path path [] = []
forget_path path (none ∷ t) = none ∷ forget_path path t
forget_path path (some w ∷ t) =
    let rest = forget_path path t in if same_text w.path path then none ∷ t else some w ∷ rest

unfoldable pub delete : Client → Event → Option Client
unfolding find_wd path_in forget_path
delete c e = find_wd e.wd c.inotify_table >>= (λ i.
    path_in (get_or c.inotify_table i none) e.name >>= (λ path. some (
      ask
        (record c {
          inotify_table = if e.is_dir then forget_path path c.inotify_table else c.inotify_table;
        })
        (rm (drop c.base path)))))

unfoldable pub handle_event : Client → Event → Option Client
unfolding change delete
handle_event c e = if e.is_delete then delete c e else change c e

-- The events of the reads, each in turn.
unfoldable pub on_events : Client → List Event → Option Client
unfolding handle_event
on_events c [] = some c
on_events c (e ∷ es) = handle_event c e >>= (λ c'. on_events c' es)
