-- ===== src/FirstBox/Session.antt =====
-- The walk, the file of the longest path and the events of MP2/src/csiebox_client.c one after the other, as csiebox_client_run has
-- them: the table of watches that the walk leaves is the one the events are read by.
use ntu_system_programming.Common.{ℕ, ◌+◌, ◌≤◌, ◌≡◌, List, [], ◌∷◌, ◌++◌, length}
use ntu_system_programming.Common.Strings.{Text}
use ntu_system_programming.FirstBox.{
  create_longest_path_txt, Flag, regular, directory, symbolic, other, FtwEntry, Client, fresh,
  traverse,
}

-- The directories below the root, in the order of the walk.
unfoldable pub directory_of : Flag → Text → List Text
directory_of directory file = file ∷ []
directory_of regular file = []
directory_of symbolic file = []
directory_of other file = []

unfoldable pub directories : List FtwEntry → List Text
directories [] = []
directories (e ∷ es) = directory_of e.flag e.file ++ directories es

-- Every entry is below the root, and inotify_add_watch numbers the directories from `n` on.
unfoldable pub Numbered : ℕ → List FtwEntry → Type 0
Numbered n [] = Unit
Numbered n (e ∷ es) =
    (1 ≤ e.level)
    × (e.flag ≡ directory → e.wd ≡ n)
    × Numbered (n + length (directory_of e.flag e.file)) es

-- What csiebox_client_run does before it reads events.
abbrev pub synced : FtwEntry → FtwEntry → List FtwEntry → Client
synced root first es = create_longest_path_txt (traverse fresh (root ∷ first ∷ es)) root.file
