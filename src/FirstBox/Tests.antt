-- ===== src/FirstBox/Tests.antt =====
-- A walk over a small directory and two events in it, and the theorems there.
use ntu_system_programming.Common.{
  ◌≡◌, ◌≢◌, refl, arith, true, false, none, List, [], ◌∷◌, ◌++◌, drop,
}
use ntu_system_programming.Common.Strings.{Text}
use ntu_system_programming.FirstBox.{
  regular, directory, FtwEntry, Request, syn_file, syn_dir, hard_link, fresh, find_ino, traverse,
}
use ntu_system_programming.FirstBox.Events.{Event}
use ntu_system_programming.FirstBox.Links.{has_links, first_name}
use ntu_system_programming.FirstBox.Traverse.{Linked, second_name_follows}
use ntu_system_programming.FirstBox.Depth.{Deepest, longest_path_lem}
use ntu_system_programming.FirstBox.Session.{directories}

-- The paths /r, /r/d, /r/d/f and /r/g, the last two of one inode.
abbrev root : FtwEntry
root = record {
  file = 47 ∷ 114 ∷ [];
  flag = directory;
  level = 0;
  base = 1;
  ino = 1;
  nlink = 3;
  link = [];
  wd = 1;
}

abbrev dir : FtwEntry
dir = record root { file = 47 ∷ 114 ∷ 47 ∷ 100 ∷ []; level = 1; base = 3; ino = 2; wd = 2 }

abbrev inner : FtwEntry
inner = record {
  file = 47 ∷ 114 ∷ 47 ∷ 100 ∷ 47 ∷ 102 ∷ [];
  flag = regular;
  level = 2;
  base = 5;
  ino = 7;
  nlink = 2;
  link = [];
  wd = 0;
}

abbrev outer : FtwEntry
outer = record inner { file = 47 ∷ 114 ∷ 47 ∷ 103 ∷ []; level = 1; base = 3 }

abbrev listing : List FtwEntry
listing = inner ∷ outer ∷ []

walked :
    (traverse fresh (root ∷ dir ∷ listing)).requests
    ≡ syn_dir (dir.file) ∷ syn_file (inner.file) ∷ hard_link (103 ∷ []) (100 ∷ 47 ∷ 102 ∷ []) ∷ []
unfolding traverse find_ino
walked = refl

based : dir.base ≢ 0
based e = omega arith

inner-Linked : Linked inner
inner-Linked = (refl, omega arith, λ e. omega arith)

outer-Linked : Linked outer
outer-Linked = (refl, omega arith, λ e. omega arith)

dir_unnamed : first_name 7 (dir ∷ []) ≡ none
unfolding first_name has_links
dir_unnamed = refl

second_name_follows_example :
    (before between after : List Request) × ((traverse fresh (root ∷ dir ∷ listing)).requests
      ≡ before
        ++ (syn_file (inner.file)
            ∷ (between ++ (hard_link (drop 3 outer.file) (drop 3 inner.file) ∷ after))))
second_name_follows_example =
    second_name_follows root dir listing refl refl based (dir ∷ []) [] [] inner outer refl
      inner-Linked outer-Linked refl dir_unnamed

longest_path_lem_example : Deepest 0 3 (dir ∷ listing) (traverse fresh (root ∷ dir ∷ listing))
longest_path_lem_example = longest_path_lem root dir listing refl refl based

-- The directory /r/y is made, and then the file /r/y/z.
abbrev made : Event
made = record { wd = 1; name = 121 ∷ []; is_delete = false; is_dir = true; new_wd = 3 }

abbrev written : Event
written = record { wd = 3; name = 122 ∷ []; is_delete = false; is_dir = false; new_wd = 0 }

abbrev removed : Event
removed = record { wd = 2; name = 102 ∷ []; is_delete = true; is_dir = false; new_wd = 0 }

abbrev events : List Event
events = made ∷ written ∷ removed ∷ []

abbrev watched : List Text
watched = root.file ∷ directories (dir ∷ listing)
