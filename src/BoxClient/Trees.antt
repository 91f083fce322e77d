-- ===== src/BoxClient/Trees.antt =====
-- The trees of directories that the first synchronisation of MP5/src/csiebox_client.c goes through: their
-- codes, what can be opened, and their listing.
use ntu_system_programming.Common.{
  ◌≡◌, Bool, true, false, ◌||◌, ◌&&◌, not, Option, some, List, [], ◌∷◌, ◌++◌, if◌then◌else◌,
}
use ntu_system_programming.Common.Int.{ℤ, same_int}
use ntu_system_programming.HashTable.Lookup.{IsValid, view}
use ntu_system_programming.BoxServer.{Text}
use ntu_system_programming.BoxClient.Walk.{
  Entries, Op, Walker, plain, folder, end, unopened, more, watch, sync, is_dots, below,
}

-- The codes of the directories, without `.` and `..`.
unfoldable pub has_code : ℤ → Entries → Bool
has_code q end = false
has_code q unopened = false
has_code q (more (plain name) es) = has_code q es
has_code q (more (folder name enters code sub) es) =
    let later = has_code q es in
    let inside = has_code q sub in
    if is_dots name then later else same_int code q || (inside || later)

-- No two directories have one code.
unfoldable pub AreDistinct : Entries → Type 0
AreDistinct end = Unit {0}
AreDistinct unopened = Unit {0}
AreDistinct (more (plain name) es) = AreDistinct es
AreDistinct (more (folder name enters code sub) es) =
    (has_code code sub ≡ false)
    × (has_code code es ≡ false)
    × ((q : ℤ) → has_code q sub ≡ true → has_code q es ≡ false)
    × AreDistinct sub
    × AreDistinct es

-- The root and every directory that is entered can be opened.
unfoldable pub can_open : Entries → Bool
can_open end = true
can_open unopened = false
can_open (more (plain name) es) = can_open es
can_open (more (folder name enters code sub) es) =
    let later = can_open es in
    let inside = can_open sub in if is_dots name || not enters then later else inside && later

-- Both tables are valid.
abbrev pub IsUsable : Walker → Type 0
IsUsable t = IsValid t.dir_hash × IsValid t.inotify_hash

-- Every entry in order, each directory watched before what is in it.
unfoldable pub listing : Text → Entries → List Op
listing cwd end = []
listing cwd unopened = []
listing cwd (more (plain name) es) =
    let rest = listing cwd es in if is_dots name then rest else sync (below cwd name) ∷ rest
listing cwd (more (folder name enters code sub) es) =
    let rest = listing cwd es in
    let inside = watch (below cwd name) ∷ listing (below cwd name) sub in
    if is_dots name then rest else sync (below cwd name) ∷ (if enters then inside ++ rest else rest)

-- A visit that goes through: the operations, and a table with new codes only.
pub record Walked (h : Walker) (r : Option (Walker × List Op)) (new : ℤ → Bool) (ops : List Op)
    : Type 0 where
  pub table : Walker
  pub returns : r ≡ some (table, ops)
  pub valid : IsUsable table
  pub reads : (q : ℤ) → new q ≡ false → view table.dir_hash q ≡ view h.dir_hash q
