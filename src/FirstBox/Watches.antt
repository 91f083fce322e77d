-- ===== src/FirstBox/Watches.antt =====
-- The table of watches of MP2/src/csiebox_client.c against the list of the watched paths.
use ntu_system_programming.Common.{
  ℕ, zero, suc, ◌+◌, ◌-◌, ◌≤◌, ◌<◌, ◌≡◌, refl, ap, arith, true, false, Option, none, some, List, [],
  ◌∷◌, ◌++◌, ◌==◌, if◌then◌else◌, ◌>>=◌, drop, get_or, length, replicate, get_elem?,
}
use ntu_system_programming.Common.Strings.{Text}
use ntu_system_programming.FirstBox.{Client, Watch, Request, syn_file, syn_dir, rm, add_to_table}
use ntu_system_programming.FirstBox.Events.{Event, path_in, watch_of, find_wd}

-- The table that holds `paths` under the descriptors from `k` on, in `left` places.
unfoldable pub slots : ℕ → List Text → ℕ → List (Option Watch)
slots k [] left = replicate left none
slots k (p ∷ ps) zero = []
slots k (p ∷ ps) (suc left) = some (record { wd = k; path = p }) ∷ slots (suc k) ps left

pub add-slots :
    (k : ℕ) (ps : List Text) (left wd : ℕ) (p : Text)
    → wd ≡ k + length ps
    → length ps < left
    → add_to_table (record { wd = wd; path = p }) (slots k ps left) ≡ slots k (ps ++ (p ∷ [])) left
unfolding slots add_to_table
add-slots k [] zero wd p is lt = absurd (omega arith)
add-slots k [] (suc left) wd p is lt = let e : wd ≡ k = omega arith in rw e refl
add-slots k (q ∷ ps) zero wd p is lt = absurd (omega arith)
add-slots k (q ∷ ps) (suc left) wd p is lt =
    ap (λ t. some (record { wd = k; path = q }) ∷ t)
      (add-slots (suc k) ps left wd p (omega arith) (omega arith))

pub get_or-slots :
    (k : ℕ) (ps : List Text) (left i wd : ℕ) (p : Text)
    → wd ≡ k + i
    → length ps ≤ left
    → get_elem? ps i ≡ some p
    → get_or (slots k ps left) i none ≡ some (record { wd = wd; path = p })
unfolding slots
get_or-slots k [] left i wd p is le e = absurd (ground arith)
get_or-slots k (q ∷ ps) zero i wd p is le e = absurd (omega arith)
get_or-slots k (q ∷ ps) (suc left) zero wd p is le e =
    let s : wd ≡ k = omega arith in rw s (ground arith)
get_or-slots k (q ∷ ps) (suc left) (suc i) wd p is le e =
    get_or-slots (suc k) ps left i wd p (omega arith) (omega arith) e

pub find_wd-slots :
    (k : ℕ) (ps : List Text) (left i wd : ℕ) (p : Text)
    → wd ≡ k + i
    → length ps ≤ left
    → get_elem? ps i ≡ some p
    → find_wd wd (slots k ps left) ≡ some i
unfolding slots find_wd
find_wd-slots k [] left i wd p is le e = absurd (ground arith)
find_wd-slots k (q ∷ ps) zero i wd p is le e = absurd (omega arith)
find_wd-slots k (q ∷ ps) (suc left) zero wd p is le e = ground arith
find_wd-slots k (q ∷ ps) (suc left) (suc i) wd p is le e =
    let differs : (k == wd) ≡ false = ground arith in
    rw (differs, find_wd-slots (suc k) ps left i wd p (omega arith) (omega arith) e) refl

-- What an event asks for, from the list of the watched paths alone: the path of the descriptor `wd`
-- is the one at `wd - 1`.
unfoldable pub wanted : ℕ → List Text → Event → Option (List Text × List Request)
wanted base paths e = get_elem? paths (e.wd - 1) >>= (λ p.
    let path : Text = p ++ (47 ∷ e.name) in
    if e.is_delete
    then some (paths, rm (drop base path) ∷ [])
    else if length e.name == 0
    then some (paths, [])
    else if e.is_dir
    then some (paths ++ (path ∷ []), syn_dir path ∷ [])
    else some (paths, syn_file path ∷ []))

-- The event is of a watched directory, its path fits the buffer, and it is not the removal of a
-- directory; one about a directory is about a new one, for which there is a place.
pub record Orderly (paths : List Text) (e : Event) : Type 0 where
  pub some_wd : 1 ≤ e.wd
  pub path : Text
  pub known : get_elem? paths (e.wd - 1) ≡ some path
  pub short : length (path ++ (47 ∷ e.name)) < 4096
  pub stays : e.is_delete ≡ true → e.is_dir ≡ false
  pub fresh_wd : e.is_dir ≡ true → e.new_wd ≡ 1 + length paths
  pub room : e.is_dir ≡ true → length paths < 400

-- The client's table holds the paths.
pub record Holds (paths : List Text) (c : Client) : Type 0 where
  pub table : c.inotify_table ≡ slots 1 paths 400
  pub small : length paths ≤ 400

pub path_in_watched :
    (w : Watch) (name : Text)
    → length (w.path ++ (47 ∷ name)) < 4096
    → path_in (some w) name ≡ some (w.path ++ (47 ∷ name))
unfolding path_in
path_in_watched w name lt = ground arith

pub watch_of-Holds :
    (paths : List Text) (c : Client) (wd : ℕ) (p : Text)
    → Holds paths c
    → 1 ≤ wd
    → get_elem? paths (wd - 1) ≡ some p
    → watch_of c wd ≡ some (record { wd = wd; path = p })
unfolding watch_of
watch_of-Holds paths c zero p h ge e = absurd (omega arith)
watch_of-Holds paths c (suc i) p h ge e =
    let s : suc i - 1 ≡ i = omega arith in
    rw h.table (get_or-slots 1 paths 400 i (suc i) p (omega arith) h.small (rw s at e))

-- The step of one event: the requests it adds, and the paths it leaves.
pub record Does (base : ℕ) (paths : List Text) (c : Client) (e : Event) (c' : Client) : Type 0 where
  pub paths' : List Text
  pub asked : List Request
  pub is_wanted : wanted base paths e ≡ some (paths', asked)
  pub adds : c'.requests ≡ c.requests ++ asked
  pub holds : Holds paths' c'
  pub same_base : c'.base ≡ c.base
