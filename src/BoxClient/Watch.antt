-- ===== src/BoxClient/Watch.antt =====
-- The events of inotify: handle_inotify, add_inotify and rm_file of MP5/src/csiebox_client.c. An event
-- is its descriptor, its name and four bits of its mask. The outer `none` of the loop is fuel that runs
-- out, the inner one is undefined behaviour.
use ntu_system_programming.Common.{
  ℕ, zero, suc, Bool, true, false, Option, none, some, List, [], ◌∷◌, ◌++◌, ltb, length,
  if◌then◌else◌, ◌>>=◌,
}
use ntu_system_programming.Common.Int.{ℤ, pos}
use ntu_system_programming.HashTable.{
  Hash, put_into_hash, get_from_hash, del_from_hash, get_from_hash_by_path,
}
use ntu_system_programming.BoxServer.{Text, same_text}
use ntu_system_programming.BoxClient.{convert_to_relative_path}
use ntu_system_programming.BoxClient.Walk.{Op, sync, sync_meta, watch, unwatch, remove, with_ops}

pub record Event : Type 0 where
  pub wd : ℤ
  pub name : Text
  pub create : Bool
  pub attrib : Bool
  pub delete : Bool
  pub isdir : Bool

-- The client outside its tables: its root and working directory, the descriptor that the kernel
-- gives for a path, what stands behind the end of the string that `malloc` gives to
-- `convert_to_relative_path`, and the bytes up to the next NUL behind the copy of a path, which
-- `add_inotify` makes one byte too short for its own.
pub record Client : Type 0 where
  pub root : Text
  pub cwd : Text
  pub inotify_add_watch : Text → ℤ
  pub junk : List ℕ
  pub behind : Text → Text

unfoldable pub add_inotify : Client → Hash Text → Text → Option (Hash Text × List Op)
add_inotify c h path =
    put_into_hash true h (path ++ c.behind path) (c.inotify_add_watch path)
    >>= (λ (fresh, h'). some (h', watch path ∷ []))

-- The index of a bucket is taken for a descriptor.
unfoldable pub forget_dir : Hash Text → Text → Option (Hash Text × List Op)
forget_dir h path =
    let (wd, h') = get_from_hash_by_path h (λ known. same_text known path) in
    del_from_hash h' (pos wd) >>= (λ (freed, h''). some (h'', unwatch (pos wd) ∷ []))

unfoldable pub rm_file : Client → Hash Text → Text → Bool → Option (Hash Text × List Op)
rm_file c h path is_dir = convert_to_relative_path (c.root) (c.cwd) path (c.junk) >>= (λ found.
    elim found [
      | none ↦ some (h, [])
      | some relative ↦
          (if is_dir then forget_dir h path else some (h, []))
          >>= (λ (h', ops). some (h', ops ++ remove relative ∷ []))
    ])

-- The body of the loop behind the lookup; `path` has PATH_MAX bytes.
unfoldable pub on_event : Client → Hash Text → Text → Event → Option (Hash Text × List Op)
on_event c h wd_path e =
    let path = wd_path ++ 47 ∷ e.name in
    let created = if e.isdir then add_inotify c h path else some (h, []) in
    let removed = rm_file c h path e.isdir in
    if ltb (length path) 4096
    then if e.create
      then with_ops (sync path ∷ []) created
      else if e.attrib
      then some (h, sync_meta path ∷ [])
      else if e.delete
      then removed
      else some (h, sync path ∷ [])
    else none

abbrev pub after :
    List Op → Option (Option (Hash Text × List Op)) → Option (Option (Hash Text × List Op))
after ops r = r >>= (λ x. some (with_ops ops x))

-- `continue` does not advance to the next event.
unfoldable pub event_loop :
    ℕ → Client → Hash Text → List Event → Option (Option (Hash Text × List Op))
event_loop zero c h [] = some (some (h, []))
event_loop zero c h (e ∷ es) = none
event_loop (suc fuel) c h [] = some (some (h, []))
event_loop (suc fuel) c h (e ∷ es) =
    let again = event_loop fuel c h (e ∷ es) in
    elim (get_from_hash h e.wd) [
      | none ↦ some none
      | some found ↦ elim found [
        | none ↦ again
        | some wd_path ↦ elim (on_event c h wd_path e) [
          | none ↦ some none
          | some (h', ops) ↦ after ops (event_loop fuel c h' es)
        ]
      ]
    ]

-- The flag `ignore_inotify_event`, the table and the operations; `none` for the events is a `read` that
-- gives nothing.
unfoldable pub handle_inotify :
    ℕ
    → Client
    → Bool
    → Hash Text
    → Option (List Event)
    → Option (Option (Bool × Hash Text × List Op))
handle_inotify fuel c ignore h none = some (some (ignore, h, []))
handle_inotify fuel c ignore h (some es) =
    if ignore
    then some (some (false, h, []))
    else event_loop fuel c h es >>= (λ r. some (r >>= (λ (h', ops). some (false, h', ops))))
