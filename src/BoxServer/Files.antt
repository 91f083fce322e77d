-- ===== src/BoxServer/Files.antt =====
-- How the csiebox server keeps the files of its clients: sync_file and rm_file of
-- MP5/src/csiebox_server.c.
use ntu_system_programming.Common.{
  ℕ, zero, suc, ◌+◌, ◌-◌, Bool, true, false, Option, none, some, List, [], ◌∷◌, ◌++◌, ltb, length,
  ◌==◌, ◌&&◌, not, if◌then◌else◌, ◌>>=◌, replicate, ◌/◌,
}
use ntu_system_programming.BoxServer.{
  Text, is_dir, Meta, World, Action, Server, same_text, recv_message, mkdir, chmod, utime, truncate,
  write, rmdir, unlink,
}
use ntu_system_programming.BoxServer.Accounts.{response, check_client_and_get_homedir}

-- The size of the next part of a file of which `left` bytes are missing, and the loop that receives
-- these parts and writes them to the path `file`.
unfoldable pub part_size : ℕ → ℕ
part_size left = if ltb left 4096 then left else 4096

unfoldable pub receive_file : ℕ → Text → ℕ → Text → Text × List Action
receive_file zero file left stream = (stream, [])
receive_file (suc fuel) file left stream =
    let readlen = part_size left in
    let (came, buf, stream') = recv_message readlen stream in
    let rest = receive_file fuel file (left - readlen) stream' in
    if left == 0
    then (stream, [])
    else if came
    then (rest.0, write file buf ∷ rest.1)
    else (stream', [])

unfoldable pub up_to_nul : Text → Text
up_to_nul [] = []
up_to_nul (b ∷ bs) = let rest = up_to_nul bs in if b == 0 then [] else b ∷ rest

-- What `sync_file` finds at a path: whether data is needed, whether the path is new, and what is done
-- to bring mode and times in line. A directory has the digest of sixteen zeros.
unfoldable pub compare_file : World → Text → Meta → Bool × Bool × List Action
compare_file w req_path meta = elim (w.lstat req_path) [
  | none ↦ (true, true, [])
  | some stat ↦
      let mode =
        if stat.st_mode == meta.stat.st_mode then [] else chmod req_path (meta.stat.st_mode) ∷ [] in
      let times =
        if (stat.st_atime == meta.stat.st_atime) && (stat.st_mtime == meta.stat.st_mtime)
        then []
        else utime req_path (meta.stat.st_atime) (meta.stat.st_mtime) ∷ [] in
      let hash = if is_dir stat then replicate 16 0 else w.md5_file req_path in
      (not (same_text hash (meta.hash)), false, mode ++ times)
]

-- The second half of `sync_file`, for a client that was told to send more.
unfoldable pub take_data : World → ℕ → Text → Meta → Bool → Text → Text × List Action
take_data w conn_fd req_path meta change stream =
    let (came, bytes, stream') = recv_message (w.file_size) stream in
    let datalen = w.decode_file bytes in
    let (stream'', parts) = receive_file (datalen / 4096 + 1) req_path datalen stream' in
    let stored : Text × List Action =
      if is_dir (meta.stat)
      then (stream', mkdir req_path ∷ [])
      else (stream'', truncate req_path ∷ (if w.opens req_path then parts else [])) in
    let touched =
      if change
      then chmod req_path (meta.stat.st_mode)
        ∷ utime req_path (meta.stat.st_atime) (meta.stat.st_mtime)
        ∷ []
      else [] in
    (stored.0, stored.1 ++ (touched ++ response 2 0 conn_fd ∷ []))

unfoldable pub sync_path : World → ℕ → Text → Meta → Text → Text × List Action
sync_path w conn_fd req_path meta stream =
    let (need_data, change, adapted) = compare_file w req_path meta in
    let more = take_data w conn_fd req_path meta change stream in
    if need_data
    then (more.0, adapted ++ response 1 2 conn_fd ∷ more.1)
    else (stream, adapted ++ response 1 0 conn_fd ∷ [])

-- The bytes of a path come behind the message; `buf` has room for PATH_MAX of them with a NUL, and so
-- has `req_path` for the path in the home directory.
abbrev pub path_room : ℕ
path_room = 4096

unfoldable pub recv_path : Text → ℕ → Text → Option (Text × Text)
recv_path homedir pathlen stream =
    let (came, buf, stream') = recv_message pathlen stream in
    let req_path = homedir ++ up_to_nul buf in
    if ltb pathlen path_room && ltb (length req_path) path_room
    then some (req_path, stream')
    else none

unfoldable pub sync_file : World → Server → ℕ → ℕ → Meta → Text → Option (Text × List Action)
sync_file w s conn_fd client_id meta stream =
    elim (check_client_and_get_homedir s conn_fd client_id) [
      | none ↦ some (stream, [])
      | some homedir ↦
          recv_path homedir (meta.pathlen) stream
          >>= (λ (req_path, stream'). some (sync_path w conn_fd req_path meta stream'))
    ]

-- A path that `lstat` does not find has the zeroed mode, which is no directory's.
unfoldable pub rm_file : World → Server → ℕ → ℕ → ℕ → Text → Option (Text × List Action)
rm_file w s conn_fd client_id pathlen stream =
    elim (check_client_and_get_homedir s conn_fd client_id) [
      | none ↦ some (stream, [])
      | some homedir ↦ recv_path homedir pathlen stream >>= (λ (req_path, stream').
          let a_dir : Bool = elim (w.lstat req_path) [ none ↦ false | some stat ↦ is_dir stat ] in
          some (
            stream',
            (if a_dir then rmdir req_path else unlink req_path) ∷ response 5 0 conn_fd ∷ [],
          ))
    ]
