-- ===== src/FirstServer.antt =====
-- The server of the first csiebox, MP2/src/csiebox_server.c, on one connection: what a client has sent
-- is the bytes still to be received, what the server does a list of actions. What the system calls on
-- files give while a request is handled is a `Disk`. `none` is a use of the global `i` while it points
-- to nothing, a text that does not fit its buffer of PATH_MAX bytes with its NUL, or a field that is
-- read before it was set. `sprintf(path, "%s/%s", path, ...)` is taken for the join it means.
pub mod Served
pub mod Framing
pub mod Rounds
pub mod Syncing
mod Tests
use Prim.Native.Nat.{◌/◌}
use ntu_system_programming.Common.{
  ℕ, zero, suc, ◌+◌, ◌-◌, ◌%◌, Bool, true, false, Option, none, some, List, [], ◌∷◌, ◌++◌, leb, ltb,
  ◌==◌, ◌&&◌, if◌then◌else◌, ◌>>=◌, length, replicate,
}
use ntu_system_programming.BoxServer.{
  Text, Header, Login, World, same_text, recv_message, complete_message,
}
use ntu_system_programming.BoxServer.Accounts.{get_account_info}
use ntu_system_programming.BoxServer.Files.{up_to_nul}

pub record FileStat : Type 0 where
  pub st_mode : ℕ
  pub st_size : ℕ
  pub st_atime : ℕ
  pub st_mtime : ℕ

-- `S_ISDIR` and `S_ISREG`: the bits 12 to 15 of the mode are 4, or 8.
abbrev pub s_isdir : FileStat → Bool
s_isdir st = st.st_mode / 4096 % 16 == 4

abbrev pub s_isreg : FileStat → Bool
s_isreg st = st.st_mode / 4096 % 16 == 8

pub record MetaBody : Type 0 where
  pub pathlen : ℕ
  pub stat : FileStat
  pub hash : Text

pub record FileBody : Type 0 where
  pub stat : FileStat
  pub pathlen : ℕ

pub record LinkBody : Type 0 where
  pub srclen : ℕ
  pub targetlen : ℕ

-- The structs behind the header: `server` has the header, the login and the accounts.
pub record Layout : Type 0 where
  pub server : World
  pub meta_size : ℕ
  pub decode_meta : Text → MetaBody
  pub file_size : ℕ
  pub decode_file : Text → FileBody
  pub link_size : ℕ
  pub decode_link : Text → LinkBody
  pub rm_size : ℕ
  pub decode_rm : Text → ℕ
  pub int_size : ℕ
  pub decode_int : Text → ℕ

pub data FoundFile : Type 0 where
  found : FileStat → FoundFile
  missing : FoundFile
  failed : FoundFile

-- `stale` is whether errno is ENOENT before the request; lstat does not change it where it succeeds.
pub record Disk : Type 0 where
  pub lstat : Text → FoundFile
  pub stale : Bool
  pub md5_file : Text → Text
  pub writes : Text → Bool
  pub links : Text → Text → Bool

pub data ServerAction : Type 0 where
  send : Header → ServerAction
  mkdir create truncate : Text → ServerAction
  write : Text → Text → ServerAction
  chmod : Text → ℕ → ServerAction
  utime : Text → ℕ → ℕ → ServerAction
  link symlink : Text → Text → ServerAction
  system : Text → ServerAction
  close : ServerAction

-- `user` is the name under the global `i`, none where that points to nothing.
pub record Session : Type 0 where
  pub path : Text
  pub user : Option Text

abbrev pub path_limit : ℕ
path_limit = 4096

abbrev pub res_answer : ℕ → ℕ → ServerAction
res_answer op status =
    send (record { magic = 145; op = op; status = status; client_id = 0; datalen = 0 })

abbrev pub user_homedir : Session → Option Text
user_homedir s = s.user >>= (λ user. some (s.path ++ (47 ∷ user)))

-- A text into a cleared buffer, of which what comes is used up to a NUL.
unfoldable pub recv_text : ℕ → Text → Option (Text × Text)
recv_text n stream =
    let (came, bytes, rest) = recv_message n stream in
    if ltb n path_limit then some (up_to_nul bytes, rest) else none

unfoldable pub join : Text → Text → Option Text
join home name =
    let path : Text = home ++ (47 ∷ name) in
    if ltb (length path) path_limit then some path else none

-- The mode and the times of the client's file.
abbrev pub take_over : Text → FileStat → List ServerAction → List ServerAction
take_over path st out = chmod path st.st_mode ∷ utime path st.st_atime st.st_mtime ∷ out

abbrev pub pad : ℕ → Text → Text
pad n bytes = bytes ++ replicate (n - length bytes) 0

abbrev pub file_actions : Disk → Text → FileStat → Text → List ServerAction
file_actions d path st data_bytes =
    truncate path
    ∷ write path data_bytes
    ∷ res_answer 2 (if d.writes path then 0 else 1)
    ∷ take_over path st []

unfoldable pub syn_file : Disk → Session → FileBody → Text → Option (Text × List ServerAction)
unfolding recv_text join
syn_file d s file stream =
    let zeroed = send (record { magic = 0; op = 0; status = 0; client_id = 0; datalen = 0 }) in
    let run =
      (user_homedir s >>= (λ home. recv_text file.pathlen stream >>= (λ (buff, stream').
        join home buff >>= (λ path.
          let (came, bytes, stream'') = recv_message file.stat.st_size stream' in
          some (stream'', file_actions d path file.stat (pad file.stat.st_size bytes)))))) in
    if file.stat.st_size == 0 then some (stream, zeroed ∷ []) else run

-- A file that is there: a directory keeps its content and takes mode and times over, as does a file
-- of the same digest; any other file is asked for.
unfoldable pub known_file : Disk → Text → MetaBody → FileStat → List ServerAction
known_file d path m st =
    if s_isdir st
    then take_over path m.stat (res_answer 1 1 ∷ [])
    else if same_text (d.md5_file path) m.hash
    then take_over path m.stat (res_answer 1 0 ∷ [])
    else res_answer 1 2 ∷ []

abbrev pub is_enoent : Disk → Text → Bool
is_enoent d path = elim (d.lstat path) [ found st ↦ d.stale | missing ↦ true | failed ↦ false ]

unfoldable pub meta_actions : Disk → Text → MetaBody → Option (List ServerAction)
unfolding known_file
meta_actions d path m =
    let known : Option (List ServerAction) = elim (d.lstat path) [
      | found st ↦ some (known_file d path m st)
      | missing ↦ none
      | failed ↦ none
    ] in
    if is_enoent d path && s_isdir m.stat
    then some (mkdir path ∷ take_over path m.stat (res_answer 1 0 ∷ []))
    else if is_enoent d path && s_isreg m.stat
    then some (create path ∷ res_answer 1 2 ∷ [])
    else known

unfoldable pub syn_meta : Disk → Session → MetaBody → Text → Option (Text × List ServerAction)
unfolding recv_text join meta_actions
syn_meta d s m stream = user_homedir s >>= (λ home.
    recv_text m.pathlen stream >>= (λ (buff, stream').
      join home buff >>= (λ path. meta_actions d path m >>= (λ out. some (stream', out)))))

abbrev pub hard_link_actions : Disk → Text → Text → List ServerAction
hard_link_actions d source target =
    link target source ∷ res_answer 3 (if d.links target source then 0 else 1) ∷ []

-- `status` MORE is a hard link; for a symbolic one an int follows that says where the target lies.
unfoldable pub soft_link_actions : Text → Text → Text → ℕ → Option (List ServerAction)
unfolding join
soft_link_actions home src tar same_head = join home src >>= (λ source.
    (if same_head == 0 then some tar else join home tar)
    >>= (λ target. some (symlink target source ∷ res_answer 3 2 ∷ [])))

unfoldable pub syn_hardlink :
    Layout → Disk → Session → Header → LinkBody → Text → Option (Text × List ServerAction)
unfolding recv_text join soft_link_actions
syn_hardlink l d s h body stream = user_homedir s >>= (λ home.
    recv_text body.srclen stream >>= (λ (src, stream').
      recv_text body.targetlen stream' >>= (λ (tar, stream'').
        let hard =
          (join home src >>= (λ source.
            join home tar >>= (λ target. some (stream'', hard_link_actions d source target)))) in
        let (came, bytes, stream''') = recv_message l.int_size stream'' in
        let soft =
          (soft_link_actions home src tar (l.decode_int bytes)
            >>= (λ out. some (stream''', out))) in
        if h.status == 2 then hard else if came then soft else none)))

-- `rm -rf ` and the path, as a command line of the shell.
unfoldable pub rm_actions : Text → Option (List ServerAction)
rm_actions path =
    let command : Text = 114 ∷ 109 ∷ 32 ∷ 45 ∷ 114 ∷ 102 ∷ 32 ∷ path in
    if ltb (length command) path_limit then some (system command ∷ res_answer 5 0 ∷ []) else none

unfoldable pub delete : Session → ℕ → Text → Option (Text × List ServerAction)
unfolding recv_text join rm_actions
delete s pathlen stream = user_homedir s >>= (λ home.
    recv_text pathlen stream >>= (λ (buff, stream').
      join home buff >>= (λ path. rm_actions path >>= (λ out. some (stream', out)))))

-- `i` points to the new entry, which is freed where the login fails.
unfoldable pub login_user : Layout → ℕ → Session → Login → Session × List ServerAction
login_user l conn_fd s req =
    let succ : Bool = elim (get_account_info l.server req.user) [
      | none ↦ false
      | some hash ↦ same_text req.passwd_hash hash
    ] in
    if succ
    then (
      record s { user = some req.user },
      mkdir (s.path ++ (47 ∷ req.user))
          ∷ send (record { magic = 145; op = 0; status = 0; client_id = conn_fd; datalen = 0 })
          ∷ [],
    )
    else (record s { user = none }, res_answer 0 1 ∷ [])

-- A message behind its header: the session, the bytes left and what was done. A body that does not
-- come whole is passed over.
abbrev pub Outcome : Type 0
Outcome = Session × Text × List ServerAction

abbrev pub with_body : ℕ → Header → Session → Text → (Text → Text → Option Outcome) → Option Outcome
with_body size h s stream handler = complete_message size h stream >>= (λ (came, body, stream').
    let run = handler body stream' in if came then run else some (s, stream', []))

abbrev pub same_session : Session → Option (Text × List ServerAction) → Option Outcome
same_session s r = r >>= (λ (stream, out). some (s, stream, out))

unfoldable pub on_op : Layout → Disk → ℕ → Session → Header → Text → Option Outcome
on_op l d conn_fd s h stream =
    if h.op == 0
    then with_body l.server.login_size h s stream (λ body stream'.
      let (s', out) = login_user l conn_fd s (l.server.decode_login body) in
      some (s', stream', out))
    else if h.op == 1
    then with_body l.meta_size h s stream
        (λ body stream'. same_session s (syn_meta d s (l.decode_meta body) stream'))
    else if h.op == 2
    then with_body l.file_size h s stream
        (λ body stream'. same_session s (syn_file d s (l.decode_file body) stream'))
    else if h.op == 3
    then with_body l.link_size h s stream
        (λ body stream'. same_session s (syn_hardlink l d s h (l.decode_link body) stream'))
    else if h.op == 5
    then with_body l.rm_size h s stream
        (λ body stream'. same_session s (delete s (l.decode_rm body) stream'))
    else some (s, stream, [])

-- The loop over the messages of a connection, on fuel; `disks` gives the disk of each round. None is
-- also fuel that runs out. At the end of the connection the client is logged out,
-- which frees the entry under `i`.
unfoldable pub handle_connection :
    Layout → (ℕ → Disk) → ℕ → ℕ → Session → Text → Option (Session × List ServerAction)
handle_connection l disks conn_fd zero s stream = none
handle_connection l disks conn_fd (suc fuel) s stream =
    let (came, bytes, stream') = recv_message l.server.header_size stream in
    let h = l.server.decode_header bytes in
    let run =
      (if h.magic == 144 then on_op l (disks fuel) conn_fd s h stream' else some (s, stream', []))
      >>= (λ (s', stream'', out).
          handle_connection l disks conn_fd fuel s' stream''
          >>= (λ (s'', more). some (s'', out ++ more))) in
    if came then run else some (record s { user = none }, close ∷ [])
