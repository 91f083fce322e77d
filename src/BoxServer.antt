-- ===== src/BoxServer.antt =====
-- The request handlers of the csiebox server, MP5/src/csiebox_server.c, with the receive functions of
-- MP5/src/csiebox_common.c. What a client has sent is the bytes still to be received; what the
-- server does is a list of actions. The layout of the structs, the file system as it is found and
-- the digests are the parameter `World`. `none` is a message longer than the struct it is read into.
pub mod Accounts
pub mod Files
pub mod Requests
pub mod Config
pub mod Transfer
pub mod Gate
pub mod Session
pub mod Loop
pub mod Tests
use ntu_system_programming.Common.{
  ℕ, zero, suc, ◌+◌, ◌-◌, ◌/◌, ◌%◌, Bool, true, false, Option, none, some, List, [], ◌∷◌, ◌++◌, leb,
  ltb, ◌==◌, ◌&&◌, not, if◌then◌else◌, ◌>>=◌, length, take, drop, replicate, ◌/◌,
}
unfoldable pub use ntu_system_programming.Common.Strings.{Text, same_text}

pub record Header : Type 0 where
  pub magic : ℕ
  pub op : ℕ
  pub status : ℕ
  pub client_id : ℕ
  pub datalen : ℕ

-- The fields of a `struct stat` that are used.
pub record Stat : Type 0 where
  pub st_mode : ℕ
  pub st_atime : ℕ
  pub st_mtime : ℕ

-- `(st_mode & S_IFMT) == S_IFDIR`: the bits 12 to 15 are 4.
abbrev pub is_dir : Stat → Bool
is_dir s = s.st_mode / 4096 % 16 == 4

pub record Login : Type 0 where
  pub user : Text
  pub passwd_hash : Text

pub record Meta : Type 0 where
  pub pathlen : ℕ
  pub stat : Stat
  pub hash : Text

-- The decoders read the bytes of a struct behind its header, that of a file the whole struct.
pub record World : Type 0 where
  pub header_size : ℕ
  pub decode_header : Text → Header
  pub login_size : ℕ
  pub decode_login : Text → Login
  pub meta_size : ℕ
  pub decode_meta : Text → Meta
  pub rm_size : ℕ
  pub decode_rm : Text → ℕ
  pub file_size : ℕ
  pub decode_file : Text → ℕ
  pub lstat : Text → Option Stat
  pub md5_file : Text → Text
  pub md5 : Text → Text
  pub account_lines : Option (List Text)
  pub opens : Text → Bool

pub data Action : Type 0 where
  send : Header → Action
  mkdir : Text → Action
  chmod : Text → ℕ → Action
  utime : Text → ℕ → ℕ → Action
  truncate : Text → Action
  write : Text → Text → Action
  rmdir : Text → Action
  unlink : Text → Action
  close : Action

pub record ClientInfo : Type 0 where
  pub user : Text
  pub conn_fd : ℕ
  pub in_thread : Bool

pub record Server : Type 0 where
  pub path : Text
  pub client : ℕ → Option ClientInfo

-- What a handler leaves: the server, the bytes still to be received, and what it did.
pub record Result : Type 0 where
  pub server : Server
  pub stream : Text
  pub actions : List Action

abbrev pub set_client : Server → ℕ → Option ClientInfo → Server
set_client s fd v = record s { client = λ q. if fd == q then v else s.client q }

-- `recv_message`: whether all `n` bytes came, what came, and what is left.
unfoldable pub recv_message : ℕ → Text → Bool × Text × Text
recv_message zero stream = (false, [], stream)
recv_message (suc n) stream =
    if leb (suc n) (length stream)
    then (true, take (suc n) stream, drop (suc n) stream)
    else (false, stream, [])

-- The body of a message, into a struct with room for `size` bytes.
unfoldable pub complete_message : ℕ → Header → Text → Option (Bool × Text × Text)
complete_message size h stream =
    if leb h.datalen size
    then some (leb h.datalen (length stream), take h.datalen stream, drop h.datalen stream)
    else none
