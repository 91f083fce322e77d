-- ===== src/BoxClient/Messages.antt =====
-- What the client sends: the requests of login, sync_file and rm_file.
use ntu_system_programming.Common.{
  ℕ, zero, suc, ◌+◌, ◌/◌, Option, none, some, List, [], ◌++◌, leb, ◌==◌, ◌&&◌, if◌then◌else◌, ◌>>=◌,
  length, replicate, take, drop,
}
use ntu_system_programming.BoxServer.{Text, Header, is_dir, Meta}
use ntu_system_programming.BoxClient.{Wire, Local, convert_to_relative_path}

abbrev pub request : ℕ → ℕ → ℕ → Header
request op client_id datalen = record {
  magic = 144;
  op = op;
  status = 0;
  client_id = client_id;
  datalen = datalen;
}

-- A user name longer than the 30 bytes of its field overflows it.
unfoldable pub login_message : Wire → (Text → Text) → Text → Text → Option Text
login_message x md5 user passwd =
    if leb (length user) 30
    then some (
        x.encode_header (request 0 0 (x.login_len))
        ++ x.encode_login (record { user = user; passwd_hash = md5 passwd }))
    else none

-- The client id that an answer to the login gives.
unfoldable pub login_answer : Header → Option ℕ
login_answer h =
    if (h.magic == 145) && ((h.op == 0) && (h.status == 0)) then some h.client_id else none

unfoldable pub meta_of : Local → Text → Meta
meta_of l relative = record {
  pathlen = length relative;
  stat = l.stat;
  hash = if is_dir (l.stat) then replicate 16 0 else l.digest;
}

-- What `sync_file_meta` sends.
unfoldable pub meta_message : Wire → ℕ → Local → Text → Text
unfolding meta_of
meta_message x client_id l relative =
    x.encode_header (request 1 client_id (x.meta_len))
    ++ (x.encode_meta (meta_of l relative) ++ relative)

abbrev pub file_struct : Wire → ℕ → ℕ → Text
file_struct x client_id datalen =
    x.encode_header (request 2 client_id (x.file_len)) ++ x.encode_file datalen

-- The loop that reads a file in parts of 4096 bytes and sends each.
unfoldable pub send_parts : ℕ → Text → Text
send_parts zero file = []
send_parts (suc fuel) file =
    let rest = send_parts fuel (drop 4096 file) in
    if length file == 0 then [] else take 4096 file ++ rest

-- What `sync_file_data` sends.
unfoldable pub data_message : Wire → ℕ → Local → Text
unfolding send_parts
data_message x client_id l =
    if is_dir (l.stat) then file_struct x client_id 0 else elim l.contents [
      | none ↦ file_struct x client_id 0
      | some file ↦
          file_struct x client_id (length file) ++ send_parts (length file / 4096 + 1) file
    ]

-- What `sync_file` sends, where the answer to the first message has this status; `none` inside is a
-- path that is not below the root, of which nothing is sent.
abbrev pub sync_message : Wire → ℕ → Local → Text → ℕ → Text
sync_message x client_id l relative status =
    meta_message x client_id l relative ++ (if status == 2 then data_message x client_id l else [])

unfoldable pub sync_file :
    Wire → ℕ → Text → Text → List ℕ → (Text → Local) → Text → ℕ → Option (Option Text)
unfolding convert_to_relative_path meta_message data_message
sync_file x client_id root cwd junk files path status =
    convert_to_relative_path root cwd path junk >>= (λ found. some (elim found [
      | none ↦ none
      | some relative ↦ some (sync_message x client_id (files path) relative status)
    ]))

-- What `rm_file` sends.
unfoldable pub rm_message : Wire → ℕ → Text → Text
rm_message x client_id relative =
    x.encode_header (request 5 client_id (x.rm_len)) ++ (x.encode_rm (length relative) ++ relative)
