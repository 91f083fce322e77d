-- ===== src/FirstServer/Tests.antt =====
-- A connection to MP2/src/csiebox_server.c, and its theorem there.
use ntu_system_programming.Common.{
  ℕ, ◌≡◌, refl, arith, true, false, some, none, List, [], ◌∷◌, ◌++◌, inl, get_or,
}
use ntu_system_programming.BoxServer.{Text, same_text}
use ntu_system_programming.BoxServer.Accounts.{
  get_account_info, find_password, password_in, strtok, skip_commas, until_comma,
}
use ntu_system_programming.BoxServer.Files.{up_to_nul}
use ntu_system_programming.BoxServer.Tests.{bytes_world, credentials}
use ntu_system_programming.FirstServer.{
  ServerAction, Layout, Disk, Session, FileStat, MetaBody, FileBody, missing, mkdir, chmod, utime,
  send, res_answer, system, close, handle_connection, login_user, join, meta_actions, rm_actions,
}
use ntu_system_programming.FirstServer.Served.{
  ClientRequest, logs_in, has_meta, has_removed, serve_request, serve_requests, Plain, Sends,
  login_bytes, meta_bytes, rm_bytes,
}
use ntu_system_programming.FirstServer.Syncing.{syn, Synced, syn_lem}
use ntu_system_programming.FirstServer.Rounds.{SendsAll, handle_connection_lem}

abbrev at : Text → ℕ → ℕ
at t i = get_or t i 0

abbrev folder : FileStat
folder = record { st_mode = 16877; st_size = 0; st_atime = 5; st_mtime = 6 }

abbrev layout : Layout
layout = record {
  server = bytes_world;
  meta_size = 1;
  decode_meta = λ t. record { pathlen = at t 0; stat = folder; hash = [] };
  file_size = 2;
  decode_file = λ t. record { stat = record folder { st_size = at t 0 }; pathlen = at t 1 };
  link_size = 2;
  decode_link = λ t. record { srclen = at t 0; targetlen = at t 1 };
  rm_size = 1;
  decode_rm = λ t. at t 0;
  int_size = 4;
  decode_int = λ t. at t 0;
}

abbrev empty_disk : Disk
empty_disk = record {
  lstat = λ p. missing;
  stale = false;
  md5_file = λ p. [];
  writes = λ p. true;
  links = λ a b. true;
}

abbrev nobody : Session
nobody = record { path = 47 ∷ []; user = none }

abbrev folder_meta : MetaBody
folder_meta = record { pathlen = 1; stat = folder; hash = [] }

-- The user 65 logs in, sends the directory p and removes it.
abbrev requests : List ClientRequest
requests = logs_in credentials ∷ has_meta folder_meta (112 ∷ []) ∷ has_removed (112 ∷ []) ∷ []

abbrev login_text : Text
login_text = 144 ∷ 0 ∷ 0 ∷ 0 ∷ 2 ∷ 65 ∷ 66 ∷ []

abbrev meta_text : Text
meta_text = 144 ∷ 1 ∷ 0 ∷ 0 ∷ 1 ∷ 1 ∷ 112 ∷ []

abbrev rm_text : Text
rm_text = 144 ∷ 5 ∷ 0 ∷ 0 ∷ 1 ∷ 1 ∷ 112 ∷ []

p-Plain : Plain 1 (112 ∷ [])
unfolding up_to_nul
p-Plain = record { len = refl; some_byte = omega arith; short = omega arith; no_nul = refl }

login-Sends : Sends layout (logs_in credentials) login_text
login-Sends =
    login_bytes (144 ∷ 0 ∷ 0 ∷ 0 ∷ 2 ∷ []) (65 ∷ 66 ∷ [])
      (record {
        header_len = refl;
        some_header = omega arith;
        magic = refl;
        is_op = refl;
        datalen = refl;
        room = omega arith;
      })
      refl refl

meta-Sends : Sends layout (has_meta folder_meta (112 ∷ [])) meta_text
meta-Sends =
    meta_bytes (144 ∷ 1 ∷ 0 ∷ 0 ∷ 1 ∷ []) (1 ∷ []) (112 ∷ [])
      (record {
        header_len = refl;
        some_header = omega arith;
        magic = refl;
        is_op = refl;
        datalen = refl;
        room = omega arith;
      })
      p-Plain refl refl

rm-Sends : Sends layout (has_removed (112 ∷ [])) rm_text
rm-Sends =
    rm_bytes (144 ∷ 5 ∷ 0 ∷ 0 ∷ 1 ∷ []) (1 ∷ []) (112 ∷ [])
      (record {
        header_len = refl;
        some_header = omega arith;
        magic = refl;
        is_op = refl;
        datalen = refl;
        room = omega arith;
      })
      p-Plain refl refl

requests-SendsAll : SendsAll layout requests (login_text ++ (meta_text ++ (rm_text ++ [])))
unfolding SendsAll
requests-SendsAll = (
  login_text,
  _,
  login-Sends,
  (meta_text, _, meta-Sends, (rm_text, [], rm-Sends, refl, refl), refl),
  refl,
)

abbrev user : Session
user = record { path = 47 ∷ []; user = some (65 ∷ []) }

abbrev plain_meta : MetaBody
plain_meta = record {
  pathlen = 1;
  stat = record folder { st_mode = 33188; st_size = 1 };
  hash = [];
}

abbrev plain_file : FileBody
plain_file = record { stat = plain_meta.stat; pathlen = 1 }

abbrev p_path : Text
p_path = 47 ∷ 47 ∷ 65 ∷ 47 ∷ 112 ∷ []

p_path-join : join (47 ∷ 47 ∷ 65 ∷ []) (112 ∷ []) ≡ some p_path
unfolding join
p_path-join = refl

syn_lem_example :
    (out : List ServerAction) × (syn layout empty_disk empty_disk 4 user plain_meta plain_file
        (112 ∷ [])
        (1 ∷ [])
      ≡ some (user, out))
    × Synced layout empty_disk empty_disk 4 user plain_meta plain_file
        (112 ∷ [])
        (1 ∷ [])
        (47 ∷ 47 ∷ 65 ∷ [])
        p_path
        refl
        p_path-join
        refl
        refl
        refl
        refl
        out
syn_lem_example =
    syn_lem layout empty_disk empty_disk 4 user plain_meta plain_file (112 ∷ []) (1 ∷ [])
      (47 ∷ 47 ∷ 65 ∷ []) p_path refl p_path-join refl refl refl refl (inl refl)

-- The directory is made in the home directory of the user, and removed by the shell.
served :
    serve_requests layout (λ n. empty_disk) 4 nobody requests
    ≡ some (
      record { path = 47 ∷ []; user = none },
      mkdir (47 ∷ 47 ∷ 65 ∷ [])
          ∷ send (record { magic = 145; op = 0; status = 0; client_id = 4; datalen = 0 })
          ∷ mkdir (47 ∷ 47 ∷ 65 ∷ 47 ∷ 112 ∷ [])
          ∷ chmod (47 ∷ 47 ∷ 65 ∷ 47 ∷ 112 ∷ []) 16877
          ∷ utime (47 ∷ 47 ∷ 65 ∷ 47 ∷ 112 ∷ []) 5 6
          ∷ res_answer 1 0
          ∷ system (114 ∷ 109 ∷ 32 ∷ 45 ∷ 114 ∷ 102 ∷ 32 ∷ 47 ∷ 47 ∷ 65 ∷ 47 ∷ 112 ∷ [])
          ∷ res_answer 5 0
          ∷ close
          ∷ [],
    )
unfolding serve_requests serve_request login_user join meta_actions rm_actions get_account_info
    find_password password_in strtok skip_commas until_comma same_text
served = refl

handle_connection_lem_example :
    handle_connection layout
      (λ n. empty_disk)
      4
      4
      nobody
      (login_text ++ (meta_text ++ (rm_text ++ [])))
    ≡ serve_requests layout (λ n. empty_disk) 4 nobody requests
handle_connection_lem_example =
    handle_connection_lem layout (λ n. empty_disk) 4 nobody requests
      (login_text ++ (meta_text ++ (rm_text ++ []))) (omega arith) requests-SendsAll
