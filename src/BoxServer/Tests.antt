-- ===== src/BoxServer/Tests.antt =====
-- The request handlers run with a small layout of messages, and their theorems there.
use ntu_system_programming.Common.{
  ℕ, ◌≡◌, refl, arith, true, false, none, some, List, [], ◌∷◌, ◌++◌, ◌>>=◌, take, drop, get_or,
}
use ntu_system_programming.BoxServer.{
  Text, Stat, Login, World, Server, Result, Action, send, chmod, utime, truncate, write, same_text,
  set_client, recv_message, complete_message,
}
use ntu_system_programming.BoxServer.Accounts.{
  get_account_info, find_password, password_in, strtok, skip_commas, until_comma, response, logout,
  check_client_and_get_homedir,
}
use ntu_system_programming.BoxServer.Requests.{choose_thread, handle_request, switch, on_sync_meta}
use ntu_system_programming.BoxServer.Files.{
  receive_file, sync_file, part_size, recv_path, sync_path, take_data, compare_file, up_to_nul,
}
use ntu_system_programming.BoxServer.Transfer.{Writes, receive_file_lem}
use ntu_system_programming.BoxServer.Gate.{untouched, handle_request-untouched}
use ntu_system_programming.BoxServer.Session.{Authentic, entered, busy_leaves_path}

abbrev at : Text → ℕ → ℕ
at t i = get_or t i 0

abbrev plain : ℕ → Stat
plain mode = record { st_mode = mode; st_atime = 5; st_mtime = 6 }

-- A header is five bytes, the other messages are one or two; the account of user 65 has the password 66.
abbrev pub bytes_world : World
bytes_world = record {
  header_size = 5;
  decode_header = λ t. record {
    magic = at t 0;
    op = at t 1;
    status = at t 2;
    client_id = at t 3;
    datalen = at t 4;
  };
  login_size = 2;
  decode_login = λ t. record { user = at t 0 ∷ []; passwd_hash = at t 1 ∷ [] };
  meta_size = 2;
  decode_meta = λ t. record { pathlen = at t 0; stat = plain (at t 1); hash = [] };
  rm_size = 1;
  decode_rm = λ t. at t 0;
  file_size = 1;
  decode_file = λ t. at t 0;
  lstat = λ p. none;
  md5_file = λ p. [];
  md5 = λ p. p;
  account_lines = some ((65 ∷ 44 ∷ 66 ∷ []) ∷ []);
  opens = λ p. true;
}

abbrev pub empty : Server
empty = record { path = 47 ∷ []; client = λ fd. none }

abbrev pub credentials : Login
credentials = record { user = 65 ∷ []; passwd_hash = 66 ∷ [] }

-- A message that announces the path 112, for a client 4, and its path.
abbrev meta_bytes : Text
meta_bytes = 144 ∷ 1 ∷ 0 ∷ 4 ∷ 2 ∷ 1 ∷ 7 ∷ []

abbrev home_path : Text
home_path = 47 ∷ 47 ∷ 65 ∷ 112 ∷ []

-- The file of three bytes that follows is stored in the home directory of the client.
stored :
    (handle_request bytes_world
        (set_client empty 4 (some (entered 4 credentials)))
        4
        (meta_bytes ++ 112 ∷ 3 ∷ 1 ∷ 2 ∷ 3 ∷ 9 ∷ [])
      >>= λ r. some (r.actions))
    ≡ some (
        response 1 2 4
        ∷ truncate home_path
        ∷ write home_path (1 ∷ 2 ∷ 3 ∷ [])
        ∷ chmod home_path 7
        ∷ utime home_path 5 6
        ∷ response 2 0 4
        ∷ [])
unfolding handle_request switch on_sync_meta sync_file recv_message complete_message logout
    check_client_and_get_homedir recv_path sync_path take_data compare_file up_to_nul receive_file
    part_size
stored = refl

receive_file_lem_example :
    (out : List Action) × (receive_file 1 home_path 3 (1 ∷ 2 ∷ 3 ∷ 9 ∷ [])
      ≡ (drop 3 (1 ∷ 2 ∷ 3 ∷ 9 ∷ []), out))
    × Writes home_path out (take 3 (1 ∷ 2 ∷ 3 ∷ 9 ∷ []))
receive_file_lem_example =
    receive_file_lem 1 home_path 3 (1 ∷ 2 ∷ 3 ∷ 9 ∷ []) (omega arith) (omega arith)

abbrev refused : Result
refused = record { server = empty; stream = 112 ∷ []; actions = [] }

meta_refused : handle_request bytes_world empty 4 (meta_bytes ++ 112 ∷ []) ≡ some refused
unfolding handle_request switch on_sync_meta sync_file recv_message complete_message logout
    check_client_and_get_homedir
meta_refused = refl

handle_request-untouched_example : untouched (refused.actions) ≡ true
handle_request-untouched_example =
    handle_request-untouched bytes_world empty 4 (meta_bytes ++ 112 ∷ []) refused refl meta_refused

credentials-Authentic : Authentic bytes_world credentials
unfolding Authentic get_account_info find_password password_in strtok skip_commas until_comma
    same_text
credentials-Authentic = (66 ∷ [], refl, refl)

abbrev logged_in : Server
logged_in = set_client empty 4 (some (entered 4 credentials))

busy_leaves_path_example :
    (r : Result) × (choose_thread bytes_world false logged_in 4
        ((144 ∷ 1 ∷ 0 ∷ 4 ∷ 2 ∷ []) ++ ((1 ∷ 7 ∷ []) ++ (112 ∷ [])))
      ≡ some r)
    × (r.stream ≡ 112 ∷ [])
    × (r.actions
        ≡ send (record (bytes_world.decode_header (144 ∷ 1 ∷ 0 ∷ 4 ∷ 2 ∷ [])) {
          magic = 145;
          datalen = 0;
          status = 3;
          client_id = 4;
        })
          ∷ [])
busy_leaves_path_example =
    busy_leaves_path bytes_world logged_in 4 (entered 4 credentials) (144 ∷ 1 ∷ 0 ∷ 4 ∷ 2 ∷ [])
      (1 ∷ 7 ∷ []) (112 ∷ []) refl (omega arith) refl (omega arith) refl
