-- ===== src/BoxServer/Accounts.antt =====
-- The account file, logins and logouts of the csiebox server, MP5/src/csiebox_server.c.
use ntu_system_programming.Common.{
  ℕ, Bool, false, Option, none, some, List, [], ◌∷◌, ◌++◌, ◌==◌, if◌then◌else◌, ◌>>=◌, length,
}
use ntu_system_programming.BoxServer.{
  Text, Login, World, Action, ClientInfo, Server, same_text, set_client, send, mkdir, close,
}

-- `strtok` at a comma: the token, and the rest behind the comma that ended it.
unfoldable pub skip_commas : Text → Text
skip_commas [] = []
skip_commas (b ∷ bs) = let rest = skip_commas bs in if b == 44 then rest else b ∷ bs

unfoldable pub until_comma : Text → Text × Text
until_comma [] = ([], [])
until_comma (b ∷ bs) =
    let rest = until_comma bs in if b == 44 then ([], bs) else (b ∷ rest.0, rest.1)

unfoldable pub strtok : Text → Option (Text × Text)
strtok t = elim (skip_commas t) [ [] ↦ none | b ∷ bs ↦ some (until_comma (b ∷ bs)) ]

-- The password of one line of the account file, without its newline, for `user`.
unfoldable pub password_in : Text → Text → Option Text
password_in user line = strtok line >>= (λ (u, rest).
    if same_text user u then strtok rest >>= (λ (passwd, _). some passwd) else none)

-- The loop over the lines ends at an empty one.
unfoldable pub find_password : Text → List Text → Option Text
find_password user [] = none
find_password user (line ∷ lines) =
    let rest = find_password user lines in
    if length line == 0
    then none
    else elim (password_in user line) [ none ↦ rest | some passwd ↦ some passwd ]

-- The digest of the password of `user`.
unfoldable pub get_account_info : World → Text → Option Text
get_account_info w user = do
  lines ← w.account_lines
  passwd ← find_password user lines
  some (w.md5 passwd)

abbrev pub response : ℕ → ℕ → ℕ → Action
response op status client_id =
    send (record { magic = 145; op = op; status = status; client_id = client_id; datalen = 0 })

abbrev pub get_user_homedir : Server → ClientInfo → Text
get_user_homedir s info = s.path ++ 47 ∷ info.user

unfoldable pub login : World → Server → ℕ → Login → Server × List Action
login w s conn_fd req =
    let info : ClientInfo = record { user = req.user; conn_fd = conn_fd; in_thread = false } in
    let succ : Bool = elim (get_account_info w (req.user)) [
      | none ↦ false
      | some hash ↦ same_text (req.passwd_hash) hash
    ] in
    if succ
    then (
      set_client s conn_fd (some info),
      mkdir (get_user_homedir s info) ∷ response 0 0 conn_fd ∷ [],
    )
    else (s, response 0 1 0 ∷ [])

unfoldable pub logout : Server → ℕ → Server × List Action
logout s conn_fd = (set_client s conn_fd none, close ∷ [])

unfoldable pub check_client_and_get_homedir : Server → ℕ → ℕ → Option Text
check_client_and_get_homedir s conn_fd client_id =
    s.client conn_fd
    >>= (λ info. if conn_fd == client_id then some (get_user_homedir s info) else none)
