-- ===== src/BoxServer/Gate.antt =====
-- Who may change files: nothing of a client that has not logged in reaches them.
use ntu_system_programming.Common.{
  ℕ, ◌≡◌, refl, arith, Bool, true, false, none, some, List, [], ◌∷◌, if◌then◌else◌, take,
  Bool-cases, inl, inr, Option-cases,
}
use ntu_system_programming.BoxServer.{
  Text, Header, World, Server, Result, Action, chmod, utime, truncate, write, rmdir, unlink, Login,
  complete_message, recv_message, same_text,
}
use ntu_system_programming.BoxServer.Accounts.{
  login, check_client_and_get_homedir, get_account_info, logout,
}
use ntu_system_programming.BoxServer.Files.{sync_file, rm_file}
use ntu_system_programming.BoxServer.Requests.{
  on_login, on_sync_meta, on_rm, switch, handle_request,
}

-- Whether an action changes a file; making the home directory is part of a login.
unfoldable pub touches_file : Action → Bool
touches_file (chmod p m) = true
touches_file (utime p a m) = true
touches_file (truncate p) = true
touches_file (write p b) = true
touches_file (rmdir p) = true
touches_file (unlink p) = true
touches_file _ = false

unfoldable pub untouched : List Action → Bool
untouched [] = true
untouched (a ∷ out) = let rest = untouched out in if touches_file a then false else rest

no_home :
    (s : Server) (fd id : ℕ) → s.client fd ≡ none → check_client_and_get_homedir s fd id ≡ none
unfolding check_client_and_get_homedir
no_home s fd id out = rw out refl

login-untouched :
    (w : World) (s : Server) (fd : ℕ) (req : Login) → untouched ((login w s fd req).1) ≡ true
unfolding login untouched touches_file
login-untouched w s fd req = elim (Option-cases (get_account_info w (req.user))) [
  | inl unknown ↦ rw unknown refl
  | inr (hash, found) ↦ elim (Bool-cases (same_text (req.passwd_hash) hash)) [
    | inl same ↦ rw (found, same) refl
    | inr other ↦ rw (found, other) refl
  ]
]

on_login-untouched :
    (w : World) (s : Server) (fd : ℕ) (h : Header) (stream : Text) (r : Result)
    → on_login w s fd h stream ≡ some r
    → untouched (r.actions) ≡ true
unfolding on_login complete_message untouched
on_login-untouched w s fd h stream r e =
    ground (arith, login-untouched w s fd (w.decode_login (take h.datalen stream)))

on_sync_meta-untouched :
    (w : World) (s : Server) (fd : ℕ) (h : Header) (stream : Text) (r : Result)
    → s.client fd ≡ none
    → on_sync_meta w s fd h stream ≡ some r
    → untouched (r.actions) ≡ true
unfolding on_sync_meta complete_message sync_file untouched
on_sync_meta-untouched w s fd h stream r out e = ground (arith, no_home s fd (h.client_id) out)

on_rm-untouched :
    (w : World) (s : Server) (fd : ℕ) (h : Header) (stream : Text) (r : Result)
    → s.client fd ≡ none
    → on_rm w s fd h stream ≡ some r
    → untouched (r.actions) ≡ true
unfolding on_rm complete_message rm_file untouched
on_rm-untouched w s fd h stream r out e = ground (arith, no_home s fd (h.client_id) out)

-- Whatever bytes come from a connection without a login: no file of the server is written, changed or
-- removed by the request.
pub handle_request-untouched :
    (w : World) (s : Server) (fd : ℕ) (stream : Text) (r : Result)
    → s.client fd ≡ none
    → handle_request w s fd stream ≡ some r
    → untouched (r.actions) ≡ true
unfolding handle_request switch logout untouched touches_file
handle_request-untouched w s fd stream r out e =
    let (came, bytes, stream') = recv_message (w.header_size) stream in
    let h = w.decode_header bytes in
    ground (
      arith,
      on_login-untouched w s fd h stream' r,
      on_sync_meta-untouched w s fd h stream' r out,
      on_rm-untouched w s fd h stream' r out,
    )
