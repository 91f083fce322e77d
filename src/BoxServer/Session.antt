-- ===== src/BoxServer/Session.antt =====
-- Logins, and what a busy answer leaves of a request.
use ntu_system_programming.Common.{
  ℕ, ◌<◌, ◌≡◌, refl, sym, arith, true, false, some, [], ◌∷◌, ◌++◌, length, Bool-cases, inl, inr,
  Option-cases,
}
use ntu_system_programming.BoxServer.{
  Text, World, Server, ClientInfo, Result, send, mkdir, Login, same_text, set_client,
}
use ntu_system_programming.BoxServer.Accounts.{login, get_account_info, get_user_homedir, response}
use ntu_system_programming.BoxServer.Requests.{mark, answer_busy, choose_thread}
use ntu_system_programming.BoxServer.Transfer.{recv_message-append}

-- The account file has the user, and its password has the digest that was sent.
unfoldable pub Authentic : World → Login → Type 0
Authentic w req =
    (hash : Text) × (get_account_info w (req.user) ≡ some hash)
    × (same_text (req.passwd_hash) hash ≡ true)

abbrev pub entered : ℕ → Login → ClientInfo
entered fd req = record { user = req.user; conn_fd = fd; in_thread = false }

-- An authentic login enters the client, makes its home directory and answers OK; any other leaves the
-- server as it is and answers FAIL.
pub login_lem :
    (w : World) (s : Server) (fd : ℕ) (req : Login)
    → (Authentic w req
        → login w s fd req ≡ (
          set_client s fd (some (entered fd req)),
          mkdir (get_user_homedir s (entered fd req)) ∷ response 0 0 fd ∷ [],
        ))
      × (¬ Authentic w req → login w s fd req ≡ (s, response 0 1 0 ∷ []))
unfolding login Authentic
login_lem w s fd req = (
  λ (hash, found, same). rw (found, same) refl,
  λ foreign. elim (Option-cases (get_account_info w (req.user))) [
    | inl unknown ↦ rw unknown refl
    | inr (hash, found) ↦ elim (Bool-cases (same_text (req.passwd_hash) hash)) [
      | inl same ↦ absurd (foreign (hash, found, same))
      | inr other ↦ rw (found, other) refl
    ]
  ],
)

-- Where the pool is busy, a message of a header and a body on the connection of a client that has
-- logged in is answered with BUSY and taken from the connection, and nothing behind it: a path that belongs to the message is left there, as if it were
-- the next request.
pub busy_leaves_path :
    (w : World) (s : Server) (fd : ℕ) (info : ClientInfo) (header body path : Text)
    → s.client fd ≡ some info
    → 0 < w.header_size
    → length header ≡ w.header_size
    → 0 < length body
    → (w.decode_header header).datalen ≡ length body
    → (r : Result) × (choose_thread w false s fd (header ++ (body ++ path)) ≡ some r)
      × (r.stream ≡ path)
      × (r.actions
          ≡ send (record (w.decode_header header) {
            magic = 145;
            datalen = 0;
            status = 3;
            client_id = fd;
          })
            ∷ [])
unfolding choose_thread answer_busy
busy_leaves_path w s fd info header body path there real h_len some_body b_len =
    let first = recv_message-append (w.header_size) header (body ++ path) h_len real in
    let second =
      recv_message-append ((w.decode_header header).datalen) body path (sym b_len)
        (omega (arith, b_len, some_body)) in
    (
      record {
        server = mark s fd false;
        stream = path;
        actions =
            send (record (w.decode_header header) {
              magic = 145;
              datalen = 0;
              status = 3;
              client_id = fd;
            })
            ∷ [];
      },
      rw (choose_thread, there, first, second) refl,
      refl,
      refl,
    )
