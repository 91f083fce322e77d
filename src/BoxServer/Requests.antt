-- ===== src/BoxServer/Requests.antt =====
-- The requests of the csiebox server: handle_request and choose_thread of
-- MP5/src/csiebox_server.c.
use ntu_system_programming.Common.{
  ℕ, Bool, true, false, Option, none, some, [], ◌∷◌, ◌==◌, if◌then◌else◌, ◌>>=◌,
}
use ntu_system_programming.BoxServer.{
  Text, Header, World, Server, Result, recv_message, complete_message, send,
}
use ntu_system_programming.BoxServer.Accounts.{login, logout}
use ntu_system_programming.BoxServer.Files.{sync_file, rm_file}

-- The cases of the switch on `op`, with the header and the bytes behind it.
unfoldable pub on_login : World → Server → ℕ → Header → Text → Option Result
on_login w s conn_fd h stream =
    complete_message (w.login_size) h stream >>= (λ (came, body, stream').
      let (s', out) = if came then login w s conn_fd (w.decode_login body) else (s, []) in
      some (record { server = s'; stream = stream'; actions = out }))

unfoldable pub on_sync_meta : World → Server → ℕ → Header → Text → Option Result
on_sync_meta w s conn_fd h stream =
    complete_message (w.meta_size) h stream >>= (λ (came, body, stream').
      let run = sync_file w s conn_fd (h.client_id) (w.decode_meta body) stream' in
      (if came then run else some (stream', []))
      >>= (λ (stream'', out). some (record { server = s; stream = stream''; actions = out })))

unfoldable pub on_rm : World → Server → ℕ → Header → Text → Option Result
on_rm w s conn_fd h stream = complete_message (w.rm_size) h stream >>= (λ (came, body, stream').
    let run = rm_file w s conn_fd (h.client_id) (w.decode_rm body) stream' in
    (if came then run else some (stream', []))
    >>= (λ (stream'', out). some (record { server = s; stream = stream''; actions = out })))

-- A header of another magic, the end of a synchronisation and an unknown operation do nothing.
unfoldable pub switch : World → Server → ℕ → Header → Text → Option Result
switch w s conn_fd h stream =
    if h.magic == 144
    then if h.op == 0
      then on_login w s conn_fd h stream
      else if h.op == 1
      then on_sync_meta w s conn_fd h stream
      else if h.op == 5
      then on_rm w s conn_fd h stream
      else some (record { server = s; stream = stream; actions = [] })
    else some (record { server = s; stream = stream; actions = [] })

unfoldable pub handle_request : World → Server → ℕ → Text → Option Result
handle_request w s conn_fd stream =
    let (came, bytes, stream') = recv_message (w.header_size) stream in
    let (s', out) = logout s conn_fd in
    let run = switch w s conn_fd (w.decode_header bytes) stream' in
    if came then run else some (record { server = s'; stream = stream'; actions = out })

-- What `server_thread_func` runs, and the answer where `run_task` finds no free thread. The flag
-- `in_thread` keeps the connection out of select while a thread has it.
abbrev pub mark : Server → ℕ → Bool → Server
mark s fd b = record s {
  client = λ q.
      if fd == q
      then elim (s.client q) [ none ↦ none | some info ↦ some (record info { in_thread = b }) ]
      else s.client q;
}

unfoldable pub server_thread_func : World → Server → ℕ → Text → Option Result
server_thread_func w s conn_fd stream = do
  r ← handle_request w (mark s conn_fd true) conn_fd stream
  some (record r { server = mark (r.server) conn_fd false })

unfoldable pub answer_busy : World → Server → ℕ → Text → Result
answer_busy w s conn_fd stream =
    let (came, bytes, stream') = recv_message (w.header_size) stream in
    let h = w.decode_header bytes in
    let (got, buf, stream'') = recv_message (h.datalen) stream' in
    let (s', out) = logout s conn_fd in
    if came
    then record {
      server = mark s conn_fd false;
      stream = stream'';
      actions = send (record h { magic = 145; datalen = 0; status = 3; client_id = conn_fd }) ∷ [];
    }
    else record { server = s'; stream = stream'; actions = out }

-- `in_thread` is written to the entry of the connection, which has to be there.
unfoldable pub choose_thread : World → Bool → Server → ℕ → Text → Option Result
choose_thread w accepted s conn_fd stream =
    let run = server_thread_func w s conn_fd stream in
    elim (s.client conn_fd) [
      | none ↦ none
      | some info ↦ if accepted then run else some (answer_busy w s conn_fd stream)
    ]
