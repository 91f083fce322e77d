-- ===== src/BoxServer/Loop.antt =====
-- The loop of the csiebox server, csiebox_server_run of MP5/src/csiebox_server.c, with the threads that
-- run its requests. The steps are those of the loop, between two of which the other threads may act:
-- the look at the table `client`, `select` with `accept`, and each descriptor that is ready; and for a
-- task of the pool `handle_request` and the write of `in_thread` behind it. What `accept`, `select`,
-- `run_task` and the connections give is the choice of a step.
pub mod Touched
pub mod Tasks
pub mod Invariant
pub mod Runs
mod Tests
use ntu_system_programming.Common.{
  ℕ, zero, suc, ◌+◌, Bool, true, false, ◌≡◌, Option, none, some, List, [], ◌∷◌, ◌++◌, if◌then◌else◌,
  ◌>>=◌,
}
use ntu_system_programming.BoxServer.{Text, World, Server, Result}
use ntu_system_programming.BoxServer.Requests.{handle_request, mark, answer_busy}

-- Before the scan of the clients, in `select`, or in the loop over the ready descriptors.
pub data LoopPlace : Type 0 where
  top selecting serving : LoopPlace

-- `readset` holds the descriptors of clients that the loop has still to look at; `waiting` the tasks
-- that `run_task` took and whose request is not yet handled, `clearing` those with only the write of
-- `in_thread` left.
pub record Loop : Type 0 where
  pub server : Server
  pub place : LoopPlace
  pub readset : List ℕ
  pub active_thread_num : ℕ
  pub waiting : List ℕ
  pub clearing : List ℕ

-- `in_thread` of a client, none where there is no client.
abbrev pub flag : Server → ℕ → Option Bool
flag s fd = s.client fd >>= (λ info. some info.in_thread)

-- The body of the loop over `client`: one for `select`, or one more in a thread.
unfoldable pub tally : Option Bool → ℕ → List ℕ × ℕ → List ℕ × ℕ
tally none fd (fds, count) = (fds, count)
tally (some true) fd (fds, count) = (fds, count + 1)
tally (some false) fd (fds, count) = (fd ∷ fds, count)

-- The loop from `fd` on, with `left` descriptors to look at.
unfoldable pub scan : Server → ℕ → ℕ → List ℕ × ℕ
unfolding tally
scan s zero fd = ([], 0)
scan s (suc left) fd = tally (flag s fd) fd (scan s left (suc fd))

abbrev pub selectable : Server → List ℕ × ℕ
selectable s = scan s 1022 2

-- `select` leaves those that are ready.
unfoldable pub still_set : (ℕ → Bool) → List ℕ → List ℕ
still_set isset [] = []
still_set isset (fd ∷ fds) = let rest = still_set isset fds in if isset fd then fd ∷ rest else rest

-- `csiebox_server_init` leaves no client.
unfoldable pub no_clients : Text → Loop
no_clients path = record {
  server = record { path = path; client = λ fd. none };
  place = top;
  readset = [];
  active_thread_num = 0;
  waiting = [];
  clearing = [];
}

-- What the steps leave. The set is not read again once the loop is back at its top.
abbrev pub look : Loop → Loop
look b = record b {
  place = selecting;
  readset = (selectable b.server).0;
  active_thread_num = (selectable b.server).1;
}

abbrev pub accept_client : Loop → Result → Loop
accept_client b r = record b { server = r.server; place = top; readset = [] }

-- `choose_thread` where a worker takes the task, and where none is free.
abbrev pub choose : Loop → ℕ → List ℕ → Loop
choose b fd rest = record b {
  server = mark b.server fd true;
  readset = rest;
  waiting = fd ∷ b.waiting;
}

abbrev pub refuse : World → Loop → ℕ → List ℕ → Text → Loop
refuse w b fd rest stream = record b {
  server = (answer_busy w (mark b.server fd true) fd stream).server;
  readset = rest;
}

-- The two steps of `server_thread_func`.
abbrev pub end_request : Loop → ℕ → List ℕ → Result → Loop
end_request b fd others r = record b {
  server = r.server;
  waiting = others;
  clearing = fd ∷ b.clearing;
}

abbrev pub clear : Loop → ℕ → List ℕ → Loop
clear b fd others = record b { server = mark b.server fd false; clearing = others }

pub data LoopStep (w : World) (b b' : Loop) : Type 0 where
  looks : b.place ≡ top → b' ≡ look b → LoopStep w b b'
  -- `select` or `accept` fails and the loop goes on.
  again : b.place ≡ selecting → b' ≡ record b { place = top; readset = [] } → LoopStep w b b'
  -- The listening socket is ready: the first request of the new connection, in the loop itself.
  accepted :
      (fd : ℕ) (stream : Text) (r : Result)
      → b.place ≡ selecting
      → handle_request w b.server fd stream ≡ some r
      → b' ≡ accept_client b r
      → LoopStep w b b'
  selected :
      (isset : ℕ → Bool)
      → b.place ≡ selecting
      → b' ≡ record b { place = serving; readset = still_set isset b.readset }
      → LoopStep w b b'
  chosen :
      (fd : ℕ) (rest : List ℕ)
      → b.place ≡ serving
      → b.readset ≡ fd ∷ rest
      → b' ≡ choose b fd rest
      → LoopStep w b b'
  refused :
      (fd : ℕ) (rest : List ℕ) (stream : Text)
      → b.place ≡ serving
      → b.readset ≡ fd ∷ rest
      → b' ≡ refuse w b fd rest stream
      → LoopStep w b b'
  served : b.place ≡ serving → b.readset ≡ [] → b' ≡ record b { place = top } → LoopStep w b b'
  handled :
      (fd : ℕ) (ys zs : List ℕ) (stream : Text) (r : Result)
      → b.waiting ≡ ys ++ (fd ∷ zs)
      → handle_request w b.server fd stream ≡ some r
      → b' ≡ end_request b fd (ys ++ zs) r
      → LoopStep w b b'
  cleared :
      (fd : ℕ) (ys zs : List ℕ)
      → b.clearing ≡ ys ++ (fd ∷ zs)
      → b' ≡ clear b fd (ys ++ zs)
      → LoopStep w b b'
