-- ===== src/BoxServer/Loop/Tests.antt =====
-- Runs of csiebox_server_run, and its theorems after one of them.
use ntu_system_programming.Common.{◌+◌, ◌≤◌, ◌≡◌, refl, arith, true, false, some, [], ◌∷◌}
use ntu_system_programming.BoxServer.{
  Text, Result, ClientInfo, mkdir, close, set_client, recv_message, complete_message, same_text,
}
use ntu_system_programming.BoxServer.Accounts.{
  response, get_user_homedir, login, get_account_info, find_password, password_in, strtok,
  skip_commas, until_comma, logout,
}
use ntu_system_programming.BoxServer.Requests.{handle_request, switch, on_login}
use ntu_system_programming.BoxServer.Session.{entered}
use ntu_system_programming.BoxServer.Tests.{bytes_world, empty, credentials}
use ntu_system_programming.BoxServer.Loop.{
  Loop, top, serving, served, flag, scan, still_set, no_clients, LoopStep, looks, accepted,
  selected, chosen, handled, look, accept_client, choose, end_request,
}
use ntu_system_programming.BoxServer.Loop.Tasks.{times}
use ntu_system_programming.BoxServer.Loop.Runs.{Calm, Reach, here, next, one_task, next_client}

abbrev login_bytes : Text
login_bytes = 144 ∷ 0 ∷ 0 ∷ 0 ∷ 2 ∷ 65 ∷ 66 ∷ []

-- A client logs in on the descriptor 4.
abbrev logged_in : Result
logged_in = record {
  server = set_client empty 4 (some (entered 4 credentials));
  stream = [];
  actions = mkdir (get_user_homedir empty (entered 4 credentials)) ∷ response 0 0 4 ∷ [];
}

abbrev home : Text
home = 47 ∷ []

abbrev with_client : Loop
with_client = accept_client (look (no_clients home)) logged_in

abbrev all_ready : Loop → Loop
all_ready b = record b { place = serving; readset = still_set (λ fd. true) b.readset }

abbrev turned : Loop
turned = all_ready (look with_client)

login_run : handle_request bytes_world empty 4 login_bytes ≡ some logged_in
unfolding handle_request recv_message switch on_login complete_message login get_account_info
    find_password password_in strtok skip_commas same_text until_comma
login_run = refl

turned_set : turned.readset ≡ 4 ∷ []
unfolding scan still_set
turned_set = refl

with_client-Reach : Reach bytes_world home with_client
unfolding no_clients Calm times
with_client-Reach =
    next (next here (looks refl refl) tt) (accepted 4 login_bytes logged_in refl login_run refl)
      (omega arith)

turned-Reach : Reach bytes_world home turned
unfolding Calm
turned-Reach =
    next (next with_client-Reach (looks refl refl) tt) (selected (λ fd. true) refl refl) tt

one_task_example :
    (times 4 turned.waiting + times 4 turned.clearing + times 4 turned.readset ≤ 1)
    × (times 4 turned.waiting ≡ 1 → flag turned.server 4 ≡ some true)
one_task_example = one_task 4 turned-Reach

next_client_example :
    ((info : ClientInfo) × (turned.server.client 4 ≡ some info) × (info.in_thread ≡ false))
    × (times 4 turned.waiting ≡ 0)
    × (times 4 turned.clearing ≡ 0)
next_client_example = next_client 4 [] turned-Reach turned_set

-- The steps without the condition that they are calm.
data Steps (b : Loop) : Loop → Type 0 where
  rest : Steps b b
  more : {c d : Loop} → Steps b c → LoopStep bytes_world c d → Steps b d

-- The client hangs up; before its worker clears the flag, a new client gets the descriptor and a
-- thread of its own.
abbrev gone : Result
gone = record {
  server = (logout (choose turned 4 []).server 4).0;
  stream = [];
  actions = close ∷ [];
}

abbrev hung_up : Loop
hung_up = end_request (choose turned 4 []) 4 [] gone

abbrev again_in : Result
again_in = record {
  server = set_client gone.server 4 (some (entered 4 credentials));
  stream = [];
  actions = mkdir (get_user_homedir empty (entered 4 credentials)) ∷ response 0 0 4 ∷ [];
}

abbrev served_all : Loop
served_all = record hung_up { place = top }

abbrev offered : Loop
offered = all_ready (look (accept_client (look served_all) again_in))

abbrev reused : Loop
reused = choose offered 4 []

hang_up : handle_request bytes_world (choose turned 4 []).server 4 [] ≡ some gone
unfolding handle_request recv_message logout
hang_up = refl

login_again : handle_request bytes_world gone.server 4 login_bytes ≡ some again_in
unfolding handle_request recv_message switch on_login complete_message login get_account_info
    find_password password_in strtok skip_commas same_text until_comma logout
login_again = refl

offered_set : offered.readset ≡ 4 ∷ []
unfolding scan still_set logout
offered_set = refl

-- So the connection has two tasks at a time.
reused_twice : Steps turned reused × (times 4 reused.waiting + times 4 reused.clearing ≡ 2)
unfolding times no_clients
reused_twice = (
  more
      (more
        (more
          (more
            (more
              (more
                (more (more rest (chosen 4 [] refl turned_set refl))
                  (handled 4 [] [] [] gone refl hang_up refl))
                (served refl refl refl))
              (looks refl refl))
            (accepted 4 login_bytes again_in refl login_again refl))
          (looks refl refl))
        (selected (λ fd. true) refl refl))
      (chosen 4 [] refl offered_set refl),
  refl,
)
