-- ===== src/Chat/Tests.antt =====
-- The chat server run with a small stand-in for JSON texts and filters, and its theorems there.
use ntu_system_programming.Common.{
  ℕ, ◌+◌, ◌≤◌, ◌≡◌, ◌≢◌, refl, false, Option, none, some, List, [], ◌∷◌, ◌++◌, arith, ◌==◌, ◌>>=◌,
  if◌then◌else◌, length,
}
use ntu_system_programming.Chat.{
  Text, User, Library, Server, Output, send, same_text, update, cmd_key, try_match_cmd,
  send_message_cmd, quit_cmd, matched_cmd, receive_message_cmd, process_json_format, drop_newlines,
  occurrences, strcpy,
}
use ntu_system_programming.Chat.Handlers.{
  received, receive, handle, send_message, build_user, put_in_user_data, judge, candidate,
  search_from, pair_up, try_match, leave_chat, quit, disconnect, leave_open, offer,
}
use ntu_system_programming.Chat.Invariant.{
  IsValid, Usable, offer-IsValid, paired, paired-IsValid, leave_open-IsValid,
}
use ntu_system_programming.Chat.Matching.{Matches, line_of, try_match_lem}
use ntu_system_programming.Chat.Leaving.{Frees, notice, quit_lem}
use ntu_system_programming.Chat.Serving.{
  Admissible, Serves, Reach, start, after, handle-IsValid, send_message_lem,
}
use ntu_system_programming.Chat.Format.{
  occurrences-append, WithoutNewlines, process_json_format_lem,
}

-- A text is a letter for its command, the age of its user and the age that the filter wants.
abbrev command : Text → Option Text
command [] = none
command (c ∷ t) =
    if c == 116
    then some try_match_cmd
    else if c == 115
    then some send_message_cmd
    else some quit_cmd

abbrev age_of : Text → ℕ
age_of (c ∷ a ∷ w ∷ []) = a
age_of _ = 0

abbrev wanted_of : Text → ℕ
wanted_of (c ∷ a ∷ w ∷ []) = w
wanted_of _ = 0

-- A print: the text between two newlines.
abbrev lines : Text → Text
lines t = 10 ∷ (t ++ 10 ∷ [])

lines-occurrences : (t : Text) → 2 ≤ occurrences 10 (lines t)
unfolding occurrences
lines-occurrences t = let sum = occurrences-append 10 t (10 ∷ []) in omega (arith, sum)

abbrev letters : Library
letters = record {
  get_string = λ t key. if same_text key cmd_key then command t else some [];
  get_number = λ t key. some (age_of t);
  print_command = lines;
  print_with = λ c t. lines (c ++ t);
  accepts = λ t u. some (wanted_of t == u.age);
  command_lines = lines-occurrences;
  object_lines = λ c t key item e. lines-occurrences (c ++ t);
}

program : Unit {0}
unfolding same_text process_json_format drop_newlines strcpy receive handle send_message build_user
    put_in_user_data judge candidate search_from leave_open pair_up try_match leave_chat quit
    disconnect Admissible
program = tt

abbrev empty : Server
empty = record {
  available = λ a. false;
  chatting_to = λ a. none;
  user_data = λ a. none;
  readset = λ a. false;
  loaded = λ a. none;
}

-- The client 5 is 20 and wants 30, 7 is 30 and wants 20.
abbrev text_5 : Text
text_5 = 116 ∷ 20 ∷ 30 ∷ []

abbrev text_7 : Text
text_7 = 116 ∷ 30 ∷ 20 ∷ []

abbrev message : Text
message = 115 ∷ 1 ∷ 2 ∷ []

abbrev joined_5 : Server
joined_5 = offer (record empty { user_data = update (empty.user_data) 5 (some text_5) }) 5

-- The filters that the search of a client leaves open.
abbrev searched : Server → ℕ → Option ℕ → Server
searched s fd found = record s { loaded = (leave_open s fd found).loaded }

abbrev waiting : Server
waiting = searched joined_5 5 none

abbrev joined_7 : Server
joined_7 = offer (record waiting { user_data = update (waiting.user_data) 7 (some text_7) }) 7

abbrev chatting : Server
chatting = paired (searched joined_7 7 (some 5)) 7 5

abbrev seven : ℕ
seven = 7

-- The third client wants the first one, who then asks again while it chats.
abbrev text_3 : Text
text_3 = 116 ∷ 30 ∷ 20 ∷ []

abbrev echo_line : Text
echo_line = try_match_cmd ++ 10 ∷ []

first_waits : handle letters empty (received 5 text_5) ≡ some (waiting, send 5 echo_line ∷ [])
unfolding program
first_waits = refl

abbrev matched_outputs : List Output
matched_outputs =
    send 7 echo_line
    ∷ send 5 (matched_cmd ++ text_7 ++ 10 ∷ [])
    ∷ send 7 (matched_cmd ++ text_5 ++ 10 ∷ [])
    ∷ []

second_matches : handle letters waiting (received 7 text_7) ≡ some (chatting, matched_outputs)
unfolding program
second_matches = refl

-- Of a client that chats a new `try_match` is served as any other, and its partner is left behind
-- with a client that chats with somebody else.
abbrev chats_after : Option (Server × List Output) → ℕ → Option (Option ℕ)
chats_after none a = none
chats_after (some r) a = some (r.0.chatting_to a)

left_behind :
    let after_3 = handle letters chatting (received 3 text_3) in
    let again = after_3 >>= (λ r. handle letters (r.0) (received 5 text_5)) in
    (chats_after again 5 ≡ some (some 3)) × (chats_after again 7 ≡ some (some 5))
unfolding program
left_behind = (refl, refl)

empty-IsValid : IsValid letters empty
empty-IsValid = record {
  symmetric = λ a b e. cc;
  idle = λ a e. cc;
  usable = λ a t e. cc;
  open_returns = λ a t e. cc;
}

text_5-Usable : Usable letters text_5
unfolding program
text_5-Usable = (λ e. cc, λ e. cc, λ u e. cc)

text_7-Usable : Usable letters text_7
unfolding program
text_7-Usable = (λ e. cc, λ e. cc, λ u e. cc)

searched-IsValid :
    (s : Server) (fd : ℕ) (found : Option ℕ)
    → IsValid letters s
    → IsValid letters (searched s fd found)
unfolding leave_open
searched-IsValid s fd found v = leave_open-IsValid letters s fd found v

waiting-IsValid : IsValid letters waiting
waiting-IsValid =
    searched-IsValid joined_5 5 none
      (offer-IsValid letters empty 5 text_5 empty-IsValid text_5-Usable refl)

chatting-IsValid : IsValid letters chatting
chatting-IsValid =
    paired-IsValid letters (searched joined_7 7 (some 5)) 7 5
      (searched-IsValid joined_7 7 (some 5)
        (offer-IsValid letters waiting 7 text_7 waiting-IsValid text_7-Usable refl))
      refl refl (λ e. omega arith)

try_match_lem_example :
    (self : User) × (build_user letters text_7 ≡ some self) × Matches letters waiting 7 text_7 self
try_match_lem_example = try_match_lem letters waiting 7 text_7 waiting-IsValid text_7-Usable refl

quit_lem_example :
    (s' : Server) × (quit chatting 7 message ≡ some (s', send 7 message ∷ notice chatting 7))
    × IsValid letters s'
    × Frees chatting 7 s'
quit_lem_example = quit_lem letters chatting 7 message chatting-IsValid

text_7-Admissible : Admissible letters waiting (received 7 text_7)
unfolding program
text_7-Admissible = (omega arith, omega arith, try_match_cmd, refl, λ e. (text_7-Usable, refl))

text_5-Admissible : Admissible letters empty (received 5 text_5)
unfolding program
text_5-Admissible = (omega arith, omega arith, try_match_cmd, refl, λ e. (text_5-Usable, refl))

handle-IsValid_example : Serves letters waiting (received 7 text_7)
handle-IsValid_example =
    handle-IsValid letters waiting (received 7 text_7) waiting-IsValid text_7-Admissible

chatting_Reach : Reach letters chatting
chatting_Reach =
    after (received 7 text_7) matched_outputs
      (after (received 5 text_5) (send 5 echo_line ∷ [])
        (start (λ a. refl) (λ a. refl) (λ a. refl) (λ a. refl)) text_5-Admissible first_waits)
      text_7-Admissible second_matches

message-command : letters.get_string message cmd_key ≡ some send_message_cmd
unfolding same_text
message-command = refl

send_message_lem_example :
    (chatting.chatting_to 5 ≡ some 7)
    × (seven ≢ 5)
    × (chatting.available 7 ≡ false)
    × (chatting.available 5 ≡ false)
    × (send_message letters chatting 7 message
        ≡ some (
            send 7 message
            ∷ send 5 (line_of (letters.print_with receive_message_cmd message))
            ∷ []))
send_message_lem_example =
    send_message_lem 7 5 message send_message_cmd chatting_Reach refl message-command

abbrev printed : Text
printed = 123 ∷ 10 ∷ 34 ∷ 10 ∷ 125 ∷ []

printed-lines : 2 ≤ occurrences 10 printed
unfolding occurrences
printed-lines = omega arith

process_json_format_lem_example :
    (line : Text) × (process_json_format printed ≡ some (line ++ 10 ∷ []))
    × WithoutNewlines printed line
    × ((c : ℕ) → c ≢ 10 → occurrences c line ≡ occurrences c printed)
    × (occurrences 10 line ≡ 0)
    × (length (line ++ 10 ∷ []) + 1 ≤ length printed)
process_json_format_lem_example = process_json_format_lem printed printed-lines
