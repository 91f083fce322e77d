-- ===== src/Chat/Handlers.antt =====
-- The handlers of the select loop of MP4/server.c, one for each event of a descriptor.
use ntu_system_programming.Common.{
  ℕ, zero, suc, Bool, true, false, Option, none, some, List, [], ◌∷◌, ◌++◌, ltb, ◌==◌, ◌&&◌, not,
  if◌then◌else◌, ◌>>=◌, length,
}
use ntu_system_programming.Chat.{
  Text, User, Library, Server, Output, send, close, table_size, fd_setsize, update, same_text,
  process_json_format, strcpy, name_key, age_key, gender_key, introduction_key, filter_key, cmd_key,
  try_match_cmd, matched_cmd, send_message_cmd, receive_message_cmd, quit_cmd, other_side_quit,
}

unfoldable pub build_user : Library → Text → Option User
unfolding strcpy
build_user l text = do
  name ← l.get_string text name_key >>= strcpy 33
  age ← l.get_number text age_key
  gender ← l.get_string text gender_key >>= strcpy 7
  introduction ← l.get_string text introduction_key >>= strcpy 1025
  some (record { name = name; age = age; gender = gender; introduction = introduction })

-- The file written and compiled for `fd` is loaded as the filter of the stored text.
unfoldable pub put_in_user_data : Library → Server → ℕ → Text → Option Server
put_in_user_data l s fd text =
    l.get_string text filter_key
    >>= (λ f. some (record s { user_data = update (s.user_data) fd (some text) }))

-- What dlopen gives for the name of a client with this text: the library that is open under the name
-- already, whatever was compiled since, and that of the text where none is.
abbrev pub in_force : Option Text → Text → Text
in_force none text = text
in_force (some old) text = old

-- Both filters of a round: `filter1(temp) && filter2(self)`, where the slot has a text.
unfoldable pub judge : Library → Text → User → Option Text → Option Text → Option Bool
judge l filter1 self loaded none = some false
judge l filter1 self loaded (some text) = build_user l text >>= (λ temp.
    let second = l.accepts (in_force loaded text) self in
    l.accepts filter1 temp >>= (λ agrees. if agrees then second else some false))

-- One round of the search: does client `i` match the client `user_id` with the text `own`?
unfoldable pub candidate : Library → Server → ℕ → Text → User → ℕ → Option Bool
unfolding judge
candidate l s user_id own self i =
    let filter1 = in_force (s.loaded user_id) own in
    let result = judge l filter1 self (s.loaded i) (s.user_data i) in
    if i == user_id then some false else if s.available i then result else some false

-- The loop from `i` on, of `n` rounds; `none` inside is `match_id` left at -1.
unfoldable pub search_from : (ℕ → Option Bool) → ℕ → ℕ → Option (Option ℕ)
search_from test zero i = some none
search_from test (suc n) i =
    let rest = search_from test n (suc i) in test i >>= (λ b. if b then some (some i) else rest)

-- The rounds of a search before its hit, or all of them.
abbrev pub search_rounds : Option ℕ → ℕ
search_rounds none = table_size
search_rounds (some match_id) = match_id

-- A round without a hit leaves the filter of the other client open.
unfoldable pub leave_open : Server → ℕ → Option ℕ → Server
leave_open s user_id found =
    let opened : ℕ → Option Text = λ i. (elim (s.user_data i) [
      | none ↦ s.loaded i
      | some text ↦ some (in_force (s.loaded i) text)
    ]) in
    record s {
      loaded = λ i.
          if ltb i (search_rounds found) && (not (i == user_id) && s.available i)
          then opened i
          else s.loaded i;
    }

-- The end of a search: both clients leave the pool and each gets the text of the other.
unfoldable pub pair_up : Library → Server → ℕ → Text → Option ℕ → Option (Server × List Output)
unfolding process_json_format
pair_up l s user_id own none = some (s, [])
pair_up l s user_id own (some match_id) = do
  text ← s.user_data match_id
  match_res1 ← process_json_format (l.print_with matched_cmd own)
  match_res2 ← process_json_format (l.print_with matched_cmd text)
  some (
    record s {
      available = update (update (s.available) user_id false) match_id false;
      chatting_to = update (update (s.chatting_to) user_id (some match_id)) match_id (some user_id);
    },
    send match_id match_res1 ∷ send user_id match_res2 ∷ [],
  )

abbrev pub offer : Server → ℕ → Server
offer s fd = record s { available = update (s.available) fd true }

unfoldable pub try_match : Library → Server → ℕ → Text → Option (Server × List Output)
unfolding put_in_user_data build_user candidate search_from leave_open pair_up process_json_format
try_match l s fd buffer = do
  res ← process_json_format (l.print_command try_match_cmd)
  s1 ← put_in_user_data l s fd buffer
  self ← build_user l buffer
  match_id ← search_from (candidate l (offer s1 fd) fd buffer self) table_size 0
  (s2, out) ← pair_up l (leave_open (offer s1 fd) fd match_id) fd buffer match_id
  some (s2, send fd res ∷ out)

-- To a client that chats with nobody the second `send` has the descriptor -1, and no effect.
unfoldable pub send_message : Library → Server → ℕ → Text → Option (List Output)
unfolding process_json_format
send_message l s fd buffer =
    process_json_format (l.print_with receive_message_cmd buffer) >>= (λ message.
      some
        (send fd buffer ∷ (elim (s.chatting_to fd) [ none ↦ [] | some p ↦ send p message ∷ [] ])))

-- What a client that quits or hangs up does to its partner. The code reads `chatting_to[fd]` again
-- after it has cleared the entry of the partner; -1 there would be an index.
unfoldable pub leave_chat : Server → ℕ → Option (Server × List Output)
leave_chat s fd = elim (s.chatting_to fd) [
  | none ↦ some (s, [])
  | some p ↦
      let cleared = update (s.chatting_to) p none in
      cleared fd >>= (λ q. some (
        record s {
          user_data = update (s.user_data) p none;
          available = update (s.available) q false;
          chatting_to = update cleared fd none;
        },
        send p other_side_quit ∷ [],
      ))
]

abbrev pub forget : Server → ℕ → Server
forget s fd = record s {
  user_data = update (s.user_data) fd none;
  available = update (s.available) fd false;
}

unfoldable pub quit : Server → ℕ → Text → Option (Server × List Output)
unfolding leave_chat
quit s fd buffer = do (s', out) ← leave_chat (forget s fd) fd; some (s', send fd buffer ∷ out)

unfoldable pub disconnect : Server → ℕ → Option (Server × List Output)
unfolding leave_chat
disconnect s fd = do
  (s', out) ← leave_chat (elim (s.user_data fd) [ none ↦ s | some d ↦ forget s fd ]) fd
  some (record s' { readset = update (s'.readset) fd false }, out ++ close fd ∷ [])

pub data Event : Type 0 where
  connected : ℕ → Event
  hung_up : ℕ → Event
  received : ℕ → Text → Event

-- A text that fills the buffer of 4096 bytes is not terminated.
unfoldable pub receive : Library → Server → ℕ → Text → Option (Server × List Output)
unfolding try_match send_message quit same_text
receive l s fd buffer =
    let run : Text → Option (Server × List Output) = λ cmd.
      if same_text cmd try_match_cmd
      then try_match l s fd buffer
      else if same_text cmd send_message_cmd
      then send_message l s fd buffer >>= (λ out. some (s, out))
      else if same_text cmd quit_cmd
      then quit s fd buffer
      else some (s, []) in
    if ltb (length buffer) 4096 then l.get_string buffer cmd_key >>= run else none

unfoldable pub handle : Library → Server → Event → Option (Server × List Output)
unfolding receive disconnect
handle l s (connected fd) =
    if ltb fd fd_setsize then some (record s { readset = update (s.readset) fd true }, []) else none
handle l s (hung_up fd) = if ltb fd table_size then disconnect s fd else none
handle l s (received fd buffer) = if ltb fd table_size then receive l s fd buffer else none
