-- ===== src/Chat.antt =====
-- The matching chat server, MP4/server.c. The arrays indexed by file descriptor are functions with
-- the bound 1000 checked at the entry of a handler; `chatting_to` is -1 as `none`, `user_data` NULL
-- as `none`. A text is its bytes up to the NUL. The value `none` of a handler is undefined
-- behaviour: an index out of range, a NULL item of a JSON text, a string longer than its buffer, a
-- filter that does not return.
-- The JSON library (MP4/cJSON.c), the compiler and the dynamic loader are the parameter `Library`.
pub mod Handlers
pub mod Format
pub mod Search
pub mod Matching
pub mod Invariant
pub mod Leaving
pub mod Serving
mod Tests
use ntu_system_programming.Common.{
  ℕ, zero, suc, ◌+◌, ◌≤◌, ◌≡◌, Bool, true, false, Option, none, some, List, [], ◌∷◌, ◌++◌, ltb,
  ◌==◌, ◌&&◌, if◌then◌else◌, ◌>>=◌, length,
}
unfoldable pub use ntu_system_programming.Common.Strings.{Text, same_text}

pub record User : Type 0 where
  pub name : Text
  pub age : ℕ
  pub gender : Text
  pub introduction : Text

-- The copy loop of `process_json_format`, and the line that appends the newline to the copy in place:
-- `sprintf(ret, "%s\n", ret)` is taken as it works where the bytes are copied one by one from the front.
-- It writes the text, the newline and a NUL into as many bytes as the text had, which may be too few.
unfoldable pub drop_newlines : Text → Text
drop_newlines [] = []
drop_newlines (b ∷ bs) = let rest = drop_newlines bs in if b == 10 then rest else b ∷ rest

unfoldable pub process_json_format : Text → Option Text
unfolding drop_newlines
process_json_format str =
    let ret : Text = drop_newlines str ++ 10 ∷ [] in
    if ltb (length ret) (length str) then some ret else none

-- How often the byte `c` stands in a text.
unfoldable pub occurrences : ℕ → Text → ℕ
occurrences c [] = 0
occurrences c (b ∷ bs) = let rest = occurrences c bs in if b == c then suc rest else rest

-- What the server calls and does not implement. `print_command t` is the print of an object that
-- holds the command alone, `print_with t d` that of the object of `d` with its command replaced; the
-- print of an object with an item has a newline behind its brace and one before the closing brace.
-- `accepts d u` runs the filter function of `d`, as compiled and loaded, on a user, in the process of
-- the server; `none` is a filter that is not loaded or does not return.
pub record Library : Type 0 where
  pub get_string : Text → Text → Option Text
  pub get_number : Text → Text → Option ℕ
  pub print_command : Text → Text
  pub print_with : Text → Text → Text
  pub accepts : Text → User → Option Bool
  pub command_lines : (c : Text) → 2 ≤ occurrences 10 (print_command c)
  pub object_lines :
      (c d key item : Text) → get_string d key ≡ some item → 2 ≤ occurrences 10 (print_with c d)

-- `loaded` has the texts whose filters dlopen left open under the name of a descriptor.
pub record Server : Type 0 where
  pub available : ℕ → Bool
  pub chatting_to : ℕ → Option ℕ
  pub user_data : ℕ → Option Text
  pub readset : ℕ → Bool
  pub loaded : ℕ → Option Text

pub data Output : Type 0 where
  send : ℕ → Text → Output
  close : ℕ → Output

abbrev pub table_size : ℕ
table_size = 1000

-- FD_SETSIZE, the descriptors that an `fd_set` has room for.
abbrev pub fd_setsize : ℕ
fd_setsize = 1024

abbrev pub update : {A : Type 0} → (ℕ → A) → ℕ → A → ℕ → A
update f k v q = if k == q then v else f q

-- `strcpy` into an array of `size` bytes, the NUL included.
unfoldable pub strcpy : ℕ → Text → Option Text
strcpy size t = if ltb (length t) size then some t else none

-- The names of the items of an object, and the commands, as bytes.
abbrev pub name_key : Text
name_key = 110 ∷ 97 ∷ 109 ∷ 101 ∷ []

abbrev pub age_key : Text
age_key = 97 ∷ 103 ∷ 101 ∷ []

abbrev pub gender_key : Text
gender_key = 103 ∷ 101 ∷ 110 ∷ 100 ∷ 101 ∷ 114 ∷ []

abbrev pub introduction_key : Text
introduction_key = 105 ∷ 110 ∷ 116 ∷ 114 ∷ 111 ∷ 100 ∷ 117 ∷ 99 ∷ 116 ∷ 105 ∷ 111 ∷ 110 ∷ []

abbrev pub filter_key : Text
filter_key =
    102 ∷ 105 ∷ 108 ∷ 116 ∷ 101 ∷ 114 ∷ 95 ∷ 102 ∷ 117 ∷ 110 ∷ 99 ∷ 116 ∷ 105 ∷ 111 ∷ 110 ∷ []

abbrev pub cmd_key : Text
cmd_key = 99 ∷ 109 ∷ 100 ∷ []

abbrev pub try_match_cmd : Text
try_match_cmd = 116 ∷ 114 ∷ 121 ∷ 95 ∷ 109 ∷ 97 ∷ 116 ∷ 99 ∷ 104 ∷ []

abbrev pub matched_cmd : Text
matched_cmd = 109 ∷ 97 ∷ 116 ∷ 99 ∷ 104 ∷ 101 ∷ 100 ∷ []

abbrev pub send_message_cmd : Text
send_message_cmd = 115 ∷ 101 ∷ 110 ∷ 100 ∷ 95 ∷ 109 ∷ 101 ∷ 115 ∷ 115 ∷ 97 ∷ 103 ∷ 101 ∷ []

abbrev pub receive_message_cmd : Text
receive_message_cmd =
    114 ∷ 101 ∷ 99 ∷ 101 ∷ 105 ∷ 118 ∷ 101 ∷ 95 ∷ 109 ∷ 101 ∷ 115 ∷ 115 ∷ 97 ∷ 103 ∷ 101 ∷ []

abbrev pub quit_cmd : Text
quit_cmd = 113 ∷ 117 ∷ 105 ∷ 116 ∷ []

-- The text `{"cmd": "other_side_quit"}` and a newline.
abbrev pub other_side_quit : Text
other_side_quit =
    123 ∷ 34 ∷ 99 ∷ 109 ∷ 100 ∷ 34 ∷ 58 ∷ 32 ∷ 34 ∷ 111 ∷ 116 ∷ 104 ∷ 101 ∷ 114 ∷ 95 ∷ 115 ∷ 105
    ∷ 100 ∷ 101 ∷ 95 ∷ 113 ∷ 117 ∷ 105 ∷ 116 ∷ 34 ∷ 125 ∷ 10 ∷ []
