-- ===== src/Boss.antt =====
-- The boss of the mining game, MP3/server/boss.c, and the messages on the pipes between it and the
-- miners, MP3/client/miner.c. An `int` is its 32-bit word, four bytes on a pipe, the low one first. A
-- `read` that finds fewer bytes than it asks for is `none`, as is a field longer than its buffer. The
-- digest function MD5 of OpenSSL is the parameter `md5`.
pub mod Protocol
pub mod Targets
pub mod Console
mod Tests
use ntu_system_programming.Common.{
  ℕ, zero, suc, ◌+◌, ◌-◌, ◌*◌, ◌/◌, ◌%◌, Bool, true, false, Option, none, some, List, [], ◌∷◌, ◌++◌,
  leb, ltb, ◌==◌, if◌then◌else◌, ◌>>=◌, get_or, length, take, drop,
}
pub use ntu_system_programming.Common.Strings.{Text}

-- `%.2x`, a character and a byte at a time.
abbrev pub hex_digit : ℕ → ℕ
hex_digit v = if ltb v 10 then 48 + v else 87 + v

unfoldable pub hex_of : List ℕ → Text
hex_of [] = []
hex_of (b ∷ bs) = hex_digit (b / 16) ∷ hex_digit (b % 16) ∷ hex_of bs

-- The hexadecimal digest; the digest is 16 bytes.
unfoldable pub mmd5 : (Text → List ℕ) → Text → Text
mmd5 md5 str = hex_of (md5 str)

-- The loop of `current_treasure` from `i` on, of `n` rounds.
unfoldable pub treasure_from : Text → ℕ → ℕ → ℕ
treasure_from temp zero i = 32
treasure_from temp (suc n) i =
    let rest = treasure_from temp n (suc i) in if get_or temp i 0 == 48 then rest else suc i

unfoldable pub current_treasure : (Text → List ℕ) → Text → ℕ
current_treasure md5 s = treasure_from (mmd5 md5 s) 32 0

-- `write` of an `int`.
unfoldable pub int_bytes : ℕ → List ℕ
int_bytes w = w % 256 ∷ w / 256 % 256 ∷ w / 65536 % 256 ∷ w / 16777216 % 256 ∷ []

-- What `assign_jobs` writes to miner `i`.
unfoldable pub job_message : Text → ℕ → ℕ → ℕ → List ℕ
job_message mine target conn_num i =
    int_bytes 1
    ++ (int_bytes target
        ++ (int_bytes (length mine) ++ (mine ++ (int_bytes conn_num ++ int_bytes i))))

-- The broadcast of a found treasure.
unfoldable pub win_message : Text → ℕ → Text → List ℕ
win_message miner_name treasure_n treasure_hash =
    int_bytes 2
    ++ (int_bytes (length miner_name) ++ (miner_name ++ (int_bytes treasure_n ++ treasure_hash)))

-- What a miner writes when it has found a treasure.
unfoldable pub found_message : Text → Text → Text → ℕ → List ℕ
found_message hash name temp n_treasure =
    int_bytes 1
    ++ (hash
        ++ (int_bytes (length name)
            ++ (name ++ (int_bytes (length temp) ++ (temp ++ int_bytes n_treasure)))))

unfoldable pub read_int : List ℕ → Option (ℕ × List ℕ)
read_int (a ∷ b ∷ c ∷ d ∷ rest) = some (a + 256 * b + 65536 * c + 16777216 * d, rest)
read_int _ = none

-- `read` of `n` bytes into a buffer of `size`.
unfoldable pub read_bytes : ℕ → ℕ → List ℕ → Option (Text × List ℕ)
read_bytes size n pipe =
    if leb n size
    then if leb n (length pipe) then some (take n pipe, drop n pipe) else none
    else none

pub data Command : Type 0 where
  job : ℕ → Text → ℕ → ℕ → Command
  win : Text → ℕ → Text → Command
  rest_now : Command
  status : Command
  unknown : Command

-- The bodies of the commands 1 and 2 of the miner's loop.
unfoldable pub read_job : List ℕ → Option (Command × List ℕ)
read_job pipe = do
  (n_treasure, p1) ← read_int pipe
  (len, p2) ← read_int p1
  (mine, p3) ← read_bytes 4096 len p2
  (all_split, p4) ← read_int p3
  (num_split, p5) ← read_int p4
  some (job n_treasure mine all_split num_split, p5)

unfoldable pub read_win : List ℕ → Option (Command × List ℕ)
read_win pipe = do
  (damn_guy_len, p1) ← read_int pipe
  (damn_guy, p2) ← read_bytes 20 damn_guy_len p1
  (find_n, p3) ← read_int p2
  (n_treasure_hash, p4) ← read_bytes 33 33 p3
  some (win damn_guy find_n n_treasure_hash, p4)

unfoldable pub run_command : ℕ → List ℕ → Option (Command × List ℕ)
run_command cmd pipe =
    if cmd == 1
    then read_job pipe
    else if cmd == 2
    then read_win pipe
    else if cmd == 3
    then some (rest_now, pipe)
    else if cmd == 4
    then some (status, pipe)
    else some (unknown, pipe)

unfoldable pub read_command : List ℕ → Option (Command × List ℕ)
read_command pipe = do (cmd, p) ← read_int pipe; run_command cmd p

pub record Found : Type 0 where
  pub treasure_hash : Text
  pub miner_name : Text
  pub new_mine : Text
  pub treasure_n : ℕ

-- The reply of a miner that is announced by the word 1.
unfoldable pub read_fields : List ℕ → Option (Found × List ℕ)
read_fields pipe = do
  (hash, p1) ← read_bytes 33 33 pipe
  (name_len, p2) ← read_int p1
  (name, p3) ← read_bytes 20 name_len p2
  (str_len, p4) ← read_int p3
  (mine, p5) ← read_bytes 4096 str_len p4
  (n, p6) ← read_int p5
  some (record { treasure_hash = hash; miner_name = name; new_mine = mine; treasure_n = n }, p6)

-- `none` inside is another word than 1.
unfoldable pub read_found : List ℕ → Option (Option Found × List ℕ)
read_found pipe = do
  (rpy, p) ← read_int pipe
  if rpy == 1 then read_fields p >>= (λ (f, p'). some (some f, p')) else some (none, p)

pub record Boss : Type 0 where
  pub mine : Text
  pub current_target : ℕ

-- A loop over the pipes of the miners `i`, `i + 1`, ..., `n` of them, each with its bytes.
unfoldable pub write_all : (ℕ → List ℕ) → ℕ → ℕ → List (ℕ × List ℕ)
write_all message zero i = []
write_all message (suc n) i = (i, message i) ∷ write_all message n (suc i)

unfoldable pub assign_jobs : ℕ → Text → ℕ → List (ℕ × List ℕ)
assign_jobs conn_num mine target = write_all (λ i. job_message mine target conn_num i) conn_num 0

-- `strdup` of a buffer: up to the NUL.
unfoldable pub up_to_nul : Text → Text
up_to_nul [] = []
up_to_nul (b ∷ bs) = let rest = up_to_nul bs in if b == 0 then [] else b ∷ rest

-- What the boss does with a reply.
unfoldable pub handle_found : ℕ → Boss → Found → Boss × List (ℕ × List ℕ)
handle_found conn_num b f =
    let mine = up_to_nul (f.new_mine) in
    if f.treasure_n == b.current_target
    then (
      record { mine = mine; current_target = suc b.current_target },
      write_all (λ j. win_message (f.miner_name) (f.treasure_n) (f.treasure_hash)) conn_num 0
          ++ assign_jobs conn_num mine (suc b.current_target),
    )
    else (b, [])

-- The commands `status` and `quit` write one word to each miner.
unfoldable pub send_word : ℕ → ℕ → List (ℕ × List ℕ)
send_word word conn_num = write_all (λ j. int_bytes word) conn_num 0

-- The first jobs, from the mine that was read.
unfoldable pub start : (Text → List ℕ) → ℕ → Text → Boss × List (ℕ × List ℕ)
start md5 conn_num mine =
    let target = current_treasure md5 mine in
    (record { mine = mine; current_target = target }, assign_jobs conn_num mine target)
