-- ===== src/Boss/Console.antt =====
-- The configuration file and the commands typed to the boss, MP3/server/boss.c. A file is the list of
-- its words, as `fscanf` of `%s` gives them; at its end `fscanf` leaves the word it has. The array of
-- pipes has 8 places, and `none` is a ninth miner.
use mathlib.Core.List.{append-nil, append_assoc}
use ntu_system_programming.Common.{
  ℕ, suc, ◌+◌, ◌-◌, ◌≤◌, ◌≡◌, refl, ap, arith, Bool, true, false, Option, none, some, List, [], ◌∷◌,
  ◌++◌, length-append, ltb, ◌==◌, if◌then◌else◌, ◌>>=◌, length, Bool-cases, inl, inr,
}
use ntu_system_programming.Boss.{Text, Boss, mmd5, current_treasure, send_word, int_bytes}
use ntu_system_programming.Boss.Targets.{treasure_from_lem, written, written-write_all}
use ntu_system_programming.Miner.Zeros.{leading_zeros}

pub record PipePair : Type 0 where
  pub input_pipe : Text
  pub output_pipe : Text

pub record ServerConfig : Type 0 where
  pub mine_file : Option Text
  pub pipes : List PipePair

-- The words `MINE:` and `MINER:`.
pub data Word : Type 0 where
  mine_word : Word
  miner_word : Word
  other : Text → Word

abbrev pub text_of : Word → Text
text_of mine_word = 77 ∷ 73 ∷ 78 ∷ 69 ∷ 58 ∷ []
text_of miner_word = 77 ∷ 73 ∷ 78 ∷ 69 ∷ 82 ∷ 58 ∷ []
text_of (other t) = t

abbrev pub add_pipes : ServerConfig → Text → Text → Option ServerConfig
add_pipes c tmp tmp2 =
    if ltb (length c.pipes) 8
    then some (record c { pipes = c.pipes ++ record { input_pipe = tmp; output_pipe = tmp2 } ∷ [] })
    else none

unfoldable pub read_config : ServerConfig → List Word → Option ServerConfig
read_config c [] = some c
read_config c (mine_word ∷ []) = some (record c { mine_file = some (text_of mine_word) })
read_config c (mine_word ∷ t ∷ ws) = read_config (record c { mine_file = some (text_of t) }) ws
read_config c (miner_word ∷ []) = add_pipes c (text_of miner_word) []
read_config c (miner_word ∷ t ∷ []) = add_pipes c (text_of t) []
read_config c (miner_word ∷ t ∷ u ∷ ws) =
    add_pipes c (text_of t) (text_of u) >>= (λ c'. read_config c' ws)
read_config c (other t ∷ ws) = read_config c ws

unfoldable pub load_config_file : List Word → Option ServerConfig
load_config_file words = read_config (record { mine_file = none; pipes = [] }) words

-- The words of a file that names these pipes, a line each.
unfoldable pub miner_lines : List PipePair → List Word
miner_lines [] = []
miner_lines (p ∷ ps) = miner_word ∷ other (p.input_pipe) ∷ other (p.output_pipe) ∷ miner_lines ps

read_pipes :
    (mine : Option Text) (before ps : List PipePair)
    → length before + length ps ≤ 8
    → read_config (record { mine_file = mine; pipes = before }) (miner_lines ps)
      ≡ some (record { mine_file = mine; pipes = before ++ ps })
unfolding read_config miner_lines
read_pipes mine before [] room = rw (append-nil before) refl
read_pipes mine before (p ∷ ps) room =
    let free : ltb (length before) 8 ≡ true = ground arith in
    rw (free, read_pipes mine (before ++ p ∷ []) ps (omega (arith, length-append before (p ∷ []))))
      (ap (λ l. some (record { mine_file = mine; pipes = l })) (append_assoc before (p ∷ []) ps))

-- A file that names a mine and then the pipes of at most 8 miners is read as just these, in order.
pub load_config_file_lem :
    (mine : Text) (ps : List PipePair)
    → length ps ≤ 8
    → load_config_file (mine_word ∷ other mine ∷ miner_lines ps)
      ≡ some (record { mine_file = some mine; pipes = ps })
unfolding load_config_file read_config
load_config_file_lem mine ps room = read_pipes (some mine) [] ps (omega (arith, room))

-- What the boss prints for `status`: the number of zeros, the hash and the number of bytes.
pub data Report : Type 0 where
  best_zero : Report
  best : ℕ → Text → ℕ → Report

unfoldable pub status_report : (Text → List ℕ) → Boss → Report
status_report md5 b =
    if b.current_target == 1
    then best_zero
    else best (b.current_target - 1) (mmd5 md5 (b.mine)) (length b.mine)

-- The commands, with what they print, write to the miners and write to a file, and whether they end
-- the program.
pub data Input : Type 0 where
  status_input : Input
  dump_input : Text → Input
  quit_input : Input

pub record Effects : Type 0 where
  pub printed : List Report
  pub to_miners : List (ℕ × List ℕ)
  pub dumped : List (Text × Text)
  pub exits : Bool

unfoldable pub handle_input : (Text → List ℕ) → ℕ → Boss → Input → Effects
handle_input md5 conn_num b status_input = record {
  printed = status_report md5 b ∷ [];
  to_miners = send_word 4 conn_num;
  dumped = [];
  exits = false;
}
handle_input md5 conn_num b (dump_input dest) = record {
  printed = [];
  to_miners = [];
  dumped = (dest, b.mine) ∷ [];
  exits = false;
}
handle_input md5 conn_num b quit_input = record {
  printed = [];
  to_miners = send_word 3 conn_num;
  dumped = [];
  exits = true;
}

-- Where the target is that of the mine, whose hash has less than 32 leading zeros, `status` reports
-- this number of zeros, the hash and the length of the mine, or that there is no treasure yet, and asks
-- each miner for its own status.
pub status_lem :
    (md5 : Text → List ℕ) (conn_num : ℕ) (b : Boss) (i : ℕ)
    → b.current_target ≡ current_treasure md5 (b.mine)
    → suc (leading_zeros (mmd5 md5 (b.mine))) ≤ 32
    → suc i ≤ conn_num
    → let e = handle_input md5 conn_num b status_input in
      let zeros = leading_zeros (mmd5 md5 (b.mine)) in
      (e.printed
        ≡ (if zeros == 0 then best_zero else best zeros (mmd5 md5 (b.mine)) (length b.mine)) ∷ [])
      × (written i (e.to_miners) ≡ int_bytes 4)
unfolding handle_input status_report current_treasure send_word
status_lem md5 conn_num b i good small there =
    let zeros = leading_zeros (mmd5 md5 (b.mine)) in
    let target : b.current_target ≡ suc zeros =
      ground (arith, treasure_from_lem (mmd5 md5 (b.mine)) 32 0) in
    let less : suc zeros - 1 ≡ zeros = omega arith in
    (
      elim (Bool-cases (zeros == 0)) [
        | inl nothing ↦
            let one : (suc zeros == 1) ≡ true = ground arith in rw (target, nothing, one) refl
        | inr something ↦
            let more : (suc zeros == 1) ≡ false = ground arith in
            rw (target, something, more, less) refl
      ],
      written-write_all (λ j. int_bytes 4) conn_num 0 i (omega arith) (omega arith),
    )
