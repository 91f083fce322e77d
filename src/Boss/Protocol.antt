-- ===== src/Boss/Protocol.antt =====
-- The messages between boss and miners are read as they were written.
use ntu_system_programming.Common.{
  ℕ, ◌+◌, ◌*◌, ◌/◌, ◌%◌, ◌^◌, ◌≤◌, ◌<◌, ◌≡◌, refl, ap, arith, true, some, List, ◌++◌, leb, length,
  length-append, take-append, drop-append,
}
use mathlib.Core.Path.{subst}
use mathlib.Core.List.{append_assoc}
use ntu_system_programming.Boss.{
  Text, int_bytes, job_message, win_message, found_message, read_int, read_bytes, job, win,
  read_job, read_win, run_command, read_command, read_fields, read_found,
}

read_int-int_bytes :
    (w : ℕ) (rest : List ℕ) → w < 2 ^ 32 → read_int (int_bytes w ++ rest) ≡ some (w, rest)
unfolding read_int int_bytes
read_int-int_bytes w rest small =
    let whole : w % 256
          + 256 * (w / 256 % 256)
          + 65536 * (w / 65536 % 256)
          + 16777216 * (w / 16777216 % 256)
        ≡ w =
      omega arith in
    ap (λ x. some (x, rest)) whole

read_bytes-append :
    (size n : ℕ) (xs rest : List ℕ)
    → length xs ≡ n
    → n ≤ size
    → read_bytes size n (xs ++ rest) ≡ some (xs, rest)
unfolding read_bytes
read_bytes-append size n xs rest e fits =
    subst (λ k. read_bytes size k (xs ++ rest) ≡ some (xs, rest)) e
      (rw (fits', there, take-append xs rest, drop-append xs rest) refl)
  where
    fits' : leb (length xs) size ≡ true
    fits' = ground (arith, e)

    there : leb (length xs) (length (xs ++ rest)) ≡ true
    there = ground (arith, length-append xs rest)

-- The job that the boss writes for miner `i` is the job that the miner reads, and nothing more is
-- read.
pub job_roundtrip :
    (mine : Text) (target conn_num i : ℕ) (rest : List ℕ)
    → length mine ≤ 4096
    → target < 2 ^ 32
    → conn_num < 2 ^ 32
    → i < 2 ^ 32
    → read_command (job_message mine target conn_num i ++ rest)
      ≡ some (job target mine conn_num i, rest)
unfolding read_command run_command read_job job_message
job_roundtrip mine target conn_num i rest short t c s =
    rw
      (
        append_assoc (int_bytes 1)
            (int_bytes target
              ++ (int_bytes (length mine) ++ (mine ++ (int_bytes conn_num ++ int_bytes i))))
            rest,
        append_assoc (int_bytes target)
            (int_bytes (length mine) ++ (mine ++ (int_bytes conn_num ++ int_bytes i))) rest,
        append_assoc (int_bytes (length mine)) (mine ++ (int_bytes conn_num ++ int_bytes i)) rest,
        append_assoc (mine) (int_bytes conn_num ++ int_bytes i) rest,
        append_assoc (int_bytes conn_num) (int_bytes i) rest,
        read_int-int_bytes (1)
            (int_bytes target
              ++ (int_bytes (length mine)
                  ++ (mine ++ (int_bytes conn_num ++ (int_bytes i ++ (rest))))))
            (omega arith),
        read_int-int_bytes (target)
            (int_bytes (length mine) ++ (mine ++ (int_bytes conn_num ++ (int_bytes i ++ (rest)))))
            (t),
        read_int-int_bytes (length mine) (mine ++ (int_bytes conn_num ++ (int_bytes i ++ (rest))))
            (omega (arith, short)),
        read_bytes-append 4096 (length mine) mine (int_bytes conn_num ++ (int_bytes i ++ (rest)))
            (refl) (short),
        read_int-int_bytes (conn_num) (int_bytes i ++ (rest)) (c),
        read_int-int_bytes (i) (rest) (s),
      )
      refl

-- So is the broadcast of a treasure, for a name that fits the miner's buffer and a hash with its NUL.
pub win_roundtrip :
    (name : Text) (n : ℕ) (hash : Text) (rest : List ℕ)
    → length name ≤ 20
    → n < 2 ^ 32
    → length hash ≡ 33
    → read_command (win_message name n hash ++ rest) ≡ some (win name n hash, rest)
unfolding read_command run_command read_win win_message
win_roundtrip name n hash rest short number full =
    rw
      (
        append_assoc (int_bytes 2) (int_bytes (length name) ++ (name ++ (int_bytes n ++ hash)))
            rest,
        append_assoc (int_bytes (length name)) (name ++ (int_bytes n ++ hash)) rest,
        append_assoc (name) (int_bytes n ++ hash) rest,
        append_assoc (int_bytes n) (hash) rest,
        read_int-int_bytes (2)
            (int_bytes (length name) ++ (name ++ (int_bytes n ++ (hash ++ (rest))))) (omega arith),
        read_int-int_bytes (length name) (name ++ (int_bytes n ++ (hash ++ (rest))))
            (omega (arith, short)),
        read_bytes-append 20 (length name) name (int_bytes n ++ (hash ++ (rest))) (refl) (short),
        read_int-int_bytes (n) (hash ++ (rest)) (number),
        read_bytes-append 33 (33) hash (rest) (full) (omega arith),
      )
      refl

-- And the boss reads the treasure that a miner writes.
pub found_roundtrip :
    (hash name temp : Text) (n : ℕ) (rest : List ℕ)
    → length hash ≡ 33
    → length name ≤ 20
    → length temp ≤ 4096
    → n < 2 ^ 32
    → read_found (found_message hash name temp n ++ rest)
      ≡ some (
        some (record { treasure_hash = hash; miner_name = name; new_mine = temp; treasure_n = n }),
        rest,
      )
unfolding read_found read_fields found_message
found_roundtrip hash name temp n rest full short fits number =
    rw
      (
        append_assoc (int_bytes 1)
            (hash
              ++ (int_bytes (length name)
                  ++ (name ++ (int_bytes (length temp) ++ (temp ++ int_bytes n)))))
            rest,
        append_assoc (hash)
            (int_bytes (length name)
              ++ (name ++ (int_bytes (length temp) ++ (temp ++ int_bytes n))))
            rest,
        append_assoc (int_bytes (length name))
            (name ++ (int_bytes (length temp) ++ (temp ++ int_bytes n))) rest,
        append_assoc (name) (int_bytes (length temp) ++ (temp ++ int_bytes n)) rest,
        append_assoc (int_bytes (length temp)) (temp ++ int_bytes n) rest,
        append_assoc (temp) (int_bytes n) rest,
        read_int-int_bytes (1)
            (hash
              ++ (int_bytes (length name)
                  ++ (name ++ (int_bytes (length temp) ++ (temp ++ (int_bytes n ++ (rest)))))))
            (omega arith),
        read_bytes-append 33 (33) hash
            (int_bytes (length name)
              ++ (name ++ (int_bytes (length temp) ++ (temp ++ (int_bytes n ++ (rest))))))
            (full) (omega arith),
        read_int-int_bytes (length name)
            (name ++ (int_bytes (length temp) ++ (temp ++ (int_bytes n ++ (rest)))))
            (omega (arith, short)),
        read_bytes-append 20 (length name) name
            (int_bytes (length temp) ++ (temp ++ (int_bytes n ++ (rest)))) (refl) (short),
        read_int-int_bytes (length temp) (temp ++ (int_bytes n ++ (rest))) (omega (arith, fits)),
        read_bytes-append 4096 (length temp) temp (int_bytes n ++ (rest)) (refl) (fits),
        read_int-int_bytes (n) (rest) (number),
      )
      refl
