-- ===== src/Miner.antt =====
-- The search of a miner, MP3/client/miner.c: the candidates it appends to the mine, its share of
-- them, and its test of a hash. The array `set` is a function with the bound PATH_MAX written out;
-- MD5 itself is OpenSSL's.
pub mod Order
pub mod Search
pub mod Runs
pub mod Share
pub mod Zeros
mod Tests
use ntu_system_programming.Common.{
  ℕ, zero, suc, ◌+◌, ◌-◌, ◌*◌, ◌/◌, ◌%◌, Bool, true, false, Option, none, some, List, [], ◌∷◌, leb,
  ◌==◌, if◌then◌else◌, ◌>>=◌, get_or,
}

abbrev pub path_max : ℕ
path_max = 4096

pub record TestSet : Type 0 where
  pub set : ℕ → ℕ
  pub digit : ℕ

-- `s[k] = v`
abbrev pub write_at : (ℕ → ℕ) → ℕ → ℕ → ℕ → ℕ
write_at s k v j = if k == j then v else s j

unfoldable pub init : ℕ → TestSet
init lower = record { set = write_at (λ j. 0) 0 lower; digit = 1 }

-- The array, and the carry out of the first place. The first place runs from `low` below `high`.
unfoldable pub add : (ℕ → ℕ) → ℕ → ℕ → ℕ → (ℕ → ℕ) × ℕ
add s zero low high =
    if s 0 + 1 == high then (write_at s 0 low, 1) else (write_at s 0 ((s 0 + 1) % 256), 0)
add s (suc d) low high =
    let carried = add (write_at s (suc d) 0) d low high in
    if s (suc d) == 255 then carried else (write_at s (suc d) ((s (suc d) + 1) % 256), 0)

-- The last place is out of the array from PATH_MAX digits on.
unfoldable pub testset_next : TestSet → ℕ → ℕ → Option TestSet
unfolding add
testset_next s lower higher =
    let (set, carry) = add (s.set) (s.digit - 1) lower higher in
    if leb (s.digit) path_max then some (record { set = set; digit = s.digit + carry }) else none

-- The candidate after `n` that failed the test.
unfoldable pub after_tries : ℕ → ℕ → ℕ → Option TestSet
unfolding init testset_next
after_tries lower higher zero = some (init lower)
after_tries lower higher (suc n) = do s ← after_tries lower higher n; testset_next s lower higher

-- `lower` and `higher` of the miner `num_split` of `all_split`.
unfoldable pub split_at : ℕ → ℕ → ℕ
split_at all_split num_split = 256 * num_split / all_split

-- The test of the first `num` characters.
unfoldable pub all_zero : List ℕ → ℕ → Bool
all_zero test zero = true
all_zero test (suc num) = if get_or test num 0 == 48 then all_zero test num else false

-- Behind the 32 digits stands the NUL.
unfoldable pub verify : List ℕ → ℕ → Bool
unfolding all_zero
verify test num = let zeros = all_zero test num in if get_or test num 0 == 48 then false else zeros
