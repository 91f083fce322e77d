-- ===== src/Boss/Tests.antt =====
-- The boss and its messages at concrete texts, with a stand-in for the digest.
use ntu_system_programming.Common.{
  ℕ, suc, ◌≤◌, ◌≡◌, refl, sym, arith, some, List, [], ◌∷◌, ◌++◌, ◌==◌, if◌then◌else◌, length,
  replicate,
}
use ntu_system_programming.Miner.{verify, all_zero}
use ntu_system_programming.Boss.{
  Text, hex_of, mmd5, treasure_from, current_treasure, job_message, read_command, job, Found, Boss,
  up_to_nul, handle_found,
}
use ntu_system_programming.Boss.Console.{PipePair}
use ntu_system_programming.Miner.Zeros.{leading_zeros}
use ntu_system_programming.Boss.Protocol.{job_roundtrip}
use ntu_system_programming.Boss.Targets.{IsHonest, handle_found-target}

-- A text of one byte has one leading zero, any other two.
abbrev digest : Text → List ℕ
digest t = (if length t == 1 then 10 else 0) ∷ 26 ∷ replicate 14 204

abbrev first : Boss
first = record { mine = 65 ∷ []; current_target = 2 }

abbrev bob : Text
bob = 98 ∷ 111 ∷ 98 ∷ []

abbrev reply : Found
reply = record {
  treasure_hash = 48 ∷ 48 ∷ 49 ∷ 97 ∷ replicate 28 99 ++ 0 ∷ [];
  miner_name = bob;
  new_mine = 65 ∷ 66 ∷ [];
  treasure_n = 2;
}

first_target : current_treasure digest (first.mine) ≡ 2
unfolding current_treasure treasure_from mmd5 hex_of
first_target = refl

few_zeros : suc (leading_zeros (mmd5 digest (first.mine))) ≤ 32
unfolding leading_zeros mmd5 hex_of
few_zeros = omega arith

job_roundtrip_example :
    read_command (job_message (65 ∷ []) 2 4 3 ++ 7 ∷ []) ≡ some (job 2 (65 ∷ []) 4 3, 7 ∷ [])
job_roundtrip_example =
    job_roundtrip (65 ∷ []) 2 4 3 (7 ∷ []) (omega arith) (omega arith) (omega arith) (omega arith)

reply-IsHonest : IsHonest digest reply
unfolding mmd5 hex_of verify all_zero up_to_nul
reply-IsHonest = record { hash = refl; verified = refl; text = refl }

handle_found-target_example :
    let b' = (handle_found 4 first reply).0 in
    (b'.current_target ≡ current_treasure digest (b'.mine))
    × (first.current_target ≤ b'.current_target)
handle_found-target_example =
    handle_found-target digest 4 first reply (sym first_target) reply-IsHonest (omega arith)

abbrev two_miners : List PipePair
two_miners =
    record { input_pipe = 97 ∷ []; output_pipe = 98 ∷ [] }
    ∷ record { input_pipe = 99 ∷ []; output_pipe = 100 ∷ [] }
    ∷ []
