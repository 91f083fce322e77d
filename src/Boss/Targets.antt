-- ===== src/Boss/Targets.antt =====
-- The boss's target: what it means, and what the miners are told when a treasure is found.
use mathlib.Core.List.{append-nil, append_assoc}
use ntu_system_programming.Common.{
  ℕ, zero, suc, ◌+◌, ◌≤◌, ◌<◌, ◌≡◌, ◌≢◌, refl, sym, ap, ◌∙◌, arith, true, false, List, [], ◌∷◌,
  ◌++◌, ltb, ◌==◌, if◌then◌else◌, length, Bool-cases, inl, inr,
}
use ntu_system_programming.Miner.{verify}
use ntu_system_programming.Miner.Zeros.{leading_zeros, next_zero, verify_iff}
use ntu_system_programming.Boss.{
  Text, hex_of, mmd5, treasure_from, current_treasure, job_message, win_message, Found, Boss,
  write_all, assign_jobs, up_to_nul, handle_found,
}

pub treasure_from_lem :
    (temp : Text) (n i : ℕ)
    → i ≤ leading_zeros temp
    → treasure_from temp n i
      ≡ (if ltb (leading_zeros temp) (i + n) then suc (leading_zeros temp) else 32)
unfolding treasure_from
treasure_from_lem temp zero i le = ground arith
treasure_from_lem temp (suc n) i le =
    ground (arith, treasure_from_lem temp n (suc i), next_zero temp i)

length-hex_of : (bs : List ℕ) → length (hex_of bs) ≡ length bs + length bs
unfolding hex_of
length-hex_of [] = refl
length-hex_of (b ∷ bs) = omega (arith, length-hex_of bs)

zeros-append_nul : (h : Text) → leading_zeros (h ++ 0 ∷ []) ≡ leading_zeros h
unfolding leading_zeros
zeros-append_nul [] = ground arith
zeros-append_nul (c ∷ cs) = ground (arith, zeros-append_nul cs)

-- A reply that a miner makes of what `verify` accepted: the hash, with its NUL, is that of the text.
pub record IsHonest (md5 : Text → List ℕ) (f : Found) : Type 0 where
  pub hash : f.treasure_hash ≡ mmd5 md5 (f.new_mine) ++ 0 ∷ []
  pub verified : verify (f.treasure_hash) (f.treasure_n) ≡ true
  pub text : up_to_nul (f.new_mine) ≡ f.new_mine

honest-treasure :
    (md5 : Text → List ℕ) (f : Found)
    → IsHonest md5 f
    → f.treasure_n < 32
    → current_treasure md5 (f.new_mine) ≡ suc (f.treasure_n)
unfolding current_treasure
honest-treasure md5 f honest small =
    let zeros : leading_zeros (mmd5 md5 (f.new_mine)) ≡ f.treasure_n =
      sym (zeros-append_nul (mmd5 md5 (f.new_mine)))
      ∙ ap leading_zeros (sym (honest.hash))
      ∙ (verify_iff (f.treasure_hash) (f.treasure_n)).0 (honest.verified) in
    ground (arith, treasure_from_lem (mmd5 md5 (f.new_mine)) 32 0, zeros)

-- What is written to the pipe of one miner.
unfoldable pub written : ℕ → List (ℕ × List ℕ) → List ℕ
written i [] = []
written i ((j, bytes) ∷ out) = let rest = written i out in if i == j then bytes ++ rest else rest

written-append :
    (i : ℕ) (xs ys : List (ℕ × List ℕ)) → written i (xs ++ ys) ≡ written i xs ++ written i ys
unfolding written
written-append i [] ys = refl
written-append i ((j, bytes) ∷ xs) ys = elim (Bool-cases (i == j)) [
  | inl same ↦
      rw (same, written-append i xs ys) (sym (append_assoc bytes (written i xs) (written i ys)))
  | inr other ↦ rw other (written-append i xs ys)
]

written-before : (message : ℕ → List ℕ) (n k i : ℕ) → i < k → written i (write_all message n k) ≡ []
unfolding written write_all
written-before message zero k i lt = refl
written-before message (suc n) k i lt = ground (arith, written-before message n (suc k) i)

pub written-write_all :
    (message : ℕ → List ℕ) (n k i : ℕ)
    → k ≤ i
    → i < k + n
    → written i (write_all message n k) ≡ message i
unfolding written write_all
written-write_all message zero k i le lt = absurd (omega arith)
written-write_all message (suc n) k i le lt = elim (Bool-cases (i == k)) [
  | inl here ↦
      let e : i ≡ k = ground arith in
      rw (here, written-before message n (suc k) i (omega (arith, e)), e) (append-nil (message k))
  | inr there ↦ rw there (written-write_all message n (suc k) i (ground arith) (ground arith))
]

-- A treasure for the current target raises it by one and replaces the mine, and each miner is told
-- of it and then given its share of the search for the next; any other reply changes nothing and is
-- answered to nobody.
pub handle_found_lem :
    (conn_num : ℕ) (b : Boss) (f : Found) (i : ℕ)
    → i < conn_num
    → let (b', out) = handle_found conn_num b f in
      (f.treasure_n ≡ b.current_target
        → (b' ≡ record { mine = up_to_nul (f.new_mine); current_target = suc (b.current_target) })
          × (written i out
              ≡ win_message (f.miner_name) (f.treasure_n) (f.treasure_hash)
                ++ job_message (up_to_nul (f.new_mine)) (suc (b.current_target)) conn_num i))
      × (f.treasure_n ≢ b.current_target → (b' ≡ b) × (written i out ≡ []))
unfolding handle_found assign_jobs
handle_found_lem conn_num b f i small =
    let mine = up_to_nul (f.new_mine) in
    let target = suc (b.current_target) in
    let wins =
      written-write_all (λ j. win_message (f.miner_name) (f.treasure_n) (f.treasure_hash)) conn_num
        0 i (omega arith) (omega (arith, small)) in
    let jobs =
      written-write_all (λ j. job_message mine target conn_num j) conn_num 0 i (omega arith)
        (omega (arith, small)) in
    (
      λ e.
          let hit : (f.treasure_n == b.current_target) ≡ true = ground (arith, e) in
          rw hit (
            refl,
            rw
                (
                  written-append i
                      (write_all (λ j. win_message (f.miner_name) (f.treasure_n) (f.treasure_hash))
                        conn_num 0)
                      (write_all (λ j. job_message mine target conn_num j) conn_num 0),
                  wins,
                  jobs,
                )
                refl,
          ),
      λ ne.
          let miss : (f.treasure_n == b.current_target) ≡ false = ground (arith, ne) in
          rw miss (refl, unfold written in refl),
    )

-- The target stays one more than the leading zeros of the mine's hash (that is, `current_treasure`
-- of the mine), whatever honest replies with less than 32 zeros come in.
pub handle_found-target :
    (md5 : Text → List ℕ) (conn_num : ℕ) (b : Boss) (f : Found)
    → b.current_target ≡ current_treasure md5 (b.mine)
    → IsHonest md5 f
    → f.treasure_n < 32
    → let b' = (handle_found conn_num b f).0 in
      (b'.current_target ≡ current_treasure md5 (b'.mine)) × (b.current_target ≤ b'.current_target)
unfolding handle_found
handle_found-target md5 conn_num b f good honest small =
    elim (Bool-cases (f.treasure_n == b.current_target)) [
      | inl hit ↦
          let e : f.treasure_n ≡ b.current_target = ground arith in
          rw (hit, honest.text, honest-treasure md5 f honest small, e) (refl, omega arith)
      | inr other ↦ rw other (good, omega arith)
    ]
