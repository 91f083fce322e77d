-- ===== src/HashTable/Paths.antt =====
-- `get_from_hash_by_path` of MP5/src/hash.c: which bucket it answers with and what it drops.
use ntu_system_programming.Common.{
  ℕ, zero, suc, ◌+◌, ◌<◌, ◌≡◌, refl, Bool, true, false, none, some, List, [], ◌∷◌, arith, ◌⊎◌, inl,
  inr, length, get_or, set, Bool-cases, Option-cases,
}
use ntu_system_programming.HashTable.{Chain, Hash, holds_path, clear_path, get_from_hash_by_path}
use ntu_system_programming.HashTable.Lookup.{IsValid, buckets}

module _ {ℓ} {V : Type ℓ} (same : V → Bool) where
  clear_path-none :
      (i : ℕ) (bs : List (Chain V))
      → clear_path same i bs ≡ none
      → (j : ℕ) → holds_path same (get_or bs j []) ≡ false
  unfolding clear_path
  clear_path-none i [] e j = unfold holds_path in refl
  clear_path-none i (c ∷ bs) e zero = ground arith
  clear_path-none i (c ∷ bs) e (suc j) = clear_path-none (i + 1) bs (ground arith) j

  first_miss :
      (c : Chain V) (bs : List (Chain V)) (k : ℕ)
      → holds_path same c ≡ false
      → ((j : ℕ) → j < k → holds_path same (get_or bs j []) ≡ false)
      → (j : ℕ) → j < suc k
      → holds_path same (get_or (c ∷ bs) j []) ≡ false
  first_miss c bs k e miss zero lt = e
  first_miss c bs k e miss (suc j) lt = miss j (omega arith)

  clear_path-some :
      (i p : ℕ) (bs bs' : List (Chain V))
      → clear_path same i bs ≡ some (p, bs')
      → (k : ℕ) × (p ≡ i + k)
        × (k < length bs)
        × (holds_path same (get_or bs k []) ≡ true)
        × ((j : ℕ) → j < k → holds_path same (get_or bs j []) ≡ false)
        × (bs' ≡ set bs k [])
  unfolding clear_path
  clear_path-some i p [] bs' e = cc
  clear_path-some i p (c ∷ bs) bs' e = elim (Bool-cases (holds_path same c)) [
    | inl yes' ↦ (0, ground arith, omega arith, yes', λ j lt. absurd (omega arith), ground arith)
    | inr no' ↦ elim (Option-cases (clear_path same (i + 1) bs)) [
      | inl none' ↦ absurd (ground arith)
      | inr ((q, r), some') ↦
          let (k, at, lt, hit, miss, rest) = clear_path-some (i + 1) q bs r some' in
          (suc k, ground arith, omega arith, hit, first_miss c bs k no' miss, ground arith)
    ]
  ]

  by_path_miss :
      (h : Hash V) (bs : List (Chain V))
      → h.node ≡ some bs
      → clear_path same 0 bs ≡ none
      → get_from_hash_by_path h same ≡ (0, h)
  unfolding get_from_hash_by_path
  by_path_miss h bs e f = ground arith

  by_path_hit :
      (h : Hash V) (bs : List (Chain V)) (p : ℕ) (bs' : List (Chain V))
      → h.node ≡ some bs
      → clear_path same 0 bs ≡ some (p, bs')
      → get_from_hash_by_path h same ≡ (p, record h { node = some bs' })
  unfolding get_from_hash_by_path
  by_path_hit h bs p bs' e f = ground arith

  -- The answer is the position of the first bucket with a match, and that whole bucket goes, also
  -- where one node of several matches; without a match the answer is 0 and nothing changes.
  pub by_path_lem :
      {h : Hash V}
      → IsValid h
      → let (p, h') = get_from_hash_by_path h same in
        ((p ≡ 0) × (h' ≡ h) × ((j : ℕ) → holds_path same (get_or (buckets h) j []) ≡ false))
        ⊎ ((p < h.n)
            × (holds_path same (get_or (buckets h) p []) ≡ true)
            × ((j : ℕ) → j < p → holds_path same (get_or (buckets h) j []) ≡ false)
            × (h' ≡ record h { node = some (set (buckets h) p []) }))
  by_path_lem {h} valid = elim (Option-cases (clear_path same 0 (buckets h))) [
    | inl miss ↦
        inl (rw (by_path_miss h _ valid.allocated miss) (refl, refl, clear_path-none 0 _ miss))
    | inr ((p, bs'), hit) ↦
        let (k, at, lt, found, before, cleared) = clear_path-some 0 p (buckets h) bs' hit in
        let at' : k ≡ p = omega arith in
        inr (
          rw (by_path_hit h _ p bs' valid.allocated hit) (
            (let w = valid.width in omega arith),
            rw at' at found,
            rw at' at before,
            rw (cleared, at'),
          ))
  ]
