-- ===== src/HashTable/Chains.antt =====
-- One chain of hash.c: what the walks of `put_into_hash` and `del_from_hash` do to lookups in it.
use ntu_system_programming.Common.{
  ℕ, ◌+◌, length, ◌≤◌, ◌≡◌, refl, Bool, true, false, none, some, [], ◌∷◌, ◌++◌, arith,
  if◌then◌else◌, ◌>>=◌,
}
use ntu_system_programming.Common.Int.{ℤ, same_int, same_int_iff}
use ntu_system_programming.HashTable.{Node, Chain, append_node, find, unlink_after, unlink}

module _ {ℓ} {V : Type ℓ} where
  -- How many nodes of a chain have the code.
  unfoldable pub count : ℤ → Chain V → ℕ
  count q [] = 0
  count q (x ∷ c) = (if same_int x.hash_code q then 1 else 0) + count q c

  pub find-eq-none : (q : ℤ) (c : Chain V) → count q c ≡ 0 → find c q ≡ none
  unfolding count find
  find-eq-none q [] h = refl
  find-eq-none q (x ∷ c) h = ground (arith, find-eq-none q c)

  pub count-eq-zero : (q : ℤ) (c : Chain V) → find c q ≡ none → count q c ≡ 0
  unfolding count find
  count-eq-zero q [] h = refl
  count-eq-zero q (x ∷ c) h = ground (arith, count-eq-zero q c)

  module _ (v : V) (k : ℤ) where
    -- The walk refuses a code that is there.
    pub append_node_present :
        (room : Bool) (c : Chain V) (w : V) → find c k ≡ some w → append_node room c v k ≡ none
    unfolding append_node find
    append_node_present room [] w h = cc
    append_node_present room (x ∷ c) w h = ground (arith, append_node_present room c w)

    pub append_node_full : (c : Chain V) → append_node false c v k ≡ none
    unfolding append_node
    append_node_full [] = refl
    append_node_full (x ∷ c) = ground (arith, append_node_full c)

    -- A new code goes to the end.
    pub append_node_absent :
        (c : Chain V)
        → find c k ≡ none
        → append_node true c v k ≡ some (c ++ record { contain = v; hash_code = k } ∷ [])
    unfolding append_node find
    append_node_absent [] h = refl
    append_node_absent (x ∷ c) h = ground (arith, append_node_absent c)

    pub find-append_new :
        (q : ℤ) (c : Chain V)
        → find c k ≡ none
        → find (c ++ record { contain = v; hash_code = k } ∷ []) q
          ≡ (if same_int k q then some v else find c q)
    unfolding find
    find-append_new q [] h = refl
    find-append_new q (x ∷ c) h = ground (
      arith,
      find-append_new q c,
      same_int_iff k q,
      same_int_iff x.hash_code q,
      same_int_iff x.hash_code k,
    )

    pub count-append_new :
        (q : ℤ) (c : Chain V)
        → count q (c ++ record { contain = v; hash_code = k } ∷ [])
          ≡ count q c + (if same_int k q then 1 else 0)
    unfolding count
    count-append_new q [] = ground arith
    count-append_new q (x ∷ c) = ground (arith, count-append_new q c)

  -- The reference deletion: the first node with the code goes, the others stay in order.
  unfoldable pub erase : ℤ → Chain V → Chain V
  erase k [] = []
  erase k (x ∷ c) = if same_int x.hash_code k then c else x ∷ erase k c

  -- Past the head the walk of `del_from_hash` is the reference deletion.
  pub unlink_after-erase :
      (k : ℤ) (c : Chain V) → unlink_after c k ≡ (find c k >>= (λ w. some (w, erase k c)))
  unfolding unlink_after find erase
  unlink_after-erase k [] = refl
  unlink_after-erase k (x ∷ c) = rw (unlink_after-erase k c) (ground arith)

  pub find-erase :
      (k q : ℤ) (c : Chain V)
      → count q c ≤ 1
      → find (erase k c) q ≡ (if same_int k q then none else find c q)
  unfolding find erase count
  find-erase k q [] h = ground arith
  find-erase k q (x ∷ c) h = ground (
    arith,
    find-erase k q c,
    find-eq-none q c,
    same_int_iff x.hash_code q,
    same_int_iff x.hash_code k,
    same_int_iff k q,
  )

  pub count-erase-le : (k q : ℤ) (c : Chain V) → count q (erase k c) ≤ count q c
  unfolding count erase
  count-erase-le k q [] = omega arith
  count-erase-le k q (x ∷ c) = ground (arith, count-erase-le k q c)

  -- The deletion that the code makes: exact behind the head, but a match at the head drops the
  -- whole chain.
  unfoldable pub drop_at_head : ℤ → Chain V → Chain V
  unfolding erase
  drop_at_head k [] = []
  drop_at_head k (x ∷ c) = if same_int x.hash_code k then [] else x ∷ erase k c

  pub unlink-drop_at_head :
      (k : ℤ) (c : Chain V) → unlink c k ≡ (find c k >>= (λ w. some (w, drop_at_head k c)))
  unfolding unlink find drop_at_head
  unlink-drop_at_head k [] = refl
  unlink-drop_at_head k (x ∷ c) = rw (unlink_after-erase k c) (ground arith)

  pub count-drop_at_head-le : (k q : ℤ) (c : Chain V) → count q (drop_at_head k c) ≤ count q c
  unfolding count drop_at_head
  count-drop_at_head-le k q [] = omega arith
  count-drop_at_head-le k q (x ∷ c) = ground (arith, count-erase-le k q c)

  erase_absent : (k : ℤ) (c : Chain V) → find c k ≡ none → erase k c ≡ c
  unfolding find erase
  erase_absent k [] h = refl
  erase_absent k (x ∷ c) h = ground (arith, erase_absent k c)

  pub drop_at_head_absent : (k : ℤ) (c : Chain V) → find c k ≡ none → drop_at_head k c ≡ c
  unfolding find drop_at_head
  drop_at_head_absent k [] h = refl
  drop_at_head_absent k (x ∷ c) h = ground (arith, erase_absent k c)

  -- The chain is empty, or its first node is of another code or alone.
  abbrev pub IsBehindHead : ℤ → Chain V → Type 0
  IsBehindHead k [] = Unit
  IsBehindHead k (x ∷ c) = same_int x.hash_code k ≡ true → length c ≡ 0

  pub drop_at_head-erase : (k : ℤ) (c : Chain V) → IsBehindHead k c → drop_at_head k c ≡ erase k c
  unfolding drop_at_head erase
  drop_at_head-erase k [] h = refl
  drop_at_head-erase k (x ∷ []) h = ground arith
  drop_at_head-erase k (x ∷ y ∷ c) h = ground arith

  pub find-drop_at_head_self :
      (k q : ℤ) (x : Node V) (c : Chain V)
      → x.hash_code ≡ k
      → find (drop_at_head k (x ∷ c)) q ≡ none
  unfolding drop_at_head find
  find-drop_at_head_self k q x c e = rw ((same_int_iff x.hash_code k).1 e)

  find-erase-some :
      (k q : ℤ) (c : Chain V) (w : V)
      → count q c ≤ 1
      → find (erase k c) q ≡ some w
      → (find c q ≡ some w) × (same_int k q ≡ false)
  find-erase-some k q c w once e = ground (arith, find-erase k q c)

  -- What is found after the deletion was there before, under another code.
  pub find-drop_at_head :
      (k q : ℤ) (c : Chain V) (w : V)
      → count q c ≤ 1
      → find (drop_at_head k c) q ≡ some w
      → (find c q ≡ some w) × (same_int k q ≡ false)
  unfolding drop_at_head find count
  find-drop_at_head k q [] w once e = cc
  find-drop_at_head k q (x ∷ c) w once e = ground (
    arith,
    find-erase-some k q c w,
    same_int_iff x.hash_code q,
    same_int_iff x.hash_code k,
    same_int_iff k q,
  )
