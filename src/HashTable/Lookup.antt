-- ===== src/HashTable/Lookup.antt =====
-- The table of hash.c as a map from codes to values: what each operation does to every lookup.
use ntu_system_programming.Common.{
  ℕ, ◌≤◌, ◌<◌, ◌≡◌, ◌≢◌, refl, sym, Bool, true, false, Option, none, some, List, [], arith,
  if◌then◌else◌, ◌==◌, length, get_or, set, replicate, get_or-set, length-set, length-replicate,
  get_or-replicate, get_elem?-get_or,
}
use ntu_system_programming.Common.Int.{ℤ, pos, negsuc, same_int, same_int_iff}
use ntu_system_programming.HashTable.{
  Chain, Hash, slot, init_hash, locate, store, find, get_from_hash,
}
use ntu_system_programming.HashTable.Chains.{count}

pub slot-lt : (code : ℤ) (n : ℕ) → 0 < n → slot code n < n
unfolding slot
slot-lt (pos m) n h = grind arith
slot-lt (negsuc m) n h = ground arith

abbrev pub buckets {ℓ} : {V : Type ℓ} → Hash V → List (Chain V)
buckets h = elim h.node [ none ↦ [] | some bs ↦ bs ]

abbrev pub chain_of {ℓ} : {V : Type ℓ} → Hash V → ℤ → Chain V
chain_of h q = get_or (buckets h) (slot q h.n) []

-- The map that a table stands for.
unfoldable pub view {ℓ} : {V : Type ℓ} → Hash V → ℤ → Option V
view h q = find (chain_of h q) q

-- A table between two calls: allocated, of the size it says, a code at most once and only in its
-- own bucket.
pub record IsValid {ℓ} {V : Type ℓ} (h : Hash V) : Type ℓ where
  pub allocated : h.node ≡ some (buckets h)
  pub width : length (buckets h) ≡ h.n
  pub positive : 0 < h.n
  pub once : (q : ℤ) (i : ℕ) → count q (get_or (buckets h) i []) ≤ 1
  pub placed : (q : ℤ) (i : ℕ) → slot q h.n ≢ i → count q (get_or (buckets h) i []) ≡ 0

pub positive_test : (n : ℕ) → 0 < n → n == 0 ≡ false
positive_test n p = ground arith

pub same_slot : (n : ℕ) (k q : ℤ) → same_int k q ≡ true → (slot k n == slot q n) ≡ true
same_slot n k q e = let e' = (same_int_iff k q).0 e in rw e' (ground arith)

pub far_apart : (n : ℕ) (k q : ℤ) → (slot k n == slot q n) ≡ false → same_int k q ≡ false
far_apart n k q e = ground (arith, same_slot n k q)

pub nested_if {ℓ} :
    {A : Type ℓ} (same near : Bool) (x : A) {y z : A}
    → (same ≡ true → near ≡ true)
    → (near ≡ true → y ≡ z)
    → (if near then (if same then x else y) else z) ≡ (if same then x else z)
nested_if true true x h g = refl
nested_if false true x h g = g refl
nested_if true false x h g = cc (h refl)
nested_if false false x h g = refl

pub same_if {ℓ} :
    {A : Type ℓ} (near : Bool) {y z : A} → (near ≡ true → y ≡ z) → z ≡ (if near then y else z)
same_if true g = sym (g refl)
same_if false g = refl

pub same_chain {ℓ} :
    {V : Type ℓ} (h : Hash V) (k q : ℤ)
    → (slot k h.n == slot q h.n) ≡ true
    → find (chain_of h k) q ≡ view h q
unfolding view
same_chain h k q e = let e' : slot k h.n ≡ slot q h.n = ground arith in rw e'

module _ {ℓ} {V : Type ℓ} where
  pub locate_lem : {h : Hash V} (k : ℤ) → IsValid h → locate h k ≡ some (slot k h.n, chain_of h k)
  unfolding locate
  locate_lem {h} k valid =
      ground (arith, get_elem?-get_or (buckets h) (slot k h.n) [], slot-lt k h.n, valid.allocated)

  pub get-view : {h : Hash V} (k : ℤ) → IsValid h → get_from_hash h k ≡ some (view h k)
  unfolding get_from_hash view
  get-view k valid = rw (locate_lem k valid)

  -- What a write of one bucket does.
  module _ {h : Hash V} (k : ℤ) (valid : IsValid h) (c : Chain V) where
    pub buckets-store : buckets (store h (slot k h.n) c) ≡ set (buckets h) (slot k h.n) c
    buckets-store = ground (arith, valid.allocated)

    pub chain-store :
        (i : ℕ)
        → get_or (buckets (store h (slot k h.n) c)) i []
          ≡ (if slot k h.n == i then c else get_or (buckets h) i [])
    chain-store i = rw buckets-store (
        get_or-set (buckets h) (slot k h.n) i c []
          (let w = valid.width in let l = slot-lt k h.n valid.positive in omega arith))

    pub store-IsValid :
        ((q : ℤ) → count q c ≤ 1)
        → ((q : ℤ) → slot q h.n ≢ slot k h.n → count q c ≡ 0)
        → IsValid (store h (slot k h.n) c)
    store-IsValid once placed = record {
      allocated = ground (arith, valid.allocated);
      width = rw (buckets-store, length-set) valid.width;
      positive = valid.positive;
      once = λ q i. rw (chain-store i) (ground (arith, once q, valid.once q i));
      placed = λ q i ne. rw (chain-store i) (ground (arith, placed q, valid.placed q i));
    }

    pub view-store :
        (q : ℤ)
        → view (store h (slot k h.n) c) q
          ≡ (if slot k h.n == slot q h.n then find c q else view h q)
    unfolding view
    view-store q = rw (chain-store (slot q h.n)) (ground arith)

  pub init-IsValid :
      (n : ℕ) → 0 < n → IsValid {V = V} (record { node = some (replicate n []); n = n })
  unfolding count
  init-IsValid n h = record {
    allocated = refl;
    width = length-replicate {ℓ} {A = Chain V} n [];
    positive = h;
    once = λ q i. rw get_or-replicate (omega arith);
    placed = λ q i ne. rw get_or-replicate;
  }

  init_hash_new :
      (h : Hash V) (n : ℕ)
      → h.node ≡ none
      → 0 < n
      → init_hash true h (pos n) ≡ (true, record { node = some (replicate n []); n = n })
  unfolding init_hash
  init_hash_new h n e p = rw (e, positive_test n p, init_hash)

  -- A table that is not in use is made usable and empty for a positive size, given memory.
  pub init_hash-IsValid :
      (h : Hash V) (n : ℕ)
      → h.node ≡ none
      → 0 < n
      → let (done, h') = init_hash true h (pos n) in
        (done ≡ true) × IsValid h' × ((q : ℤ) → view h' q ≡ none)
  unfolding view find
  init_hash-IsValid h n e p =
      rw (init_hash_new h n e p) (refl, init-IsValid n p, λ q. rw get_or-replicate)
