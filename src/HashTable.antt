-- ===== src/HashTable.antt =====
-- The chained hash table, MP5/src/hash.c (MP2/src/hash.c is its earlier copy, without iterators).
-- A `void *contain` is a value of any type; `node` is NULL (`none`) or the array of chains; a chain
-- is the list of its nodes. The value `none` of an operation is undefined behaviour: a NULL `node`,
-- or `% 0`. Where the code allocates, the argument `room` says whether `malloc` succeeds.
pub mod Chains
pub mod Lookup
pub mod Insert
pub mod Delete
pub mod Iterator
pub mod Paths
pub mod Tests
use ntu_system_programming.Common.{
  ℕ, zero, suc, ◌+◌, ◌-◌, ◌≡◌, Bool, true, false, not, ◌&&◌, Option, none, some, List, [], ◌∷◌,
  ◌++◌, map, arith, ltb, ◌==◌, if◌then◌else◌, ◌>>=◌, length, get_elem?, get_or, set, replicate,
  drop,
}
use ntu_system_programming.Common.Int.{ℤ, pos, negsuc, same_int, rem_int}

pub record Node {ℓ} (V : Type ℓ) : Type ℓ where
  pub contain : V
  pub hash_code : ℤ

abbrev pub Chain {ℓ} : Type ℓ → Type ℓ
Chain V = List (Node V)

pub record Hash {ℓ} (V : Type ℓ) : Type ℓ where
  pub node : Option (List (Chain V))
  pub n : ℕ

-- `pos = hash_code % n; if (pos < 0) pos = n + pos`
unfoldable pub slot : ℤ → ℕ → ℕ
slot code n = elim (rem_int code n) [ pos p ↦ p | negsuc k ↦ n - suc k ]

module _ {ℓ} {V : Type ℓ} where
  -- Returns 0 and leaves `h` alone for a size that is not positive or a table in use.
  unfoldable pub init_hash : Bool → Hash V → ℤ → Bool × Hash V
  init_hash room h (negsuc k) = (false, h)
  init_hash room h (pos n) = elim h.node [
    | some bs ↦ (false, h)
    | none ↦
        if n == 0
        then (false, h)
        else if room
        then (true, record { node = some (replicate n []); n = n })
        else (false, h)
  ]

  -- The index of the bucket of a code and the chain there.
  unfoldable pub locate : Hash V → ℤ → Option (ℕ × Chain V)
  unfolding slot
  locate h code = do
    bs ← h.node
    c ← (if h.n == 0 then none else get_elem? bs (slot code h.n))
    some (slot code h.n, c)

  -- `h->node[i] = c`
  abbrev pub store : Hash V → ℕ → Chain V → Hash V
  store h i c = record h { node = elim h.node [ none ↦ none | some bs ↦ some (set bs i c) ] }

  -- The walk of `put_into_hash`: a new last node, unless a node on the way has the code.
  unfoldable pub append_node : Bool → Chain V → V → ℤ → Option (Chain V)
  append_node room [] v code =
      if room then some (record { contain = v; hash_code = code } ∷ []) else none
  append_node room (x ∷ xs) v code =
      let rest = append_node room xs v code in
      if same_int x.hash_code code then none else rest >>= (λ c. some (x ∷ c))

  unfoldable pub put_into_hash : Bool → Hash V → V → ℤ → Option (Bool × Hash V)
  unfolding locate append_node
  put_into_hash room h v code = do
    (i, c) ← locate h code
    some (elim (append_node room c v code) [ none ↦ (false, h) | some c' ↦ (true, store h i c') ])

  -- The first node of a chain with the code.
  unfoldable pub find : Chain V → ℤ → Option V
  find [] code = none
  find (x ∷ xs) code = if same_int x.hash_code code then some x.contain else find xs code

  -- `some v` is `*contain = v` with result 1; `none` inside is `*contain = NULL` with result 0.
  unfoldable pub get_from_hash : Hash V → ℤ → Option (Option V)
  unfolding locate find
  get_from_hash h code = do (i, c) ← locate h code; some (find c code)

  -- The walk of `del_from_hash` once `pre` is set: `pre->next = n->next`.
  unfoldable pub unlink_after : Chain V → ℤ → Option (V × Chain V)
  unlink_after [] code = none
  unlink_after (x ∷ xs) code =
      let rest = unlink_after xs code in
      if same_int x.hash_code code
      then some (x.contain, xs)
      else rest >>= (λ (v, c). some (v, x ∷ c))

  -- At the first node `pre` is NULL, and the code sets the whole bucket to NULL.
  unfoldable pub unlink : Chain V → ℤ → Option (V × Chain V)
  unfolding unlink_after
  unlink [] code = none
  unlink (x ∷ xs) code =
      if same_int x.hash_code code
      then some (x.contain, [])
      else unlink_after xs code >>= (λ (v, c). some (v, x ∷ c))

  -- The removed value, if a node had the code, and the table.
  unfoldable pub del_from_hash : Hash V → ℤ → Option (Option V × Hash V)
  unfolding locate unlink
  del_from_hash h code = do
    (i, c) ← locate h code
    some (elim (unlink c code) [ none ↦ (none, h) | some (v, c') ↦ (some v, store h i c') ])

  -- `strcmp` of the values stands for `same`. The walk never sets `pre`, so a match anywhere in
  -- a chain sets the bucket to NULL.
  unfoldable pub holds_path : (V → Bool) → Chain V → Bool
  holds_path same [] = false
  holds_path same (x ∷ xs) = if same x.contain then true else holds_path same xs

  -- The outer loop: the position of the first bucket with a match, and the buckets after it.
  unfoldable pub clear_path : (V → Bool) → ℕ → List (Chain V) → Option (ℕ × List (Chain V))
  unfolding holds_path
  clear_path same i [] = none
  clear_path same i (c ∷ cs) =
      let rest = clear_path same (i + 1) cs in
      if holds_path same c then some (i, [] ∷ cs) else rest >>= (λ (p, r). some (p, c ∷ r))

  -- The third parameter of the source is not used by it. Without a match the result is 0.
  unfoldable pub get_from_hash_by_path : Hash V → (V → Bool) → ℕ × Hash V
  unfolding clear_path
  get_from_hash_by_path h same = elim h.node [
    | none ↦ (0, h)
    | some bs ↦ elim (clear_path same 0 bs) [
      | none ↦ (0, h)
      | some (p, bs') ↦ (p, record h { node = some bs' })
    ]
  ]

  -- Both frees give up the nodes and the array; `destroy_hash` frees the values as well, in the
  -- order of the list.
  unfoldable pub all_values : List (Chain V) → List V
  all_values [] = []
  all_values (c ∷ cs) = map (λ x. x.contain) c ++ all_values cs

  unfoldable pub clean_hash : Hash V → Hash V
  clean_hash h = record { node = none; n = 0 }

  unfoldable pub destroy_hash : Hash V → List V × Hash V
  unfolding all_values
  destroy_hash h =
      (elim h.node [ none ↦ [] | some bs ↦ all_values bs ], record { node = none; n = 0 })
