-- ===== src/HashTable/Iterator.antt =====
-- The iterator of MP5/src/hash.c, and that a loop over it visits every value once, in order.
-- `it->hash` is NULL (`none`) or the table, which does not change meanwhile; `it->node` is the rest
-- of a chain from that node on, [] for NULL. The value `none` is a read through a NULL node.
use ntu_system_programming.Common.{
  ℕ, zero, suc, ◌+◌, ◌≤◌, ◌<◌, ◌≡◌, refl, sym, ◌∙◌, false, Option, none, some, List, [], ◌∷◌, ◌++◌,
  map, ap, arith, if◌then◌else◌, ◌==◌, ltb, ◌>>=◌, ◌⊎◌, inl, inr, length, drop, ==_iff, lt→ltb,
}
use ntu_system_programming.HashTable.{Node, Chain, Hash, all_values}
use ntu_system_programming.HashTable.Lookup.{buckets}

pub record Iterator {ℓ} (V : Type ℓ) : Type ℓ where
  pub hash : Option (Hash V)
  pub node : Chain V
  pub n : ℕ

ne_test : (i n : ℕ) → i < n → i == n ≡ false
ne_test i n h = ground arith

module _ {ℓ} {V : Type ℓ} where
  -- `for (; n < h->n; ++n) if (h->node[n]) break;` over the buckets from `n` on.
  unfoldable pub next_bucket : ℕ → List (Chain V) → ℕ × Chain V
  next_bucket i [] = (i, [])
  next_bucket i ([] ∷ cs) = next_bucket (i + 1) cs
  next_bucket i ((x ∷ c) ∷ cs) = (i, x ∷ c)

  -- `node` keeps what it was if the table has no node.
  unfoldable pub init_hash_iterator : Iterator V → Option (Hash V) → Iterator V
  unfolding next_bucket
  init_hash_iterator it none = it
  init_hash_iterator it (some h) =
      let (i, c) = next_bucket 0 (buckets h) in
      record { hash = some h; n = i; node = if ltb i h.n then c else it.node }

  -- The step, once `it->hash` is known not to be NULL.
  unfoldable pub step_iterator : Iterator V → Hash V → Chain V → Option (Iterator V)
  unfolding next_bucket
  step_iterator it h [] = none
  step_iterator it h (x ∷ y ∷ c) = some (record it { node = y ∷ c })
  step_iterator it h (x ∷ []) =
      let (i, c) = next_bucket (it.n + 1) (drop (it.n + 1) (buckets h)) in
      some (record it { n = i; node = if ltb i h.n then c else [] })

  unfoldable pub add_hash_iterator : Iterator V → Option (Iterator V)
  unfolding step_iterator
  add_hash_iterator it = elim it.hash [
    | none ↦ some it
    | some h ↦ if it.n == h.n then some it else step_iterator it h it.node
  ]

  -- A loop that reads the value and steps until `it.n` is the size.
  unfoldable pub collect : ℕ → ℕ → Iterator V → Option (List V)
  collect size zero it = none
  collect size (suc fuel) it = if it.n == size then some [] else elim it.node [
    | [] ↦ none
    | x ∷ c ↦
        add_hash_iterator it >>= (λ it'. collect size fuel it' >>= (λ vs. some (x.contain ∷ vs)))
  ]

  drop_next :
      (i : ℕ) (b : Chain V) (bs : List (Chain V)) → drop (suc i + 1) (b ∷ bs) ≡ drop (i + 1) bs
  drop_next i b bs =
      let e : suc i + 1 ≡ suc (i + 1) = omega arith in ap (λ (k : ℕ). drop k (b ∷ bs)) e

  drop_past : (bs : List (Chain V)) (i : ℕ) → length bs ≤ i → drop i bs ≡ []
  drop_past [] zero h = refl
  drop_past [] (suc i) h = refl
  drop_past (b ∷ bs) zero h = absurd (omega arith)
  drop_past (b ∷ bs) (suc i) h = drop_past bs i (omega arith)

  drop-cons :
      (bs : List (Chain V)) (i : ℕ) (c : Chain V) (cs : List (Chain V))
      → drop i bs ≡ c ∷ cs
      → (drop (i + 1) bs ≡ cs) × (i < length bs)
  drop-cons [] zero c cs e = cc
  drop-cons [] (suc i) c cs e = cc
  drop-cons (b ∷ bs) zero c cs e = (cc, omega arith)
  drop-cons (b ∷ bs) (suc i) c cs e =
      let (rest, le) = drop-cons bs i c cs e in (drop_next i b bs ∙ rest, omega arith)

  drop-nil : (bs : List (Chain V)) (i : ℕ) → drop i bs ≡ [] → length bs ≤ i
  drop-nil [] i e = omega arith
  drop-nil (b ∷ bs) zero e = cc
  drop-nil (b ∷ bs) (suc i) e = omega (arith, drop-nil bs i e)

  abbrev values : Chain V → List V
  values c = map (λ x. x.contain) c

  -- What the scan for the next bucket passes over is empty.
  next_bucket_lem :
      (bs : List (Chain V)) (i : ℕ) (cs : List (Chain V))
      → drop i bs ≡ cs
      → i ≤ length bs
      → let (j, c) = next_bucket i cs in
        (all_values cs ≡ values c ++ all_values (drop (j + 1) bs))
        × (j ≤ length bs)
        × (((c ≡ []) × (j ≡ length bs))
            ⊎ ((x : Node V) × (d : Chain V) × (c ≡ x ∷ d) × (j < length bs)))
  unfolding next_bucket all_values
  next_bucket_lem bs i [] e le =
      let past = drop-nil bs i e in
      (rw (drop_past bs (i + 1) (omega arith)), le, inl (refl, omega arith))
  next_bucket_lem bs i ([] ∷ cs) e le =
      let (rest, lt) = drop-cons bs i [] cs e in next_bucket_lem bs (i + 1) cs rest (omega arith)
  next_bucket_lem bs i ((x ∷ c) ∷ cs) e le =
      let (rest, lt) = drop-cons bs i (x ∷ c) cs e in (rw rest, le, inr (x, c, refl, lt))

  -- The loop at a place where a scan ended.
  module _ (h : Hash V) (w : length (buckets h) ≡ h.n) where
    abbrev at_scan : ℕ → Chain V → Chain V → Iterator V
    at_scan j c z = record { hash = some h; node = if ltb j h.n then c else z; n = j }

    abbrev left : ℕ → Chain V → List V
    left j c = values c ++ all_values (drop (j + 1) (buckets h))

    at_scan_node :
        (j : ℕ) (x : Node V) (d z c : Chain V)
        → c ≡ x ∷ d
        → j < h.n
        → at_scan j c z ≡ record { hash = some h; node = x ∷ d; n = j }
    at_scan_node j x d z c e less = rw (lt→ltb j h.n less, e)

    collect_scan :
        (fuel : ℕ)
        → ((j : ℕ) (x : Node V) (d : Chain V)
            → j < h.n
            → length (left j (x ∷ d)) < fuel
            → collect h.n fuel (record { hash = some h; node = x ∷ d; n = j })
              ≡ some (left j (x ∷ d)))
        → (j : ℕ) (c z : Chain V) → length (left j c) < fuel
        → ((c ≡ []) × (j ≡ length (buckets h)))
          ⊎ ((x : Node V) × (d : Chain V) × (c ≡ x ∷ d) × (j < length (buckets h)))
        → collect h.n fuel (at_scan j c z) ≡ some (left j c)
    unfolding collect all_values
    collect_scan zero ih j c z f s = absurd (omega arith)
    collect_scan (suc fuel) ih j c z f (inl (e, last)) =
        let done : j ≡ h.n = omega arith in
        rw (drop_past (buckets h) (j + 1) (omega arith), e, (==_iff j h.n).1 done)
    collect_scan (suc fuel) ih j c z f (inr (x, d, e, lt)) =
        let less : j < h.n = omega arith in
        ap (collect h.n (suc fuel)) (at_scan_node j x d z c e less)
        ∙ ih j x d less (rw e at f)
        ∙ ap (λ (a : Chain V). some (left j a)) (sym e)

    -- From a node on, the loop gives the rest of the chain and then the later buckets.
    collect_from :
        (fuel i : ℕ) (x : Node V) (c : Chain V)
        → i < h.n
        → length (left i (x ∷ c)) < fuel
        → collect h.n fuel (record { hash = some h; node = x ∷ c; n = i }) ≡ some (left i (x ∷ c))
    unfolding collect add_hash_iterator
    collect_from zero i x c lt f = absurd (omega arith)
    collect_from (suc fuel) i x (y ∷ c) lt f =
        rw (ne_test i h.n lt, collect_from fuel i y c lt (omega arith))
    collect_from (suc fuel) i x [] lt f =
        let (same, le, ends) =
          next_bucket_lem (buckets h) (i + 1) (drop (i + 1) (buckets h)) refl (omega arith) in
        let (j, c) = next_bucket (i + 1) (drop (i + 1) (buckets h)) in
        let len = ap length same in
        rw (ne_test i h.n lt, collect_scan fuel (collect_from fuel) j c [] (omega arith) ends, same)

    -- A loop over the iterator reads every value of the table once, bucket by bucket, whatever the
    -- iterator held before, and ends within one round more than there are values.
    pub collect-all :
        (it : Iterator V)
        → collect h.n (length (all_values (buckets h)) + 1) (init_hash_iterator it (some h))
          ≡ some (all_values (buckets h))
    unfolding init_hash_iterator
    collect-all it =
        let (same, le, ends) = next_bucket_lem (buckets h) 0 (buckets h) refl (omega arith) in
        let (j, c) = next_bucket 0 (buckets h) in
        let len = ap length same in
        collect_scan _ (collect_from _) j c it.node (omega arith) ends ∙ ap some (sym same)
