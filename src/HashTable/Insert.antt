-- ===== src/HashTable/Insert.antt =====
-- `put_into_hash` of hash.c: it refuses a code that is there, and adds a new one.
use ntu_system_programming.Common.{
  ◌≡◌, refl, Bool, true, false, none, some, [], ◌∷◌, ◌++◌, arith, if◌then◌else◌, ◌==◌,
}
use ntu_system_programming.Common.Int.{ℤ, same_int, same_int_iff}
use ntu_system_programming.HashTable.{Hash, slot, store, put_into_hash, find}
use ntu_system_programming.HashTable.Chains.{
  count-eq-zero, append_node_present, append_node_full, append_node_absent, find-append_new,
  count-append_new,
}
use ntu_system_programming.HashTable.Lookup.{
  chain_of, view, IsValid, same_slot, nested_if, same_chain, locate_lem, store-IsValid, view-store,
}

module _ {ℓ} {V : Type ℓ} where
  module _ {h : Hash V} (valid : IsValid h) (k : ℤ) where
    -- A code that is there: the call returns 0 and the table stays as it was.
    pub put_present :
        (room : Bool) (v w : V) → view h k ≡ some w → put_into_hash room h v k ≡ some (false, h)
    unfolding put_into_hash view
    put_present room v w e = rw (locate_lem k valid, append_node_present v k room _ w e)

    pub put_full : (v : V) → put_into_hash false h v k ≡ some (false, h)
    unfolding put_into_hash
    put_full v = rw (locate_lem k valid, append_node_full v k _)

    pub record Puts (v : V) (r : Bool × Hash V) : Type ℓ where
      pub stored : r.0 ≡ true
      pub valid' : IsValid r.1
      pub size : r.1.n ≡ h.n
      pub reads : (q : ℤ) → view r.1 q ≡ (if same_int k q then some v else view h q)

    -- A new code: the call returns 1, the value is found under it, other codes read as before.
    pub put_absent :
        (v : V)
        → view h k ≡ none
        → (r : Bool × Hash V) × (put_into_hash true h v k ≡ some r) × Puts v r
    unfolding put_into_hash
    put_absent v e =
        let c' = chain_of h k ++ record { contain = v; hash_code = k } ∷ [] in
        let absent : find (chain_of h k) k ≡ none = unfold view in e in
        (
          (true, store h (slot k h.n) c'),
          rw (locate_lem k valid, append_node_absent v k _ absent),
          record {
            stored = refl;
            valid' =
                store-IsValid k valid c'
                  (λ q. rw (count-append_new v k q (chain_of h k)) (
                    ground (
                      arith,
                      valid.once q (slot k h.n),
                      same_int_iff k q,
                      count-eq-zero k (chain_of h k) absent,
                    )))
                  (λ q ne.
                    rw (count-append_new v k q (chain_of h k))
                      (ground (arith, valid.placed q (slot k h.n), same_int_iff k q)));
            size = refl;
            reads = λ q.
                rw (view-store k valid c' q, find-append_new v k q (chain_of h k) absent)
                  (nested_if (same_int k q) (slot k h.n == slot q h.n) _ (same_slot h.n k q)
                    (same_chain h k q));
          },
        )
