-- ===== src/HashTable/Delete.antt =====
-- `del_from_hash` of hash.c: exact behind the head of a chain, and what is lost at the head.
use ntu_system_programming.Common.{
  ◌≡◌, refl, sym, ◌∙◌, false, Option, none, some, ◌∷◌, arith, if◌then◌else◌, ◌==◌, inl, inr,
  Option-cases, Bool-cases, ==_iff,
}
use ntu_system_programming.Common.Int.{ℤ, same_int}
use ntu_system_programming.HashTable.{Node, Chain, Hash, slot, store, find, del_from_hash}
use ntu_system_programming.HashTable.Chains.{
  find-erase, drop_at_head, unlink-drop_at_head, count-drop_at_head-le, drop_at_head_absent,
  IsBehindHead, find-drop_at_head_self, find-drop_at_head, drop_at_head-erase,
}
use ntu_system_programming.HashTable.Lookup.{
  chain_of, far_apart, view, IsValid, same_slot, nested_if, same_if, same_chain, locate_lem,
  store-IsValid, view-store,
}

module _ {ℓ} {V : Type ℓ} where
  module _ {h : Hash V} (valid : IsValid h) (k : ℤ) where
    -- What is left of a bucket after a deletion in it.
    pub record Deletes (r : Option V × Hash V) : Type ℓ where
      pub returned : r.0 ≡ view h k
      pub valid' : IsValid r.1
      pub size : r.1.n ≡ h.n
      pub reads :
          (q : ℤ)
          → view r.1 q ≡ (
              if slot k h.n == slot q h.n then find (drop_at_head k (chain_of h k)) q else view h q)

    pub del_any : (r : Option V × Hash V) × (del_from_hash h k ≡ some r) × Deletes r
    unfolding del_from_hash
    del_any = elim (Option-cases (find (chain_of h k) k)) [
      | inl e ↦ (
        (none, h),
        rw (locate_lem k valid, unlink-drop_at_head k (chain_of h k), e),
        record {
          returned = unfold view in sym e;
          valid' = valid;
          size = refl;
          reads = λ q. rw (drop_at_head_absent k (chain_of h k) e) (same_if _ (same_chain h k q));
        },
      )
      | inr (w, e) ↦
          let c' = drop_at_head k (chain_of h k) in
          (
            (some w, store h (slot k h.n) c'),
            rw (locate_lem k valid, unlink-drop_at_head k (chain_of h k), e),
            record {
              returned = unfold view in sym e;
              valid' =
                  store-IsValid k valid c'
                    (λ q.
                      omega (
                        arith,
                        valid.once q (slot k h.n),
                        count-drop_at_head-le k q (chain_of h k),
                      ))
                    (λ q ne. omega (
                      arith,
                      valid.placed q (slot k h.n) ne,
                      count-drop_at_head-le k q (chain_of h k),
                    ));
              size = refl;
              reads = view-store k valid c';
            },
          )
    ]

    -- A deletion away from the head of a longer chain returns the value and removes that code alone.
    pub del_exact :
        IsBehindHead k (chain_of h k)
        → (r : Option V × Hash V) × (del_from_hash h k ≡ some r)
          × (r.0 ≡ view h k)
          × IsValid r.1
          × ((q : ℤ) → view r.1 q ≡ (if same_int k q then none else view h q))
    del_exact apart =
        let (r, run, d) = del_any in
        (
          r,
          run,
          d.returned,
          d.valid',
          λ q.
              d.reads q
              ∙ rw
                  (
                    drop_at_head-erase k (chain_of h k) apart,
                    find-erase k q (chain_of h k) (valid.once q (slot k h.n)),
                  )
                  (nested_if (same_int k q) _ none (same_slot h.n k q) (same_chain h k q)),
        )

    -- A deletion at the head of a chain loses every other code of that bucket.
    pub del_head_loses :
        (x : Node V) (c : Chain V)
        → chain_of h k ≡ x ∷ c
        → x.hash_code ≡ k
        → (r : Option V × Hash V) × (del_from_hash h k ≡ some r)
          × ((q : ℤ) → slot q h.n ≡ slot k h.n → view r.1 q ≡ none)
    del_head_loses x c e same =
        let (r, run, d) = del_any in
        (
          r,
          run,
          λ q near.
              d.reads q ∙ rw ((==_iff _ _).1 (sym near), e) (find-drop_at_head_self k q x c same),
        )

    -- Whatever the deletion does, it adds nothing and the code is gone.
    pub del_shrinks :
        (r : Option V × Hash V) × (del_from_hash h k ≡ some r)
        × IsValid r.1
        × (r.1.n ≡ h.n)
        × ((q : ℤ) (w : V) → view r.1 q ≡ some w → (view h q ≡ some w) × (same_int k q ≡ false))
    del_shrinks =
        let (r, run, d) = del_any in
        (
          r,
          run,
          d.valid',
          d.size,
          λ q w e.
              let e' = sym (d.reads q) ∙ e in
              elim (Bool-cases (slot k h.n == slot q h.n)) [
                | inl near ↦
                    let (old, other) =
                      find-drop_at_head k q (chain_of h k) w (valid.once q (slot k h.n))
                        (rw near at e') in
                    (sym (same_chain h k q near) ∙ old, other)
                | inr far ↦ (rw far at e', far_apart h.n k q far)
              ],
        )
