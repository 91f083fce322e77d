-- ===== src/HashTable/Tests.antt =====
-- Runs of hash.c at concrete tables, and its theorems at them.
use ntu_system_programming.Common.{
  ℕ, zero, suc, ◌+◌, ◌≤◌, ◌≡◌, ◌≢◌, refl, Bool, true, false, Option, none, some, [], ◌∷◌, arith,
  ◌>>=◌, if◌then◌else◌, inl, inr, length, get_or, Bool-cases,
}
use mathlib.Core.Path.{subst}
use ntu_system_programming.Common.Int.{ℤ, pos, negsuc, same_int, same_int_iff}
use ntu_system_programming.HashTable.{
  Node, Hash, slot, init_hash, put_into_hash, get_from_hash, del_from_hash, get_from_hash_by_path,
  all_values, find,
}
use ntu_system_programming.HashTable.Chains.{count}
use ntu_system_programming.HashTable.Lookup.{buckets, view, IsValid, get-view}
use ntu_system_programming.HashTable.Insert.{Puts, put_absent}
use ntu_system_programming.HashTable.Delete.{del_exact}
use ntu_system_programming.HashTable.Iterator.{Iterator, init_hash_iterator, collect, collect-all}

abbrev entry : ℕ → ℕ → Node ℕ
entry k v = record { contain = v; hash_code = pos k }

-- Codes 1 and 4 share bucket 1 of three.
abbrev sample : Hash ℕ
sample = record {
  node = some ([] ∷ (entry 1 10 ∷ entry 4 40 ∷ []) ∷ (entry 2 20 ∷ []) ∷ []);
  n = 3;
}

other_code : (k q : ℤ) (i : ℕ) → slot k 3 ≡ i → slot q 3 ≢ i → same_int k q ≡ false
other_code k q i e ne = elim (Bool-cases (same_int k q)) [
  | inr other ↦ other
  | inl same ↦
      let e' : slot q 3 ≡ i = subst (λ c. slot c 3 ≡ i) ((same_int_iff k q).0 same) e in
      absurd (ne e')
]

sample-IsValid : IsValid sample
unfolding count slot
sample-IsValid = record {
  allocated = refl;
  width = refl;
  positive = omega arith;
  once = once;
  placed = placed;
}
  where
    once : (q : ℤ) (i : ℕ) → count q (get_or (buckets sample) i []) ≤ 1
    once q zero = omega arith
    once q (suc zero) = ground (arith, same_int_iff (pos 1) q, same_int_iff (pos 4) q)
    once q (suc (suc zero)) = ground arith
    once q (suc (suc (suc i))) = omega arith

    placed : (q : ℤ) (i : ℕ) → slot q 3 ≢ i → count q (get_or (buckets sample) i []) ≡ 0
    placed q zero ne = refl
    placed q (suc zero) ne =
        rw (other_code (pos 1) q 1 refl ne, other_code (pos 4) q 1 refl ne) (omega arith)
    placed q (suc (suc zero)) ne = rw (other_code (pos 2) q 2 refl ne) (omega arith)
    placed q (suc (suc (suc i))) ne = refl

program : Unit {0}
unfolding slot init_hash put_into_hash get_from_hash del_from_hash get_from_hash_by_path same_int
program = tt

-- A negative code goes to the bucket that makes the remainder positive.
slot_negative : (slot (negsuc 0) 100 ≡ 99) × (slot (negsuc 99) 100 ≡ 0)
unfolding program
slot_negative = (refl, refl)

put_at_end :
    put_into_hash true sample 70 (pos 7)
    ≡ some (
      true,
      record sample {
        node = some ([] ∷ (entry 1 10 ∷ entry 4 40 ∷ entry 7 70 ∷ []) ∷ (entry 2 20 ∷ []) ∷ []);
      },
    )
unfolding program
put_at_end = refl

-- Deleting code 4, behind the head, keeps code 1; deleting code 1, at the head, loses code 4.
del_behind : (del_from_hash sample (pos 4) >>= λ (v, h). get_from_hash h (pos 1)) ≡ some (some 10)
unfolding program
del_behind = refl

del_head : (del_from_hash sample (pos 1) >>= λ (v, h). get_from_hash h (pos 4)) ≡ some none
unfolding program
del_head = refl

get-view_example : get_from_hash sample (pos 4) ≡ some (view sample (pos 4))
get-view_example = get-view (pos 4) sample-IsValid

abbrev unused : Hash ℕ
unused = record { node = none; n = 0 }

put_absent_example :
    (r : Bool × Hash ℕ) × (put_into_hash true sample 70 (pos 7) ≡ some r)
    × Puts sample-IsValid (pos 7) 70 r
unfolding view find slot same_int
put_absent_example = put_absent sample-IsValid (pos 7) 70 refl

del_exact_example :
    (r : Option ℕ × Hash ℕ) × (del_from_hash sample (pos 4) ≡ some r)
    × (r.0 ≡ view sample (pos 4))
    × IsValid r.1
    × ((q : ℤ) → view r.1 q ≡ (if same_int (pos 4) q then none else view sample q))
unfolding slot same_int
del_exact_example = del_exact sample-IsValid (pos 4) (λ e. cc)

abbrev fresh_iterator : Iterator ℕ
fresh_iterator = record { hash = none; node = []; n = 0 }

collect-all_example :
    collect 3
      (length (all_values (buckets sample)) + 1)
      (init_hash_iterator fresh_iterator (some sample))
    ≡ some (all_values (buckets sample))
collect-all_example = collect-all sample refl fresh_iterator
