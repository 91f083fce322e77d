-- ===== src/PortRegister/CleanChain.antt =====
-- One chain in `clean_port_reserve` of port_register.c: the walk over its nodes.
use ntu_system_programming.Common.{
  ℕ, ◌-◌, ◌≤◌, ◌≡◌, ◌≢◌, refl, sym, ◌∙◌, Bool, true, false, none, some, [], ◌∷◌, arith, ◌⊎◌, inl,
  inr, length, set, Bool-cases, length-set,
}
use mathlib.Core.Bool.{false≢true}
use ntu_system_programming.Common.Int.{ℤ, same_int}
use ntu_system_programming.HashTable.{Node, Chain, find}
use ntu_system_programming.HashTable.Chains.{count, find-eq-none}
use ntu_system_programming.HashTable.Lookup
use ntu_system_programming.HashTable.Lookup.{view, buckets, chain_of, slot-lt}
use ntu_system_programming.HashTable.Delete.{del_shrinks}
use ntu_system_programming.PortRegister.{
  Record, Register, clean_node, clean_chain, default_register_port,
}

-- `s'` has the table and the array of `s` in shape, and no record that `s` lacks.
pub record Shrinks (s s' : Register) : Type 0 where
  pub table' : Lookup.IsValid s'.record_hash
  pub slots : s'.record_hash.n ≡ s.record_hash.n
  pub size : length s'.port_reserve ≡ length s.port_reserve
  pub keeps : (q : ℤ) (r : Record) → view s'.record_hash q ≡ some r → view s.record_hash q ≡ some r

pub Shrinks-trans : {s t u : Register} → Shrinks s t → Shrinks t u → Shrinks s u
Shrinks-trans a b = record {
  table' = b.table';
  slots = b.slots ∙ a.slots;
  size = b.size ∙ a.size;
  keeps = λ q r e. a.keeps q r (b.keeps q r e);
}

count-tail : (q : ℤ) (x : Node Record) (c : Chain Record) → count q (x ∷ c) ≤ 1 → count q c ≤ 1
unfolding count
count-tail q x c h = ground arith

find_tail :
    (q : ℤ) (r : Record) (x : Node Record) (c : Chain Record)
    → count q (x ∷ c) ≤ 1
    → (find (x ∷ c) q ≡ none) ⊎ (find (x ∷ c) q ≡ some r)
    → (find c q ≡ none) ⊎ (find c q ≡ some r)
unfolding count find
find_tail q r x c once d = elim (Bool-cases (same_int x.hash_code q)) [
  | inl same ↦ inl (find-eq-none q c (ground arith))
  | inr other ↦ rw other at d
]

find_head :
    (q : ℤ) (r : Record) (x : Node Record) (c : Chain Record)
    → same_int x.hash_code q ≡ true
    → (find (x ∷ c) q ≡ none) ⊎ (find (x ∷ c) q ≡ some r)
    → x.contain ≡ r
unfolding find
find_head q r x c same d = ground arith

find_other :
    (q : ℤ) (x : Node Record) (c : Chain Record)
    → same_int x.hash_code q ≡ false
    → find (x ∷ c) q ≢ none
    → find c q ≢ none
unfolding find
find_other q x c other ne = rw other at ne

module _ (busy : ℕ → Bool) where
  -- One node: its code reads nothing afterwards, unless its port is in use.
  clean_node_lem :
      (s : Register) (x : Node Record)
      → Lookup.IsValid s.record_hash
      → (s' : Register) × (clean_node busy s x ≡ some s')
        × Shrinks s s'
        × ((busy x.contain.port ≡ true)
            ⊎ ((q : ℤ) (r : Record)
                → view s'.record_hash q ≡ some r
                → same_int x.hash_code q ≡ false))
  unfolding clean_node
  clean_node_lem s x table = elim (Bool-cases (busy x.contain.port)) [
    | inl used ↦ (
      s,
      rw used,
      record { table' = table; slots = refl; size = refl; keeps = λ q r e. e },
      inl used,
    )
    | inr unused ↦
        let (r, run, good, slots, gone) = del_shrinks table x.hash_code in
        (
          record {
            record_hash = r.1;
            port_reserve = set s.port_reserve (x.contain.port - 1 - default_register_port) 0;
          },
          rw (unused, run),
          record {
            table' = good;
            slots = slots;
            size = length-set s.port_reserve _ 0;
            keeps = λ q w e. (gone q w e).0;
          },
          inr (λ q w e. (gone q w e).1),
        )
  ]

  -- The chain that is walked still says what the table says of its codes.
  abbrev pub Agrees : Register → Chain Record → Type 0
  Agrees s c =
      (q : ℤ) (r : Record) → view s.record_hash q ≡ some r → (find c q ≡ none) ⊎ (find c q ≡ some r)

  pub clean_chain_lem :
      (c : Chain Record) (s : Register)
      → Lookup.IsValid s.record_hash
      → ((q : ℤ) → count q c ≤ 1)
      → Agrees s c
      → (s' : Register) × (clean_chain busy s c ≡ some s')
        × Shrinks s s'
        × ((q : ℤ) (r : Record)
            → view s'.record_hash q ≡ some r
            → find c q ≢ none
            → busy r.port ≡ true)
  unfolding clean_chain
  clean_chain_lem [] s table once agrees = (
    s,
    refl,
    record { table' = table; slots = refl; size = refl; keeps = λ q r e. e },
    λ q r e ne. absurd (ne (unfold find in refl)),
  )
  clean_chain_lem (x ∷ c) s table once agrees =
      let (s1, run1, sh1, outcome) = clean_node_lem s x table in
      let (s2, run2, sh2, clean) =
        clean_chain_lem c s1 sh1.table' (λ q. count-tail q x c (once q))
          (λ q r e. find_tail q r x c (once q) (agrees q r (sh1.keeps q r e))) in
      (
        s2,
        rw run1 run2,
        Shrinks-trans sh1 sh2,
        λ q r e ne. elim (Bool-cases (same_int x.hash_code q)) [
          | inr other ↦ clean q r e (find_other q x c other ne)
          | inl same ↦ elim outcome [
            | inr gone ↦ absurd (false≢true (sym (gone q r (sh2.keeps q r e)) ∙ same))
            | inl used ↦
                let e' = find_head q r x c same (agrees q r (sh1.keeps q r (sh2.keeps q r e))) in
                rw e' at used
          ]
        ],
      )
