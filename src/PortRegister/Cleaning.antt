-- ===== src/PortRegister/Cleaning.antt =====
-- `clean_port_reserve` of port_register.c: the records of servers that no longer listen go, no
-- other record is made up, and the register is valid again after the check of all ports.
use ntu_system_programming.Common.{
  ℕ, zero, suc, ◌+◌, ◌≤◌, ◌<◌, ◌≡◌, ◌≢◌, refl, ◌∙◌, Bool, true, none, some, List, [], arith,
  if◌then◌else◌, ◌==◌, inl, inr, length, get_or, Bool-cases,
}
use ntu_system_programming.Common.Int.{ℤ}
use ntu_system_programming.HashTable.{slot, find}
use ntu_system_programming.HashTable.Chains.{find-eq-none}
use ntu_system_programming.HashTable.Lookup
use ntu_system_programming.HashTable.Lookup.{view, buckets, chain_of, slot-lt}
use ntu_system_programming.PortRegister.{
  Record, Register, clean_buckets, clean_port_reserve, check_port_reserve, port_reserve_size,
  default_register_port,
}
use ntu_system_programming.PortRegister.Ports.{length-check_ports, get_or-check_ports}
use ntu_system_programming.PortRegister.Booking.{IsValid, index}
use ntu_system_programming.PortRegister.CleanChain.{Shrinks, Shrinks-trans, Agrees, clean_chain_lem}

module _ (busy : ℕ → Bool) where
  -- A bucket agrees with the table that it stands in.
  bucket-Agrees :
      (i : ℕ) (s : Register)
      → Lookup.IsValid s.record_hash
      → Agrees busy s (get_or (buckets s.record_hash) i [])
  bucket-Agrees i s table q r e = elim (Bool-cases (slot q s.record_hash.n == i)) [
    | inl here ↦
        let here' : slot q s.record_hash.n ≡ i = ground arith in
        inr (rw (← here') (unfold view in e))
    | inr away ↦ inl (find-eq-none q _ (table.placed q i (ground arith)))
  ]

  bucket_found :
      (i : ℕ) (s : Register) (q : ℤ) (r : Record)
      → slot q s.record_hash.n ≡ i
      → view s.record_hash q ≡ some r
      → find (get_or (buckets s.record_hash) i []) q ≢ none
  unfolding view
  bucket_found i s q r here e = rw (← here) (λ absent. cc)

  -- After the walk of bucket `i` the codes of the buckets up to `i` are done.
  reached :
      (i : ℕ) (s s1 : Register)
      → Shrinks s s1
      → ((q : ℤ) (r : Record)
          → view s.record_hash q ≡ some r
          → slot q s.record_hash.n < i
          → busy r.port ≡ true)
      → ((q : ℤ) (r : Record)
          → view s1.record_hash q ≡ some r
          → find (get_or (buckets s.record_hash) i []) q ≢ none
          → busy r.port ≡ true)
      → (q : ℤ) (r : Record) → view s1.record_hash q ≡ some r
      → slot q s1.record_hash.n < i + 1
      → busy r.port ≡ true
  reached i s s1 sh done clean q r e lt =
      let lt' : slot q s.record_hash.n < i + 1 = rw sh.slots at lt in
      elim (Bool-cases (slot q s.record_hash.n == i)) [
        | inl here ↦
            let here' : slot q s.record_hash.n ≡ i = ground arith in
            clean q r e (bucket_found i s q r here' (sh.keeps q r e))
        | inr away ↦
            let away' : slot q s.record_hash.n ≢ i = ground arith in
            done q r (sh.keeps q r e) (omega arith)
      ]

  -- The walk over the buckets from `i` on.
  clean_buckets_lem :
      (left i : ℕ) (s : Register)
      → Lookup.IsValid s.record_hash
      → i + left ≡ s.record_hash.n
      → ((q : ℤ) (r : Record)
          → view s.record_hash q ≡ some r
          → slot q s.record_hash.n < i
          → busy r.port ≡ true)
      → (s' : Register) × (clean_buckets busy left i s ≡ some s')
        × Shrinks s s'
        × ((q : ℤ) (r : Record) → view s'.record_hash q ≡ some r → busy r.port ≡ true)
  unfolding clean_buckets
  clean_buckets_lem zero i s table ends done = (
    s,
    refl,
    record { table' = table; slots = refl; size = refl; keeps = λ q r e. e },
    λ q r e. let lt = slot-lt q s.record_hash.n table.positive in done q r e (omega arith),
  )
  clean_buckets_lem (suc left) i s table ends done =
      let c = get_or (buckets s.record_hash) i [] in
      let (s1, run1, sh1, clean) =
        clean_chain_lem busy c s table (λ q. table.once q i) (bucket-Agrees i s table) in
      let slots = sh1.slots in
      let (s2, run2, sh2, all) =
        clean_buckets_lem left (i + 1) s1 sh1.table' (omega arith)
          (reached i s s1 sh1 done clean) in
      (s2, rw run1 run2, Shrinks-trans sh1 sh2, all)

  -- What a clean-up leaves: no new record, every record's port in use, an entry of the array 1
  -- exactly where a port is in use.
  pub record Cleans (s s' : Register) : Type 0 where
    pub keeps :
        (q : ℤ) (r : Record) → view s'.record_hash q ≡ some r → view s.record_hash q ≡ some r
    pub in_use : (q : ℤ) (r : Record) → view s'.record_hash q ≡ some r → busy r.port ≡ true
    pub checked :
        (k : ℕ)
        → k < port_reserve_size
        → get_or s'.port_reserve k 1 ≡ (if busy (k + default_register_port + 1) then 1 else 0)
    pub valid' : IsValid s'

  port_held :
      (ps : List ℕ) (p : ℕ)
      → default_register_port < p
      → p ≤ default_register_port + port_reserve_size
      → busy p ≡ true
      → (index p < port_reserve_size
          → get_or ps (index p) 1 ≡ (if busy (index p + default_register_port + 1) then 1 else 0))
      → get_or ps (index p) 1 ≢ 0
  port_held ps p above below used checked =
      let e : index p + default_register_port + 1 ≡ p = omega arith in
      let used' : busy (index p + default_register_port + 1) ≡ true = rw e used in
      let c : get_or ps (index p) 1 ≡ 1 = checked (omega arith) ∙ rw used' in omega arith

  cleaned_check :
      (s s' : Register)
      → IsValid s
      → Shrinks s s'
      → ((q : ℤ) (r : Record) → view s'.record_hash q ≡ some r → busy r.port ≡ true)
      → Cleans s (check_port_reserve busy s')
  unfolding check_port_reserve
  cleaned_check s s' valid sh all =
      let size : length s'.port_reserve ≡ port_reserve_size = sh.size ∙ valid.size in
      let checked = λ (k : ℕ) (lt : k < port_reserve_size).
        get_or-check_ports busy 0 k s'.port_reserve (omega arith)
        ∙ (let z : 0 + k + default_register_port + 1 ≡ k + default_register_port + 1 =
              omega arith in
            rw z) in
      record {
        keeps = sh.keeps;
        in_use = all;
        checked = checked;
        valid' = record {
          table = sh.table';
          size = length-check_ports busy 0 s'.port_reserve ∙ size;
          held = λ q r e.
              let (above, below, old) = valid.held q r (sh.keeps q r e) in
              (above, below, port_held _ r.port above below (all q r e) (checked (index r.port)));
          apart = λ q q' r r' e e'. valid.apart q q' r r' (sh.keeps q r e) (sh.keeps q' r' e');
        };
      }

  -- A clean-up of a valid register ends, adds no record, leaves only records whose port is in use,
  -- and the register is valid.
  pub clean_port_reserve_lem :
      (s : Register)
      → IsValid s
      → (s' : Register) × (clean_port_reserve busy s ≡ some s') × Cleans s s'
  unfolding clean_port_reserve
  clean_port_reserve_lem s valid =
      let (s1, run, sh, all) =
        clean_buckets_lem s.record_hash.n 0 s valid.table (omega arith)
          (λ q r e lt. absurd (omega arith)) in
      (check_port_reserve busy s1, rw run, cleaned_check s s1 valid sh all)
