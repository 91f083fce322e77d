-- ===== src/PortRegister/Service.antt =====
-- The requests of port_register.c on a valid register: a booking gives the lowest free port, or
-- fails and changes nothing where none is free.
use ntu_system_programming.Common.{
  ℕ, ◌+◌, ◌≡◌, ◌≢◌, refl, sym, ◌∙◌, true, none, some, List, arith, if◌then◌else◌, inl, inr, get_or,
  Bool-cases, Option-cases, length-set, get_or-set,
}
use mathlib.Core.Path.{subst}
use ntu_system_programming.Common.Int.{ℤ, pos, negsuc, same_int, same_int_iff}
use ntu_system_programming.HashTable.{slot, store}
use ntu_system_programming.HashTable.Lookup.{
  view, chain_of, locate_lem, get-view, same_slot, same_chain, same_if, view-store, store-IsValid,
}
use ntu_system_programming.HashTable.Insert.{put_absent, put_full}
use ntu_system_programming.PortRegister.{
  Record, Register, Memory, take_free, set_port, strncpy, add_record, book_port, get_hash_code,
  default_register_port,
}
use ntu_system_programming.PortRegister.Ports.{Takes, take_free-some, take_free-none}
use ntu_system_programming.PortRegister.Chains.{count-set_port, find-set_port}
use ntu_system_programming.PortRegister.Booking.{IsValid, Books, after-Books, index}

abbrev pub ample : Memory
ample = record { for_record = true; for_node = true }

module _ {s : Register} (valid : IsValid s) (name : List ℕ) where
  abbrev code : ℤ
  code = get_hash_code name

  add_case :
      (k : ℕ) (ps : List ℕ)
      → take_free 0 s.port_reserve ≡ some (k, ps)
      → Takes s.port_reserve k ps
      → view s.record_hash code ≡ none
      → (p : ℕ) × (s' : Register) × (book_port ample s name ≡ some (pos p, s')) × Books s name p s'
  unfolding book_port
  add_case k ps found t absent =
      let r : Record = record { name = strncpy name; port = k + default_register_port + 1 } in
      let (b, run, puts) = put_absent valid.table code r absent in
      (
        k + default_register_port + 1,
        record { record_hash = b.1; port_reserve = ps },
        rw (get-view code valid.table, found, absent, run),
        after-Books s valid name k ps t b.1 puts.valid' r refl puts.reads,
      )

  renew_reads :
      (p : ℕ) (old : Record)
      → view s.record_hash code ≡ some old
      → (q : ℤ)
      → view
          (store s.record_hash
            (slot code s.record_hash.n)
            (set_port code p (chain_of s.record_hash code)))
          q
        ≡ (if same_int code q then some (record old { port = p }) else view s.record_hash q)
  renew_reads p old there q =
      let h = s.record_hash in
      view-store code valid.table (set_port code p (chain_of h code)) q
      ∙ rw (find-set_port q code p (chain_of h code)) (elim (Bool-cases (same_int code q)) [
        | inl e ↦
            let near = same_slot h.n code q e in
            let there' : view h q ≡ some old =
              subst (λ c. view h c ≡ some old) ((same_int_iff code q).0 e) there in
            rw (e, near, same_chain h code q near, there')
        | inr e ↦ rw e (sym (same_if _ (same_chain h code q)))
      ])

  renew_case :
      (mem : Memory) (k : ℕ) (ps : List ℕ) (old : Record)
      → take_free 0 s.port_reserve ≡ some (k, ps)
      → Takes s.port_reserve k ps
      → view s.record_hash code ≡ some old
      → (p : ℕ) × (s' : Register) × (book_port mem s name ≡ some (pos p, s')) × Books s name p s'
  unfolding book_port
  renew_case mem k ps old found t there =
      let p = k + default_register_port + 1 in
      let c = set_port code p (chain_of s.record_hash code) in
      let good =
        store-IsValid code valid.table c
          (λ q. rw (count-set_port q code p (chain_of s.record_hash code)) (valid.table.once q _))
          (λ q ne.
            rw (count-set_port q code p (chain_of s.record_hash code))
              (valid.table.placed q _ ne)) in
      (
        p,
        record {
          record_hash = store s.record_hash (slot code s.record_hash.n) c;
          port_reserve = ps;
        },
        rw (get-view code valid.table, found, there, locate_lem code valid.table),
        after-Books s valid name k ps t _ good (record old { port = p }) refl
            (λ q. renew_reads p old there q),
      )

  -- A name gets the lowest free port, which no record had; the name then asks for that port, other
  -- codes read as before, and the register stays valid.
  pub book_port_free :
      (m : ℕ)
      → get_or s.port_reserve m 1 ≡ 0
      → (p : ℕ) × (s' : Register) × (book_port ample s name ≡ some (pos p, s')) × Books s name p s'
  book_port_free m free = elim (Option-cases (take_free 0 s.port_reserve)) [
    | inl full ↦ absurd (take_free-none 0 s.port_reserve full m free)
    | inr ((j, ps), found) ↦
        let (k, at, t) = take_free-some 0 j s.port_reserve ps found in
        let found' : take_free 0 s.port_reserve ≡ some (k, ps) = ground arith in
        elim (Option-cases (view s.record_hash code)) [
          | inl absent ↦ add_case k ps found' t absent
          | inr (old, there) ↦ renew_case ample k ps old found' t there
        ]
  ]

  -- A port that is taken for no new record leaves the register valid.
  leak_IsValid :
      (k : ℕ) (ps : List ℕ) → Takes s.port_reserve k ps → IsValid (record s { port_reserve = ps })
  leak_IsValid k ps t = record {
    table = valid.table;
    size = rw (t.taken, length-set) valid.size;
    held = λ q r e.
        let (above, below, old) = valid.held q r e in
        (above, below, rw t.taken (ground (arith, get_or-set s.port_reserve k (index r.port) 1 1)));
    apart = valid.apart;
  }

  absent_any :
      (mem : Memory) (k : ℕ) (ps : List ℕ)
      → take_free 0 s.port_reserve ≡ some (k, ps)
      → Takes s.port_reserve k ps
      → view s.record_hash code ≡ none
      → (r : ℤ × Register) × (book_port mem s name ≡ some r) × IsValid r.1
  unfolding book_port
  absent_any mem k ps found t absent = elim (Bool-cases (mem.for_record)) [
    | inr poor ↦ (
      (negsuc 0, record s { port_reserve = ps }),
      rw (get-view code valid.table, found, absent, add_record, poor),
      leak_IsValid k ps t,
    )
    | inl rich ↦
        let r : Record = record { name = strncpy name; port = k + default_register_port + 1 } in
        elim (Bool-cases (mem.for_node)) [
          | inl roomy ↦
              let (b, run, puts) = put_absent valid.table code r absent in
              (
                (
                  pos (k + default_register_port + 1),
                  record { record_hash = b.1; port_reserve = ps },
                ),
                rw (get-view code valid.table, found, absent, add_record, rich, roomy, run),
                (after-Books s valid name k ps t b.1 puts.valid' r refl puts.reads).valid',
              )
          | inr full ↦ (
            (pos (k + default_register_port + 1), record s { port_reserve = ps }),
            rw (
              get-view code valid.table,
              found,
              absent,
              add_record,
              rich,
              full,
              put_full valid.table code r,
            ),
            leak_IsValid k ps t,
          )
        ]
  ]

  -- With no free port the answer is -1 and the register is as before, whatever memory there is.
  pub book_port_full :
      (mem : Memory)
      → ((m : ℕ) → get_or s.port_reserve m 1 ≢ 0)
      → book_port mem s name ≡ some (negsuc 0, s)
  unfolding book_port
  book_port_full mem full = elim (Option-cases (take_free 0 s.port_reserve)) [
    | inl e ↦ rw (get-view code valid.table, e)
    | inr ((j, ps), found) ↦
        let (k, at, t) = take_free-some 0 j s.port_reserve ps found in absurd (full k t.was_free)
  ]

  -- A booking ends on every branch, also without memory, and leaves a valid register.
  pub book_port-IsValid :
      (mem : Memory) → (r : ℤ × Register) × (book_port mem s name ≡ some r) × IsValid r.1
  book_port-IsValid mem = elim (Option-cases (take_free 0 s.port_reserve)) [
    | inl full ↦
        ((negsuc 0, s), book_port_full mem (λ m. take_free-none 0 s.port_reserve full m), valid)
    | inr ((j, ps), found) ↦
        let (k, at, t) = take_free-some 0 j s.port_reserve ps found in
        let found' : take_free 0 s.port_reserve ≡ some (k, ps) = ground arith in
        elim (Option-cases (view s.record_hash code)) [
          | inl absent ↦ absent_any mem k ps found' t absent
          | inr (old, there) ↦
              let (p, s', run, b) = renew_case mem k ps old found' t there in
              ((pos p, s'), run, b.valid')
        ]
  ]
