-- ===== src/PortRegister/Booking.antt =====
-- `book_port`, `get_port` and `web_port` of port_register.c: what a booking changes.
use ntu_system_programming.Common.{
  ℕ, ◌+◌, ◌-◌, ◌≤◌, ◌<◌, ◌≡◌, ◌≢◌, refl, sym, ◌∙◌, some, List, arith, ap, if◌then◌else◌, ◌==◌, ◌⊎◌,
  inl, inr, length, get_or, set, Bool-cases, length-set, get_or-set,
}
use ntu_system_programming.Common.Int.{ℤ, pos, same_int, same_int_iff}
use ntu_system_programming.HashTable.{Hash}
use ntu_system_programming.HashTable.Lookup
use ntu_system_programming.HashTable.Lookup.{
  view, chain_of, locate_lem, get-view, same_slot, same_chain, nested_if,
}
use ntu_system_programming.PortRegister.{
  Record, Register, get_port, get_hash_code, port_reserve_size, default_register_port,
}
use ntu_system_programming.PortRegister.Ports.{Takes}

-- The index of a port in `port_reserve`.
abbrev pub index : ℕ → ℕ
index p = p - 1 - default_register_port

abbrev pub IsHeld : List ℕ → ℕ → Type 0
IsHeld ps p =
    (default_register_port < p)
    × (p ≤ default_register_port + port_reserve_size)
    × (get_or ps (index p) 1 ≢ 0)

-- Every recorded port is reserved, and two codes never have the same port.
pub record IsValid (s : Register) : Type 0 where
  pub table : Lookup.IsValid s.record_hash
  pub size : length s.port_reserve ≡ port_reserve_size
  pub held : (q : ℤ) (r : Record) → view s.record_hash q ≡ some r → IsHeld s.port_reserve r.port
  pub apart :
      (q q' : ℤ) (r r' : Record)
      → view s.record_hash q ≡ some r
      → view s.record_hash q' ≡ some r'
      → r.port ≡ r'.port
      → q ≡ q'

-- What a successful booking of port `p` makes of `s`.
pub record Books (s : Register) (name : List ℕ) (p : ℕ) (s' : Register) : Type 0 where
  pub above : default_register_port < p
  pub below : p ≤ default_register_port + port_reserve_size
  pub was_free : get_or s.port_reserve (index p) 1 ≡ 0
  pub lowest : (m : ℕ) → m < index p → get_or s.port_reserve m 1 ≢ 0
  pub reserved : s'.port_reserve ≡ set s.port_reserve (index p) 1
  pub recorded : get_port s' name ≡ some (pos p)
  pub others : (q : ℤ) → q ≢ get_hash_code name → view s'.record_hash q ≡ view s.record_hash q
  pub valid' : IsValid s'

-- Both branches write one record of the new port under the code of the name.
module _ (s : Register) (valid : IsValid s) (name : List ℕ) (k : ℕ) (ps : List ℕ)
    (t : Takes s.port_reserve k ps) (h : Hash Record) (good : Lookup.IsValid h) (r : Record)
    (port : r.port ≡ k + default_register_port + 1)
    (reads : (q : ℤ)
      → view h q ≡ (if same_int (get_hash_code name) q then some r else view s.record_hash q)) where
  abbrev pub after : Register
  after = record { record_hash = h; port_reserve = ps }

  read_cases :
      (q : ℤ) (x : Record)
      → view h q ≡ some x
      → ((q ≡ get_hash_code name) × (x ≡ r))
        ⊎ ((q ≢ get_hash_code name) × (view s.record_hash q ≡ some x))
  read_cases q x e =
      let iff = same_int_iff (get_hash_code name) q in
      elim (Bool-cases (same_int (get_hash_code name) q)) [
        | inl same ↦ inl (sym (iff.0 same), ground (arith, reads q))
        | inr other ↦ inr (ground arith, ground (arith, reads q))
      ]

  reserve_reads : (i : ℕ) → get_or ps i 1 ≡ (if k == i then 1 else get_or s.port_reserve i 1)
  reserve_reads i = rw t.taken (get_or-set s.port_reserve k i 1 1 t.inside)

  still-IsHeld : (p : ℕ) → IsHeld s.port_reserve p → IsHeld ps p
  still-IsHeld p old = ground (arith, reserve_reads (index p))

  not_held : (p : ℕ) → IsHeld s.port_reserve p → p ≢ k + default_register_port + 1
  not_held p old e = let i : index p ≡ k = omega arith in old.2 (rw i t.was_free)

  new-IsHeld : (x : Record) → x ≡ r → IsHeld ps x.port
  new-IsHeld x e =
      let p : x.port ≡ k + default_register_port + 1 = ap (λ (y : Record). y.port) e ∙ port in
      let i : index x.port ≡ k = omega arith in
      let inside = t.inside in
      let size = valid.size in (omega arith, omega arith, rw i (ground (arith, reserve_reads k)))

  after-apart :
      (q q' : ℤ) (x x' : Record)
      → view h q ≡ some x
      → view h q' ≡ some x'
      → x.port ≡ x'.port
      → q ≡ q'
  after-apart q q' x x' e e' same = elim (read_cases q x e) [
    | inl (a, b) ↦ elim (read_cases q' x' e') [
      | inl (a', b') ↦ a ∙ sym a'
      | inr (a', b') ↦
          absurd (
            not_held x'.port (valid.held q' x' b')
              (sym same ∙ ap (λ (y : Record). y.port) b ∙ port))
    ]
    | inr (a, b) ↦ elim (read_cases q' x' e') [
      | inl (a', b') ↦
          absurd (not_held x.port (valid.held q x b) (same ∙ ap (λ (y : Record). y.port) b' ∙ port))
      | inr (a', b') ↦ valid.apart q q' x x' b b' same
    ]
  ]

  after-IsValid : IsValid after
  after-IsValid = record {
    table = good;
    size = rw (t.taken, length-set) valid.size;
    held = λ q x e. elim (read_cases q x e) [
      | inl (same, new) ↦ new-IsHeld x new
      | inr (other, old) ↦ still-IsHeld x.port (valid.held q x old)
    ];
    apart = after-apart;
  }

  get_port-after : get_port after name ≡ some (pos (k + default_register_port + 1))
  unfolding get_port
  get_port-after = rw (
    get-view (get_hash_code name) good,
    reads (get_hash_code name),
    (same_int_iff (get_hash_code name) _).1 refl,
    port,
  )

  pub after-Books : Books s name (k + default_register_port + 1) after
  after-Books =
      let i : index (k + default_register_port + 1) ≡ k = omega arith in
      let inside = t.inside in
      let size = valid.size in
      record {
        above = omega arith;
        below = omega arith;
        was_free = rw i t.was_free;
        lowest = rw i t.first;
        reserved = rw i t.taken;
        recorded = get_port-after;
        others = λ q ne. ground (arith, reads q, same_int_iff (get_hash_code name) q);
        valid' = after-IsValid;
      }
