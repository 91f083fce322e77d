-- ===== src/PortRegister/Ports.antt =====
-- The array `port_reserve` of port_register.c: the scan for a free port and the check of all ports.
use ntu_system_programming.Common.{
  ℕ, zero, suc, ◌+◌, ◌<◌, ◌≡◌, ◌≢◌, refl, Bool, none, some, List, [], ◌∷◌, arith, ap, if◌then◌else◌,
  ◌==◌, inl, inr, length, get_or, set, Bool-cases, Option-cases,
}
use ntu_system_programming.PortRegister.{take_free, check_ports, default_register_port}

-- What the scan returns when it ends at an entry.
pub record Takes (ps : List ℕ) (k : ℕ) (ps' : List ℕ) : Type 0 where
  pub inside : k < length ps
  pub was_free : get_or ps k 1 ≡ 0
  pub first : (m : ℕ) → m < k → get_or ps m 1 ≢ 0
  pub taken : ps' ≡ set ps k 1

first_taken :
    (p : ℕ) (ps : List ℕ) (k : ℕ)
    → p ≢ 0
    → ((m : ℕ) → m < k → get_or ps m 1 ≢ 0)
    → (m : ℕ) → m < suc k
    → get_or (p ∷ ps) m 1 ≢ 0
first_taken p ps k e rest zero lt = e
first_taken p ps k e rest (suc m) lt = rest m (omega arith)

pub take_free-some :
    (i j : ℕ) (ps ps' : List ℕ)
    → take_free i ps ≡ some (j, ps')
    → (k : ℕ) × (j ≡ i + k) × Takes ps k ps'
unfolding take_free
take_free-some i j [] ps' e = cc
take_free-some i j (p ∷ ps) ps' e = elim (Bool-cases (p == 0)) [
  | inl free ↦ (
    0,
    ground arith,
    record {
      inside = omega arith;
      was_free = ground arith;
      first = λ m lt. elim lt [ ];
      taken = ground arith;
    },
  )
  | inr busy ↦ elim (Option-cases (take_free (i + 1) ps)) [
    | inl full ↦ absurd (ground arith)
    | inr ((q, r), found) ↦
        let (k, at, t) = take_free-some (i + 1) q ps r found in
        (
          suc k,
          ground arith,
          record {
            inside = omega arith;
            was_free = t.was_free;
            first = first_taken p ps k (ground arith) t.first;
            taken = ground (arith, t.taken);
          },
        )
  ]
]

-- The scan fails only where no entry is free.
pub take_free-none : (i : ℕ) (ps : List ℕ) → take_free i ps ≡ none → (k : ℕ) → get_or ps k 1 ≢ 0
unfolding take_free
take_free-none i [] e k = omega arith
take_free-none i (p ∷ ps) e zero = ground arith
take_free-none i (p ∷ ps) e (suc k) = take_free-none (i + 1) ps (ground arith) k

pub length-check_ports :
    (busy : ℕ → Bool) (i : ℕ) (ps : List ℕ) → length (check_ports busy i ps) ≡ length ps
unfolding check_ports
length-check_ports busy i [] = refl
length-check_ports busy i (p ∷ ps) = ap suc (length-check_ports busy (i + 1) ps)

-- After the check an entry is 1 exactly where `bind` fails.
pub get_or-check_ports :
    (busy : ℕ → Bool) (i k : ℕ) (ps : List ℕ)
    → k < length ps
    → get_or (check_ports busy i ps) k 1
      ≡ (if busy (i + k + default_register_port + 1) then 1 else 0)
unfolding check_ports
get_or-check_ports busy i k [] lt = elim lt [ ]
get_or-check_ports busy i zero (p ∷ ps) lt =
    let e : i + 0 + 2500 + 1 ≡ i + 2500 + 1 = omega arith in rw e (ground arith)
get_or-check_ports busy i (suc k) (p ∷ ps) lt =
    let e : i + suc k + 2500 + 1 ≡ i + 1 + k + 2500 + 1 = omega arith in
    rw e (get_or-check_ports busy (i + 1) k ps (omega arith))
