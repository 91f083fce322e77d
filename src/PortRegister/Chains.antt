-- ===== src/PortRegister/Chains.antt =====
-- A write of a port through the record pointer, in one chain of the table.
use ntu_system_programming.Common.{ℕ, ◌≡◌, refl, some, [], ◌∷◌, arith, if◌then◌else◌, ◌>>=◌}
use ntu_system_programming.Common.Int.{ℤ, same_int, same_int_iff}
use ntu_system_programming.HashTable.{Chain, find}
use ntu_system_programming.HashTable.Chains.{count}
use ntu_system_programming.PortRegister.{Record, set_port}

pub count-set_port : (q k : ℤ) (p : ℕ) (c : Chain Record) → count q (set_port k p c) ≡ count q c
unfolding count set_port
count-set_port q k p [] = refl
count-set_port q k p (x ∷ c) = ground (arith, count-set_port q k p c)

pub find-set_port :
    (q k : ℤ) (p : ℕ) (c : Chain Record)
    → find (set_port k p c) q
      ≡ (if same_int k q then find c q >>= (λ r. some (record r { port = p })) else find c q)
unfolding find set_port
find-set_port q k p [] = ground arith
find-set_port q k p (x ∷ c) = ground (
  arith,
  find-set_port q k p c,
  same_int_iff x.hash_code k,
  same_int_iff x.hash_code q,
  same_int_iff k q,
)
