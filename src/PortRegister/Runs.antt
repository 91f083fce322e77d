-- ===== src/PortRegister/Runs.antt =====
-- The loop of `main` of port_register.c: every round, from the start on, ends in a valid register.
use ntu_system_programming.Common.{
  ℕ, ◌≡◌, refl, Option, none, some, List, [], ◌∷◌, ◌==◌, ◌>>=◌, inl, inr, Bool-cases,
}
use ntu_system_programming.Common.Int.{ℤ, pos, negsuc, same_int}
use ntu_system_programming.HashTable.Lookup
use ntu_system_programming.HashTable.Lookup.{view, get-view}
use ntu_system_programming.PortRegister.{
  Register, Memory, Event, request, timeout, get_port, web_port, answer, handle_request,
  get_hash_code, serve, htonl, word_of_int,
}
use ntu_system_programming.PortRegister.Booking.{IsValid}
use ntu_system_programming.PortRegister.Service.{book_port-IsValid}
use ntu_system_programming.PortRegister.Cleaning.{clean_port_reserve_lem}

-- What the registry answers for a name: its port, or -1.
abbrev port_of : Register → List ℕ → ℤ
port_of s name = elim (view s.record_hash (get_hash_code name)) [
  | none ↦ negsuc 0
  | some x ↦ pos x.port
]

pub get_port_lem :
    (s : Register) (name : List ℕ) → IsValid s → get_port s name ≡ some (port_of s name)
unfolding get_port
get_port_lem s name valid = rw (get-view (get_hash_code name) valid.table) refl

web_port-IsValid :
    (mem : Memory) (s : Register) (name : List ℕ)
    → IsValid s
    → (r : ℕ × Register) × (web_port mem s name ≡ some r) × IsValid r.1
unfolding web_port
web_port-IsValid mem s name valid = elim (Bool-cases (same_int (port_of s name) (negsuc 0))) [
  | inl unknown ↦
      let (r, run, good) = book_port-IsValid valid name mem in
      ((htonl (word_of_int r.0), r.1), rw (get_port_lem s name valid, unknown, run), good)
  | inr known ↦
      ((htonl (word_of_int (port_of s name)), s), rw (get_port_lem s name valid, known), valid)
]

answer-IsValid :
    (mem : Memory) (s : Register) (act : ℕ) (name : List ℕ)
    → IsValid s
    → (r : Option ℕ × Register) × (answer mem s act name ≡ some r) × IsValid r.1
unfolding answer
answer-IsValid mem s act name valid = elim (Bool-cases (act == b'0')) [
  | inl book ↦
      let (r, run, good) = book_port-IsValid valid name mem in
      ((some (word_of_int r.0), r.1), rw (book, run), good)
  | inr other ↦ elim (Bool-cases (act == b'1')) [
    | inl ask ↦ (
      (some (word_of_int (port_of s name)), s),
      rw (other, ask, get_port_lem s name valid),
      valid,
    )
    | inr other' ↦ elim (Bool-cases (act == b'2')) [
      | inl web ↦
          let (r, run, good) = web_port-IsValid mem s name valid in
          ((some r.0, r.1), rw (other, other', web, run), good)
      | inr bad ↦ ((none, s), rw (other, other', bad), valid)
    ]
  ]
]

handle_request-IsValid :
    (mem : Memory) (s : Register) (act : Option ℕ) (name : List ℕ)
    → IsValid s
    → (r : Option ℕ × Register) × (handle_request mem s act name ≡ some r) × IsValid r.1
unfolding handle_request
handle_request-IsValid mem s none name valid = ((none, s), refl, valid)
handle_request-IsValid mem s (some act) [] valid = ((none, s), refl, valid)
handle_request-IsValid mem s (some act) (b ∷ bs) valid = answer-IsValid mem s act (b ∷ bs) valid

-- A round of the loop ends and keeps the register valid, whatever the request, the memory and the
-- ports in use.
pub serve-IsValid :
    (s : Register) (e : Event) → IsValid s → (s' : Register) × (serve s e ≡ some s') × IsValid s'
unfolding serve
serve-IsValid s (request mem act name) valid =
    let (r, run, good) = handle_request-IsValid mem s act name valid in (r.1, rw run, good)
serve-IsValid s (timeout busy) valid =
    let (s', run, c) = clean_port_reserve_lem busy s valid in (s', run, c.valid')

-- The rounds of a run.
unfoldable pub serve_all : Register → List Event → Option Register
serve_all s [] = some s
serve_all s (e ∷ es) = serve s e >>= (λ s'. serve_all s' es)
