-- ===== src/PortRegister.antt =====
-- The port registry, MP5/src/port_register.c: which server name holds which port.
-- Bytes are numbers below 256. What the operating system decides comes as arguments: `busy` says
-- for a port whether `bind` to it fails, `Memory` whether each `malloc` succeeds, and a request is
-- what the two reads return. An int result of -1 is `negsuc 0`.
pub mod Ports
pub mod Chains
pub mod Booking
pub mod Service
pub mod CleanChain
pub mod Cleaning
pub mod Runs
pub mod Tests
use Prim.Native.Nat.{◌/◌}
use ntu_system_programming.Common.{
  ℕ, zero, suc, ◌+◌, ◌-◌, ◌*◌, ◌%◌, ◌^◌, Bool, true, false, Option, none, some, List, [], ◌∷◌, map,
  ltb, ◌==◌, if◌then◌else◌, ◌>>=◌, get_or, set, length, replicate,
}
use ntu_system_programming.Common.Int.{ℤ, pos, negsuc, same_int, int_of_word}
use ntu_system_programming.HashTable.{
  Node, Chain, Hash, init_hash, locate, store, put_into_hash, get_from_hash, del_from_hash,
}
use ntu_system_programming.HashTable.Lookup.{buckets}

pub record Record : Type 0 where
  pub name : List ℕ
  pub port : ℕ

pub record Register : Type 0 where
  pub record_hash : Hash Record
  pub port_reserve : List ℕ

pub record Memory : Type 0 where
  pub for_record : Bool
  pub for_node : Bool

abbrev pub port_reserve_size : ℕ
port_reserve_size = 512

abbrev pub default_register_port : ℕ
default_register_port = 2500

-- `(int)name[i]` as a 32-bit pattern: `char` is signed.
abbrev pub sign_extend : ℕ → ℕ
sign_extend b = if ltb b 128 then b else b + (2 ^ 32 - 256)

-- `code = code * code + name[i]` in 32 bits, which wraps in practice.
unfoldable pub hash_from : ℕ → List ℕ → ℕ
hash_from code [] = code
hash_from code (b ∷ bs) = hash_from ((code * code + sign_extend b) % 2 ^ 32) bs

unfoldable pub get_hash_code : List ℕ → ℤ
unfolding hash_from
get_hash_code name = int_of_word (hash_from 1 name)

-- The scan of `get_next_port` from index `i`: the index of the first free entry, and the array
-- with that entry taken.
unfoldable pub take_free : ℕ → List ℕ → Option (ℕ × List ℕ)
take_free i [] = none
take_free i (p ∷ ps) =
    let rest = take_free (i + 1) ps in
    if p == 0 then some (i, 1 ∷ ps) else rest >>= (λ (j, ps'). some (j, p ∷ ps'))

unfoldable pub get_next_port : Register → Option (ℕ × Register)
unfolding take_free
get_next_port s =
    take_free 0 s.port_reserve
    >>= (λ (i, ps). some (i + default_register_port + 1, record s { port_reserve = ps }))

-- `strncpy` of `size` bytes: what stands behind a NUL is cleared.
unfoldable pub strncpy : List ℕ → List ℕ
strncpy [] = []
strncpy (b ∷ bs) = if b == 0 then 0 ∷ map (λ _. 0) bs else b ∷ strncpy bs

-- `r->port = port` through the pointer that `get_from_hash` gave.
unfoldable pub set_port : ℤ → ℕ → Chain Record → Chain Record
set_port code p [] = []
set_port code p (x ∷ c) =
    if same_int x.hash_code code
    then record x { contain = record (x.contain) { port = p } } ∷ c
    else x ∷ set_port code p c

-- The branch of `book_port` for a name with no record.
unfoldable pub add_record : Memory → Register → List ℕ → ℤ → ℕ → Option (ℤ × Register)
unfolding strncpy
add_record mem s name code p =
    if mem.for_record
    then put_into_hash mem.for_node s.record_hash (record { name = strncpy name; port = p }) code
      >>= (λ (done, h). some (pos p, record s { record_hash = h }))
    else some (negsuc 0, s)

-- The branch for a name that has one.
unfoldable pub renew_record : Register → ℤ → ℕ → Option (ℤ × Register)
unfolding set_port
renew_record s code p = locate s.record_hash code >>= (λ (i, c).
    some (pos p, record s { record_hash = store s.record_hash i (set_port code p c) }))

unfoldable pub book_port : Memory → Register → List ℕ → Option (ℤ × Register)
unfolding get_next_port add_record renew_record
book_port mem s name =
    let code = get_hash_code name in
    get_from_hash s.record_hash code >>= (λ r. elim (get_next_port s) [
      | none ↦ some (negsuc 0, s)
      | some (p, s') ↦ elim r [
        | none ↦ add_record mem s' name code p
        | some _ ↦ renew_record s' code p
      ]
    ])

unfoldable pub get_port : Register → List ℕ → Option ℤ
get_port s name =
    get_from_hash s.record_hash (get_hash_code name)
    >>= (λ r. some (elim r [ none ↦ negsuc 0 | some x ↦ pos (x.port) ]))

-- An int as the 32-bit word that `write` sends, and `htonl` on a little-endian machine.
abbrev pub word_of_int : ℤ → ℕ
word_of_int (pos n) = n
word_of_int (negsuc n) = 2 ^ 32 - 1 - n

unfoldable pub htonl : ℕ → ℕ
htonl w = w % 256 * 2 ^ 24 + w / 256 % 256 * 2 ^ 16 + w / 2 ^ 16 % 256 * 256 + w / 2 ^ 24 % 256

unfoldable pub web_port : Memory → Register → List ℕ → Option (ℕ × Register)
unfolding book_port get_port htonl
web_port mem s name = get_port s name >>= (λ ret.
    (if same_int ret (negsuc 0) then book_port mem s name else some (ret, s))
    >>= (λ (r, s'). some (htonl (word_of_int r), s')))

-- The `switch` of `handle_request`: the word that is sent back, `none` for a bad protocol.
unfoldable pub answer : Memory → Register → ℕ → List ℕ → Option (Option ℕ × Register)
unfolding book_port get_port web_port
answer mem s act name =
    if act == b'0'
    then book_port mem s name >>= (λ (r, s'). some (some (word_of_int r), s'))
    else if act == b'1'
    then get_port s name >>= (λ r. some (some (word_of_int r), s))
    else if act == b'2'
    then web_port mem s name >>= (λ (w, s'). some (some w, s'))
    else some (none, s)

-- The first read returns no byte or one, the second the bytes of the name.
unfoldable pub handle_request : Memory → Register → Option ℕ → List ℕ → Option (Option ℕ × Register)
unfolding answer
handle_request mem s none name = some (none, s)
handle_request mem s (some act) [] = some (none, s)
handle_request mem s (some act) (b ∷ bs) = answer mem s act (b ∷ bs)

-- The loop of `check_port_reserve` from index `i`.
unfoldable pub check_ports : (ℕ → Bool) → ℕ → List ℕ → List ℕ
check_ports busy i [] = []
check_ports busy i (p ∷ ps) =
    let state : ℕ = if busy (i + default_register_port + 1) then 1 else 0 in
    (if state == p then p else state) ∷ check_ports busy (i + 1) ps

unfoldable pub check_port_reserve : (ℕ → Bool) → Register → Register
unfolding check_ports
check_port_reserve busy s = record s { port_reserve = check_ports busy 0 s.port_reserve }

-- One round of the inner loop of `clean_port_reserve`. The next node was read before the deletion.
unfoldable pub clean_node : (ℕ → Bool) → Register → Node Record → Option Register
clean_node busy s x =
    let port = x.contain.port in
    let gone = del_from_hash s.record_hash x.hash_code >>= (λ (r, h). some (record {
      record_hash = h;
      port_reserve = set s.port_reserve (port - 1 - default_register_port) 0;
    })) in
    if busy port then some s else gone

unfoldable pub clean_chain : (ℕ → Bool) → Register → Chain Record → Option Register
unfolding clean_node
clean_chain busy s [] = some s
clean_chain busy s (x ∷ c) = clean_node busy s x >>= (λ s'. clean_chain busy s' c)

-- The outer loop, with the buckets that are left to visit; each chain is read when it is reached.
unfoldable pub clean_buckets : (ℕ → Bool) → ℕ → ℕ → Register → Option Register
unfolding clean_chain
clean_buckets busy zero i s = some s
clean_buckets busy (suc left) i s =
    clean_chain busy s (get_or (buckets s.record_hash) i [])
    >>= (λ s'. clean_buckets busy left (i + 1) s')

unfoldable pub clean_port_reserve : (ℕ → Bool) → Register → Option Register
unfolding clean_buckets check_port_reserve
clean_port_reserve busy s =
    clean_buckets busy s.record_hash.n 0 s >>= (λ s'. some (check_port_reserve busy s'))

-- What `main` does before its loop; the program exits where `init_hash` fails.
unfoldable pub start : Bool → (ℕ → Bool) → Option Register
start room busy =
    let (done, h) = init_hash room (record { node = none; n = 0 }) (pos 100) in
    if done
    then some (
        check_port_reserve busy
          (record { record_hash = h; port_reserve = replicate port_reserve_size 0 }))
    else none

-- A round of the loop of `main`: a connection, or a timeout of `select`.
pub data Event : Type 0 where
  request : Memory → Option ℕ → List ℕ → Event
  timeout : (ℕ → Bool) → Event

unfoldable pub serve : Register → Event → Option Register
unfolding handle_request clean_port_reserve
serve s (request mem act name) = handle_request mem s act name >>= (λ (w, s'). some s')
serve s (timeout busy) = clean_port_reserve busy s
