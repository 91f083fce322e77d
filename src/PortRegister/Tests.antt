-- ===== src/PortRegister/Tests.antt =====
-- Runs of port_register.c, and its theorems at concrete registers.
use ntu_system_programming.Common.{
  ℕ, ◌≡◌, ◌≢◌, refl, sym, ◌∙◌, none, some, List, [], ◌∷◌, arith, ◌>>=◌, ◌==◌, get_or-replicate,
  replicate, length-replicate,
}
use ntu_system_programming.Common.Int.{ℤ, pos, same_int}
use ntu_system_programming.HashTable.{
  Hash, slot, init_hash, put_into_hash, get_from_hash, del_from_hash, find,
}
use ntu_system_programming.HashTable.Lookup.{view, init-IsValid}
use ntu_system_programming.PortRegister.{
  Record, Register, Event, request, timeout, book_port, get_port, web_port, handle_request, serve,
  start, clean_port_reserve, get_hash_code, port_reserve_size,
}
use ntu_system_programming.PortRegister.Booking.{IsValid, Books}
use ntu_system_programming.PortRegister.Service.{ample, book_port_free}
use ntu_system_programming.PortRegister.Cleaning.{Cleans, clean_port_reserve_lem}

abbrev empty_table : Hash Record
empty_table = record { node = some (replicate 100 []); n = 100 }

view-empty_table : (q : ℤ) → view empty_table q ≡ none
unfolding view find
view-empty_table q = rw get_or-replicate

none≢some : {r : Record} → none ≢ some r
none≢some e = cc

abbrev pub all_ports : ℕ → Register
all_ports p = record { record_hash = empty_table; port_reserve = replicate port_reserve_size p }

pub all_ports-IsValid : (p : ℕ) → IsValid (all_ports p)
all_ports-IsValid p = record {
  table = init-IsValid 100 (omega arith);
  size = length-replicate port_reserve_size p;
  held = λ q r e. absurd (none≢some (sym (view-empty_table q) ∙ e));
  apart = λ q q' r r' e e' same. absurd (none≢some (sym (view-empty_table q) ∙ e));
}

abbrev pub cat : List ℕ
cat = b'c' ∷ b'a' ∷ b't' ∷ []

program : Unit {0}
unfolding slot init_hash put_into_hash get_from_hash del_from_hash same_int get_hash_code book_port
    get_port web_port handle_request serve start clean_port_reserve
program = tt

-- A server books, a client asks for its port, a second server gets the next one.
booking_session :
    (serve (all_ports 0) (request ample (some b'0') cat) >>= λ s1.
    serve s1 (request ample (some b'0') (b'd' ∷ b'o' ∷ b'g' ∷ [])) >>= λ s2.
    handle_request ample s2 (some b'1') cat >>= λ (w, s). some w)
    ≡ some (some 2501)
unfolding program
booking_session = refl

book_port_free_example :
    (p : ℕ) × (s' : Register) × (book_port ample (all_ports 0) cat ≡ some (pos p, s'))
    × Books (all_ports 0) cat p s'
book_port_free_example = book_port_free (all_ports-IsValid 0) cat 7 (get_or-replicate 512 7 0)

clean_port_reserve_lem_example :
    (s' : Register) × (clean_port_reserve (λ p. p == 2501) (all_ports 0) ≡ some s')
    × Cleans (λ p. p == 2501) (all_ports 0) s'
clean_port_reserve_lem_example =
    clean_port_reserve_lem (λ p. p == 2501) (all_ports 0) (all_ports-IsValid 0)

abbrev rounds : List Event
rounds =
    request ample (some b'0') cat
    ∷ timeout (λ p. p == 2501)
    ∷ request ample (some b'2') cat
    ∷ request ample none []
    ∷ []
