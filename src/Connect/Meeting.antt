-- ===== src/Connect/Meeting.antt =====
-- connect.c against the registry of MP5/src/port_register.c: a client reaches the port that the server
-- of its name was given.
use ntu_system_programming.Common.{
  ℕ, zero, suc, ap, ◌+◌, ◌^◌, ◌<◌, ◌≤◌, ◌≡◌, refl, ◌∙◌, arith, true, false, ◌==◌, Option, none,
  some, List, [], ◌∷◌, ◌++◌, ◌>>=◌, length, take, get_or,
}
use ntu_system_programming.Common.Int.{ℤ, pos, same_int}
use ntu_system_programming.Common.Strings.{Text}
use ntu_system_programming.PortRegister.{
  Register, Memory, handle_request, answer, book_port, get_port, default_register_port,
}
use ntu_system_programming.PortRegister.Booking.{IsValid, Books}
use ntu_system_programming.PortRegister.Service.{ample, book_port_free}
use ntu_system_programming.Connect.{
  Kernel, Peer, Call, opens, connects, closes, init_server, connect_to, request_of, asked, ask_port,
  after_answer, server_start, client_start, localhost, low_port,
}

-- The bytes of one `write` as the registry reads them: one byte, then up to the size of its buffer.
unfoldable pub registry_reply : Memory → Register → Text → Option (Option ℕ × Register)
registry_reply mem s [] = handle_request mem s none []
registry_reply mem s (act ∷ name) = handle_request mem s (some act) (take 512 name)

abbrev pub registry : Memory → Register → ℤ → Peer
registry mem s junk = record {
  write = λ buf. true;
  read = λ buf. registry_reply mem s buf >>= (λ (w, s'). some w);
  junk = junk;
}

-- The kernel connects to the registry of a host.
pub record Reaches (k : Kernel) (server : Text) (fd addr : ℕ) : Type 0 where
  pub named : k.gethostbyname server ≡ some addr
  pub made : k.socket ≡ some fd
  pub connected : k.connect addr default_register_port ≡ true

abbrev pub asking : ℕ → ℕ → List Call
asking fd addr = opens fd ∷ connects fd addr default_register_port ∷ closes fd ∷ []

reached :
    (k : Kernel) (server : Text) (fd addr : ℕ)
    → Reaches k server fd addr
    → connect_to k server (pos default_register_port)
      ≡ (pos fd, opens fd ∷ connects fd addr default_register_port ∷ [])
unfolding connect_to
reached k server fd addr r = rw (connect_to, r.named, r.made, r.connected) refl

request_fits :
    (act : ℕ) (name : Text) → length name + 2 ≤ 512 → request_of act name ≡ some (act ∷ name)
unfolding request_of
request_fits act name short = ground arith

-- A port the registry answers is gone on with.
ask_port_answered :
    (peer : Peer) (act : ℕ) (name : Text) (next : ℤ → ℤ × List Call) (fd : ℕ) (calls : List Call)
    (p : ℕ)
    → length name + 2 ≤ 512
    → asked peer (act ∷ name) ≡ some (pos p)
    → ask_port peer act name next (pos fd, calls)
      ≡ some ((next (pos p)).0, (calls ++ (closes fd ∷ [])) ++ (next (pos p)).1)
unfolding ask_port after_answer same_int
ask_port_answered peer act name next fd calls p short e = rw (request_fits act name short, e) refl

answered :
    (mem : Memory) (s s' : Register) (junk : ℤ) (buf : Text) (p : ℕ)
    → p < 2 ^ 31
    → registry_reply mem s buf ≡ some (some p, s')
    → asked (registry mem s junk) buf ≡ some (pos p)
unfolding asked
answered mem s s' junk buf p small e = rw e (ground arith)

take_whole : (n : ℕ) (xs : Text) → length xs ≤ n → take n xs ≡ xs
take_whole zero [] short = refl
take_whole zero (x ∷ xs) short = absurd (omega arith)
take_whole (suc n) [] short = refl
take_whole (suc n) (x ∷ xs) short = ap (λ ys. x ∷ ys) (take_whole n xs (omega arith))

registry_reply_lem :
    (mem : Memory) (s : Register) (act : ℕ) (user : Text)
    → 0 < length user
    → length user + 2 ≤ 512
    → registry_reply mem s (act ∷ user) ≡ answer mem s act user
unfolding registry_reply handle_request
registry_reply_lem mem s act [] full short = absurd (omega arith)
registry_reply_lem mem s act (b ∷ bs) full short =
    ap (λ n. handle_request mem s (some act) n) (take_whole 512 (b ∷ bs) (omega arith))

answer_book :
    (mem : Memory) (s s' : Register) (act : ℕ) (user : Text) (p : ℕ)
    → (act == b'0') ≡ true
    → book_port mem s user ≡ some (pos p, s')
    → answer mem s act user ≡ some (some p, s')
unfolding answer
answer_book mem s s' act user p is e = rw (is, e) refl

answer_ask :
    (mem : Memory) (s : Register) (act : ℕ) (user : Text) (p : ℕ)
    → (act == b'0') ≡ false
    → (act == b'1') ≡ true
    → get_port s user ≡ some (pos p)
    → answer mem s act user ≡ some (some p, s)
unfolding answer
answer_ask mem s act user p isnt is e = rw (isnt, is, e) refl

-- On a valid register with a free port, server_start under a name is given a port and goes on to
-- listen on that very port, which 16 bits hold; from the register that leaves, client_start under the
-- name goes on to connect to it, the registry's connection closed before on both sides.
pub client_start-server_start :
    (s : Register) (user : Text) (m : ℕ)
    → IsValid s
    → get_or s.port_reserve m 1 ≡ 0
    → 0 < length user
    → length user + 2 ≤ 512
    → (k k' : Kernel) (fd addr : ℕ) (junk : ℤ) → Reaches k localhost fd addr
    → (c c' : Kernel) (server : Text) (fd' addr' : ℕ) (mem : Memory) (junk' : ℤ)
    → Reaches c server fd' addr'
    → (p : ℕ) × (s' : Register) × (registry_reply ample s (b'0' ∷ user) ≡ some (some p, s'))
      × (low_port (pos p) ≡ p)
      × (server_start k k' (registry ample s junk) user
          ≡ some ((init_server k' (pos p)).0, asking fd addr ++ (init_server k' (pos p)).1))
      × (client_start c c' (registry mem s' junk') user server
          ≡ some (
            (connect_to c' server (pos p)).0,
            asking fd' addr' ++ (connect_to c' server (pos p)).1,
          ))
      × Books s user p s'
unfolding server_start client_start
client_start-server_start s user m valid free full short k k' fd addr junk at c c' server fd' addr'
      mem junk' at' =
    let (p, s', run, b) = book_port_free valid user m free in
    let small = b.below in
    let booked =
      registry_reply_lem ample s b'0' user full short
      ∙ answer_book ample s s' b'0' user p refl run in
    let known =
      registry_reply_lem mem s' b'1' user full short
      ∙ answer_ask mem s' b'1' user p refl refl b.recorded in
    (
      p,
      s',
      booked,
      omega arith,
      rw (reached k localhost fd addr at) (
          ask_port_answered (registry ample s junk) b'0' user (λ reg. init_server k' reg) fd
            (opens fd ∷ connects fd addr default_register_port ∷ []) p short
            (answered ample s s' junk (b'0' ∷ user) p (omega arith) booked)),
      rw (reached c server fd' addr' at') (
          ask_port_answered (registry mem s' junk') b'1' user (λ reg. connect_to c' server reg) fd'
            (opens fd' ∷ connects fd' addr' default_register_port ∷ []) p short
            (answered mem s' s' junk' (b'1' ∷ user) p (omega arith) known)),
      b,
    )
