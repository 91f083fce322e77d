-- ===== src/Connect.antt =====
-- How a csiebox server and its clients reach each other, MP5/src/connect.c (MP2/src/connect.c is the
-- same code): init_server, connect_to, server_start and client_start. Each function is given what the
-- system calls return and gives its result with the calls it made; a result of -1 is `negsuc 0`.
pub mod Descriptors
pub mod Meeting
mod Tests
use ntu_system_programming.Common.{
  ℕ, ◌+◌, ◌-◌, ◌%◌, ◌^◌, Bool, Option, none, some, List, [], ◌∷◌, ◌++◌, ltb, length, if◌then◌else◌,
  ◌>>=◌,
}
use ntu_system_programming.Common.Int.{ℤ, pos, negsuc, same_int, int_of_word}
use ntu_system_programming.Common.Strings.{Text}
use ntu_system_programming.PortRegister.{default_register_port}

-- What the kernel answers while one socket is set up: the descriptor of `socket`, the address of
-- `gethostbyname`, and whether `bind`, `listen` and `connect` succeed.
pub record Kernel : Type 0 where
  pub socket : Option ℕ
  pub gethostbyname : Text → Option ℕ
  pub bind : ℕ → Bool
  pub listen : Bool
  pub connect : ℕ → ℕ → Bool

pub data Call : Type 0 where
  opens : ℕ → Call
  binds : ℕ → ℕ → Call
  listens : ℕ → Call
  connects : ℕ → ℕ → ℕ → Call
  closes : ℕ → Call

-- `htons` of an int keeps its low 16 bits.
abbrev pub low_port : ℤ → ℕ
low_port (pos p) = p % 2 ^ 16
low_port (negsuc n) = (2 ^ 32 - 1 - n) % 2 ^ 16

unfoldable pub init_server : Kernel → ℤ → ℤ × List Call
init_server k port = elim k.socket [
  | none ↦ (negsuc 0, [])
  | some fd ↦
      if k.bind (low_port port)
      then if k.listen
        then (pos fd, opens fd ∷ binds fd (low_port port) ∷ listens fd ∷ [])
        else (negsuc 0, opens fd ∷ binds fd (low_port port) ∷ listens fd ∷ closes fd ∷ [])
      else (negsuc 0, opens fd ∷ binds fd (low_port port) ∷ closes fd ∷ [])
]

unfoldable pub connect_to : Kernel → Text → ℤ → ℤ × List Call
connect_to k servername port = elim (k.gethostbyname servername) [
  | none ↦ (negsuc 0, [])
  | some addr ↦ elim k.socket [
    | none ↦ (negsuc 0, [])
    | some fd ↦
        if k.connect addr (low_port port)
        then (pos fd, opens fd ∷ connects fd addr (low_port port) ∷ [])
        else (negsuc 0, opens fd ∷ connects fd addr (low_port port) ∷ closes fd ∷ [])
  ]
]

abbrev pub register_protocol_buf_size : ℕ
register_protocol_buf_size = 512

-- `sprintf(buf, "0%s", name)`: none where the bytes and their NUL do not fit.
unfoldable pub request_of : ℕ → Text → Option Text
request_of act name =
    if ltb (length name + 2) (register_protocol_buf_size + 1) then some (act ∷ name) else none

-- What `read` makes of `reg`: the word that came, what was there before where the peer has closed,
-- and none on an error.
pub record Peer : Type 0 where
  pub write : Text → Bool
  pub read : Text → Option (Option ℕ)
  pub junk : ℤ

unfoldable pub asked : Peer → Text → Option ℤ
asked peer buf =
    if peer.write buf
    then elim (peer.read buf) [
      | none ↦ none
      | some none ↦ some peer.junk
      | some (some w) ↦ some (int_of_word w)
    ]
    else none

-- The port that came, or the failure of the exchange; `before` are the calls so far.
unfoldable pub after_answer : List Call → Option ℤ → (ℤ → ℤ × List Call) → ℤ × List Call
after_answer before none next = (negsuc 0, before)
after_answer before (some reg) next =
    let (ret, more) = next reg in
    if same_int reg (negsuc 0) then (negsuc 0, before) else (ret, before ++ more)

-- Behind the connection to the registry, which `connect_to` gave: the request, the answer and the
-- `close`. `none` is a name that is too long for the buffer of the request.
unfoldable pub ask_port :
    Peer → ℕ → Text → (ℤ → ℤ × List Call) → ℤ × List Call → Option (ℤ × List Call)
unfolding request_of asked after_answer
ask_port peer act name next (negsuc n, calls) = some (negsuc 0, calls)
ask_port peer act name next (pos fd, calls) =
    request_of act name
    >>= (λ buf. some (after_answer (calls ++ (closes fd ∷ [])) (asked peer buf) next))

abbrev pub localhost : Text
localhost = b'l' ∷ b'o' ∷ b'c' ∷ b'a' ∷ b'l' ∷ b'h' ∷ b'o' ∷ b's' ∷ b't' ∷ []

-- `user` is what `getenv("USER")` gives; `k` is the kernel for the registry's connection and `k'` for
-- the socket behind it.
unfoldable pub server_start : Kernel → Kernel → Peer → Text → Option (ℤ × List Call)
unfolding ask_port connect_to init_server
server_start k k' peer user =
    ask_port peer b'0' user (λ reg. init_server k' reg)
      (connect_to k localhost (pos default_register_port))

unfoldable pub client_start : Kernel → Kernel → Peer → Text → Text → Option (ℤ × List Call)
unfolding ask_port connect_to
client_start k k' peer username server =
    ask_port peer b'1' username (λ reg. connect_to k' server reg)
      (connect_to k server (pos default_register_port))
