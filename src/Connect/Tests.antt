-- ===== src/Connect/Tests.antt =====
-- Runs of connect.c, and its theorems at concrete inputs.
use ntu_system_programming.Common.{
  ℕ, ◌≡◌, refl, arith, true, false, some, List, [], ◌∷◌, ◌++◌, inl, get_or-replicate,
}
use ntu_system_programming.Common.Int.{pos, negsuc, same_int}
use ntu_system_programming.Common.Strings.{Text}
use ntu_system_programming.PortRegister.{Register}
use ntu_system_programming.PortRegister.Booking.{Books}
use ntu_system_programming.PortRegister.Tests.{all_ports, all_ports-IsValid, cat}
use ntu_system_programming.PortRegister.Service.{ample}
use ntu_system_programming.Connect.{
  Kernel, Peer, Call, opens, binds, connects, closes, init_server, connect_to, server_start,
  client_start, localhost, low_port,
}
use ntu_system_programming.Connect.Descriptors.{Settles, start-Settles}
use ntu_system_programming.Connect.Meeting.{
  Reaches, registry_reply, registry, asking, client_start-server_start,
}

abbrev kernel : ℕ → Kernel
kernel fd = record {
  socket = some fd;
  gethostbyname = λ name. some 127;
  bind = λ p. true;
  listen = true;
  connect = λ addr p. true;
}

-- The port is taken by another program.
abbrev taken : Kernel
taken = record (kernel 4) { bind = λ p. false }

abbrev told : Peer
told = record { write = λ buf. true; read = λ buf. some (some 2501); junk = pos 0 }

kernel-Reaches : (fd : ℕ) (server : Text) → Reaches (kernel fd) server fd 127
kernel-Reaches fd server = record { named = refl; made = refl; connected = refl }

abbrev refused : List Call
refused = opens 3 ∷ connects 3 127 2500 ∷ closes 3 ∷ opens 4 ∷ binds 4 2501 ∷ closes 4 ∷ []

bind_fails : server_start (kernel 3) taken told cat ≡ some (negsuc 0, refused)
unfolding server_start same_int
bind_fails = refl

start-Settles_example : Settles (negsuc 0, refused)
start-Settles_example =
    start-Settles (kernel 3) taken told cat localhost (negsuc 0, refused) (inl bind_fails)

client_start-server_start_example :
    (p : ℕ) × (s' : Register) × (registry_reply ample (all_ports 0) (b'0' ∷ cat)
      ≡ some (some p, s'))
    × (low_port (pos p) ≡ p)
    × (server_start (kernel 3) (kernel 4) (registry ample (all_ports 0) (pos 7)) cat
        ≡ some (
          (init_server (kernel 4) (pos p)).0,
          asking 3 127 ++ (init_server (kernel 4) (pos p)).1,
        ))
    × (client_start (kernel 5) (kernel 6) (registry ample s' (pos 7)) cat localhost
        ≡ some (
          (connect_to (kernel 6) localhost (pos p)).0,
          asking 5 127 ++ (connect_to (kernel 6) localhost (pos p)).1,
        ))
    × Books (all_ports 0) cat p s'
client_start-server_start_example =
    client_start-server_start (all_ports 0) cat 7 (all_ports-IsValid 0) (get_or-replicate 512 7 0)
      (omega arith) (omega arith) (kernel 3) (kernel 4) 3 127 (pos 7) (kernel-Reaches 3 localhost)
      (kernel 5) (kernel 6) localhost 5 127 ample (pos 7) (kernel-Reaches 5 localhost)
