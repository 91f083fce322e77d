-- ===== src/Connect/Descriptors.antt =====
-- The descriptors that the functions of connect.c leave open.
use ntu_system_programming.Common.{
  ℕ, ◌≡◌, refl, arith, none, some, List, [], ◌∷◌, ◌++◌, ◌∙◌, ◌⊎◌, Option, ◌==◌, if◌then◌else◌,
  Bool-cases, inl, inr, Option-cases,
}
use mathlib.Core.Path.{subst}
use ntu_system_programming.Common.Int.{ℤ, pos, negsuc, same_int}
use ntu_system_programming.Common.Strings.{Text}
use ntu_system_programming.PortRegister.{default_register_port}
use ntu_system_programming.Connect.{
  Kernel, Peer, Call, opens, binds, listens, connects, closes, init_server, connect_to, request_of,
  asked, ask_port, server_start, client_start, low_port, localhost, after_answer,
}

-- `close` of one that is open.
unfoldable pub closed : ℕ → List ℕ → List ℕ
closed fd [] = []
closed fd (q ∷ fds) = let rest = closed fd fds in if fd == q then fds else q ∷ rest

-- The descriptors open after the calls, of those that were open before.
unfoldable pub open_after : List ℕ → List Call → List ℕ
open_after fds [] = fds
open_after fds (opens fd ∷ cs) = open_after (fd ∷ fds) cs
open_after fds (binds fd p ∷ cs) = open_after fds cs
open_after fds (listens fd ∷ cs) = open_after fds cs
open_after fds (connects fd a p ∷ cs) = open_after fds cs
open_after fds (closes fd ∷ cs) = open_after (closed fd fds) cs

abbrev pub left_open : List ℕ → ℤ → List ℕ
left_open fds (pos fd) = fd ∷ fds
left_open fds (negsuc n) = fds

-- The result is a descriptor that the calls opened and the only one they leave open, or -1 and they
-- leave none.
unfoldable pub Settles : ℤ × List Call → Type 0
Settles (ret, calls) =
    ((fds : List ℕ) → open_after fds calls ≡ left_open fds ret) × ((n : ℕ) → ret ≡ negsuc n → n ≡ 0)

closed_head : (fd : ℕ) (fds : List ℕ) → closed fd (fd ∷ fds) ≡ fds
unfolding closed
closed_head fd fds = ground arith

init_server-Settles : (k : Kernel) (port : ℤ) → Settles (init_server k port)
unfolding Settles init_server open_after
init_server-Settles k port = elim (Option-cases (k.socket)) [
  | inl e ↦ rw e (λ fds. refl, λ n e'. ground arith)
  | inr (fd, e) ↦ elim (Bool-cases (k.bind (low_port port))) [
    | inl b ↦ elim (Bool-cases (k.listen)) [
      | inl l ↦ rw (e, b, l) (λ fds. refl, λ n e'. ground arith)
      | inr l ↦ rw (e, b, l) (λ fds. closed_head fd fds, λ n e'. ground arith)
    ]
    | inr b ↦ rw (e, b) (λ fds. closed_head fd fds, λ n e'. ground arith)
  ]
]

connect_to-Settles :
    (k : Kernel) (servername : Text) (port : ℤ) → Settles (connect_to k servername port)
unfolding Settles connect_to open_after
connect_to-Settles k servername port = elim (Option-cases (k.gethostbyname servername)) [
  | inl e ↦ rw (connect_to, e) (λ fds. refl, λ n e'. ground arith)
  | inr (addr, a) ↦ elim (Option-cases (k.socket)) [
    | inl e ↦ rw (connect_to, a, e) (λ fds. refl, λ n e'. ground arith)
    | inr (fd, e) ↦ elim (Bool-cases (k.connect addr (low_port port))) [
      | inl c ↦ rw (connect_to, a, e, c) (λ fds. refl, λ n e'. ground arith)
      | inr c ↦ rw (connect_to, a, e, c) (λ fds. closed_head fd fds, λ n e'. ground arith)
    ]
  ]
]

open_after-append :
    (cs cs' : List Call) (fds : List ℕ)
    → open_after fds (cs ++ cs') ≡ open_after (open_after fds cs) cs'
unfolding open_after
open_after-append [] cs' fds = refl
open_after-append (opens fd ∷ cs) cs' fds = open_after-append cs cs' (fd ∷ fds)
open_after-append (binds fd p ∷ cs) cs' fds = open_after-append cs cs' fds
open_after-append (listens fd ∷ cs) cs' fds = open_after-append cs cs' fds
open_after-append (connects fd a p ∷ cs) cs' fds = open_after-append cs cs' fds
open_after-append (closes fd ∷ cs) cs' fds = open_after-append cs cs' (closed fd fds)

-- The registry's connection is closed on every way out.
closed-Settles :
    (fd : ℕ) (calls : List Call)
    → Settles (pos fd, calls)
    → Settles (negsuc 0, calls ++ (closes fd ∷ []))
unfolding Settles open_after
closed-Settles fd calls s = (
  λ fds. open_after-append calls (closes fd ∷ []) fds ∙ rw (s.0 fds) (closed_head fd fds),
  λ n e. ground arith,
)

behind-Settles :
    (calls : List Call) (r : ℤ × List Call)
    → Settles (negsuc 0, calls)
    → Settles r
    → Settles (r.0, calls ++ r.1)
unfolding Settles
behind-Settles calls r s t =
    (λ fds. open_after-append calls (r.1) fds ∙ rw (s.0 fds) (t.0 fds), t.1)

asked_port-Settles :
    (before : List Call) (answer : Option ℤ) (next : ℤ → ℤ × List Call)
    → Settles (negsuc 0, before)
    → ((reg : ℤ) → Settles (next reg))
    → Settles (after_answer before answer next)
unfolding after_answer
asked_port-Settles before none next s t = s
asked_port-Settles before (some reg) next s t = elim (Bool-cases (same_int reg (negsuc 0))) [
  | inl e ↦ rw e s
  | inr e ↦ rw e (behind-Settles before (next reg) s (t reg))
]

failed-Settles : (n : ℕ) (calls : List Call) → Settles (negsuc n, calls) → Settles (negsuc 0, calls)
unfolding Settles
failed-Settles n calls s = (s.0, λ m e. ground arith)

ask_port-Settles :
    (peer : Peer) (act : ℕ) (name : Text) (next : ℤ → ℤ × List Call) (conn r : ℤ × List Call)
    → Settles conn
    → ((reg : ℤ) → Settles (next reg))
    → ask_port peer act name next conn ≡ some r
    → Settles r
unfolding ask_port
ask_port-Settles peer act name next (negsuc n, calls) r s t e =
    let same : (negsuc 0, calls) ≡ r = cc in subst Settles same (failed-Settles n calls s)
ask_port-Settles peer act name next (pos fd, calls) r s t e =
    elim (Option-cases (request_of act name)) [
      | inl long ↦ absurd (ground (arith, long, e))
      | inr (buf, fits) ↦
          let after =
            asked_port-Settles (calls ++ (closes fd ∷ [])) (asked peer buf) next
              (closed-Settles fd calls s) t in
          subst Settles (ground (arith, fits, e)) after
    ]

-- Whatever the system calls and the registry answer, both functions return a descriptor that is
-- the only one they leave open, or -1 and leave none open.
pub start-Settles :
    (k k' : Kernel) (peer : Peer) (name server : Text) (r : ℤ × List Call)
    → ((server_start k k' peer name ≡ some r) ⊎ (client_start k k' peer name server ≡ some r))
    → Settles r
unfolding server_start client_start
start-Settles k k' peer name server r (inl e) =
    ask_port-Settles peer b'0' name (λ reg. init_server k' reg)
      (connect_to k localhost (pos default_register_port)) r
      (connect_to-Settles k localhost (pos default_register_port))
      (λ reg. init_server-Settles k' reg) e
start-Settles k k' peer name server r (inr e) =
    ask_port-Settles peer b'1' name (λ reg. connect_to k' server reg)
      (connect_to k server (pos default_register_port)) r
      (connect_to-Settles k server (pos default_register_port))
      (λ reg. connect_to-Settles k' server reg) e
