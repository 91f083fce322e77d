-- ===== src/BoxServer/Loop/Touched.antt =====
-- What a request leaves of the table `client`: only the entry of its own connection changes.
use ntu_system_programming.Common.{
  ℕ, ◌≡◌, ◌≢◌, ◌⊎◌, refl, arith, Bool, true, false, none, some, if◌then◌else◌, Bool-cases, inl, inr,
  Option-cases, ◌==◌,
}
use mathlib.Core.Path.{subst}
use ntu_system_programming.BoxServer.{
  Text, Header, World, Server, Result, Login, complete_message, recv_message, same_text,
}
use ntu_system_programming.BoxServer.Accounts.{login, get_account_info, logout}
use ntu_system_programming.BoxServer.Requests.{
  on_login, on_sync_meta, on_rm, switch, handle_request, answer_busy,
}
use ntu_system_programming.BoxServer.Loop.{flag}

-- The request on a connection is a login.
unfoldable pub is_login : World → Text → Bool
is_login w stream =
    let (came, bytes, stream') = recv_message (w.header_size) stream in
    let h = w.decode_header bytes in
    if came then if h.magic == 144 then h.op == 0 else false else false

-- Only the entry of `fd` may change, to none where the client has gone, and to a fresh one by a login.
pub record Touches (s : Server) (fd : ℕ) (logs_in : Bool) (s' : Server) : Type 0 where
  pub others : (q : ℕ) → fd ≢ q → flag s' q ≡ flag s q
  pub own :
      (flag s' fd ≡ flag s fd)
      ⊎ ((flag s' fd ≡ none) ⊎ ((flag s' fd ≡ some false) × (logs_in ≡ true)))

same-Touches : (s : Server) (fd : ℕ) (logs_in : Bool) → Touches s fd logs_in s
same-Touches s fd logs_in = record { others = λ q ne. refl; own = inl refl }

pub logout-Touches : (s : Server) (fd : ℕ) (logs_in : Bool) → Touches s fd logs_in ((logout s fd).0)
unfolding logout
logout-Touches s fd logs_in = record {
  others = λ q ne. ground arith;
  own = inr (inl (ground arith));
}

login-Touches :
    (w : World) (s : Server) (fd : ℕ) (req : Login) → Touches s fd true ((login w s fd req).0)
unfolding login
login-Touches w s fd req = elim (Option-cases (get_account_info w (req.user))) [
  | inl unknown ↦ rw unknown (same-Touches s fd true)
  | inr (hash, found) ↦ elim (Bool-cases (same_text (req.passwd_hash) hash)) [
    | inl same ↦
        rw (found, same)
          (record { others = λ q ne. ground arith; own = inr (inr (ground arith, refl)) })
    | inr other ↦ rw (found, other) (same-Touches s fd true)
  ]
]

on_login-Touches :
    (w : World) (s : Server) (fd : ℕ) (h : Header) (stream : Text) (r : Result)
    → on_login w s fd h stream ≡ some r
    → Touches s fd true r.server
unfolding on_login
on_login-Touches w s fd h stream r e =
    elim (Option-cases (complete_message (w.login_size) h stream)) [
      | inl long ↦ absurd (ground (arith, long, e))
      | inr ((came, body, stream'), got) ↦ elim (Bool-cases came) [
        | inl c ↦
            let e' : (login w s fd (w.decode_login body)).0 ≡ r.server =
              ground (arith, got, c, e) in
            subst (Touches s fd true) e' (login-Touches w s fd (w.decode_login body))
        | inr c ↦
            let e' : s ≡ r.server = ground (arith, got, c, e) in
            subst (Touches s fd true) e' (same-Touches s fd true)
      ]
    ]

on_sync_meta-server :
    (w : World) (s : Server) (fd : ℕ) (h : Header) (stream : Text) (r : Result)
    → on_sync_meta w s fd h stream ≡ some r
    → s ≡ r.server
unfolding on_sync_meta
on_sync_meta-server w s fd h stream r e = ground arith

on_rm-server :
    (w : World) (s : Server) (fd : ℕ) (h : Header) (stream : Text) (r : Result)
    → on_rm w s fd h stream ≡ some r
    → s ≡ r.server
unfolding on_rm
on_rm-server w s fd h stream r e = ground arith

switch-Touches :
    (w : World) (s : Server) (fd : ℕ) (h : Header) (stream : Text) (r : Result)
    → switch w s fd h stream ≡ some r
    → Touches s fd (if h.magic == 144 then h.op == 0 else false) r.server
unfolding switch
switch-Touches w s fd h stream r e = elim (Bool-cases (h.magic == 144)) [
  | inr other ↦
      let e' : s ≡ r.server = ground (arith, other, e) in
      rw other (subst (Touches s fd false) e' (same-Touches s fd false))
  | inl ours ↦ elim (Bool-cases (h.op == 0)) [
    | inl zero_op ↦
        rw (ours, zero_op) (on_login-Touches w s fd h stream r (ground (arith, ours, zero_op, e)))
    | inr op ↦
        let e' : s ≡ r.server = ground (
          arith,
          ours,
          op,
          e,
          on_sync_meta-server w s fd h stream r,
          on_rm-server w s fd h stream r,
        ) in
        rw (ours, op) (subst (Touches s fd false) e' (same-Touches s fd false))
  ]
]

pub handle_request-Touches :
    (w : World) (s : Server) (fd : ℕ) (stream : Text) (r : Result)
    → handle_request w s fd stream ≡ some r
    → Touches s fd (is_login w stream) r.server
unfolding handle_request is_login
handle_request-Touches w s fd stream r e =
    let (came, bytes, stream') = recv_message (w.header_size) stream in
    elim (Bool-cases came) [
      | inl c ↦
          rw c (switch-Touches w s fd (w.decode_header bytes) stream' r (ground (arith, c, e)))
      | inr c ↦
          let e' : (logout s fd).0 ≡ r.server = ground (arith, c, e) in
          rw c (subst (Touches s fd false) e' (logout-Touches s fd false))
    ]

pub answer_busy-flag :
    (w : World) (s : Server) (fd : ℕ) (stream : Text)
    → ((q : ℕ) → fd ≢ q → flag (answer_busy w s fd stream).server q ≡ flag s q)
      × (flag (answer_busy w s fd stream).server fd ≢ some true)
unfolding answer_busy logout
answer_busy-flag w s fd stream = (λ q ne. ground arith, ground arith)
