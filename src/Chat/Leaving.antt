-- ===== src/Chat/Leaving.antt =====
-- A client that quits or hangs up: its partner is told and freed, and nobody else is touched.
use ntu_system_programming.Common.{
  ℕ, ◌≡◌, ◌≢◌, refl, sym, ap, false, none, some, List, [], ◌∷◌, ◌++◌, ◌∙◌, arith, Option-cases, inl,
  inr, Bool-cases,
}
use ntu_system_programming.Chat.{
  Text, Library, Server, Output, send, close, other_side_quit, update,
}
use ntu_system_programming.Chat.Handlers.{leave_chat, forget, quit, disconnect}
use ntu_system_programming.Chat.Invariant.{IsValid, parted, parted-IsValid, forget-IsValid}

abbrev pub IsFree : Server → ℕ → Type 0
IsFree s a = (s.chatting_to a ≡ none) × (s.user_data a ≡ none) × (s.available a ≡ false)

abbrev pub SameAt : Server → Server → ℕ → Type 0
SameAt s s' a =
    (s'.chatting_to a ≡ s.chatting_to a)
    × (s'.user_data a ≡ s.user_data a)
    × (s'.available a ≡ s.available a)

-- The client `fd` and its partner, if it has one, are free in `s'`, and the others as in `s`.
pub Frees : Server → ℕ → Server → Type 0
Frees s fd s' =
    IsFree s' fd
    × ((p : ℕ) → s.chatting_to fd ≡ some p → IsFree s' p)
    × ((a : ℕ) → a ≢ fd → s.chatting_to fd ≢ some a → SameAt s s' a)

-- What the partner is told.
pub notice : Server → ℕ → List Output
notice s fd = elim (s.chatting_to fd) [ none ↦ [] | some p ↦ send p other_side_quit ∷ [] ]

Leaves : Library → Server → Server → ℕ → Type 0
Leaves l s s0 fd =
    (s' : Server) × (leave_chat s0 fd ≡ some (s', notice s fd)) × IsValid l s' × Frees s fd s'

forget-leave : (l : Library) (s : Server) (fd : ℕ) → IsValid l s → Leaves l s (forget s fd) fd
unfolding leave_chat Leaves notice Frees
forget-leave l s fd v = elim (Option-cases (s.chatting_to fd)) [
  | inl alone ↦ (
    forget s fd,
    rw (leave_chat, notice, alone) refl,
    forget-IsValid l s fd v,
    ((alone, ground arith, ground arith), λ p e. ground arith, λ a ne far. ground arith),
  )
  | inr (p, e) ↦
      let ne = (v.symmetric fd p e).1 in
      (
        parted (forget s fd) fd p,
        rw (leave_chat, notice, e) (ground arith),
        parted-IsValid l (forget s fd) fd p (forget-IsValid l s fd v) e,
        (ground arith, λ p' e'. ground arith, λ a ne' far. ground arith),
      )
]

-- In a valid state a client that quits is echoed and its partner, if it has one, is told; the state
-- stays valid, the client and its partner are free, and nothing else of the state changes.
pub quit_lem :
    (l : Library) (s : Server) (fd : ℕ) (buffer : Text)
    → IsValid l s
    → (s' : Server) × (quit s fd buffer ≡ some (s', send fd buffer ∷ notice s fd))
      × IsValid l s'
      × Frees s fd s'
unfolding quit Leaves
quit_lem l s fd buffer v =
    let (s', e, v', free) = forget-leave l s fd v in (s', rw e refl, v', free)

closing-IsValid :
    (l : Library) (s : Server) (fd : ℕ)
    → IsValid l s
    → IsValid l (record s { readset = update (s.readset) fd false })
closing-IsValid l s fd v = record {
  symmetric = v.symmetric;
  idle = v.idle;
  usable = v.usable;
  open_returns = v.open_returns;
}

closing-Frees :
    (s s' : Server) (fd : ℕ)
    → Frees s fd s'
    → Frees s fd (record s' { readset = update (s'.readset) fd false })
unfolding Frees
closing-Frees s s' fd (own, partner, rest) = (own, partner, rest)

-- A client without a text does not wait, so there is nothing to forget.
forget-same :
    (l : Library) (s : Server) (fd : ℕ) → IsValid l s → s.user_data fd ≡ none → forget s fd ≡ s
forget-same l s fd v bare =
    λ i. record s { available = λ q. not_waiting q i; user_data = λ q. no_text q i }
  where
    not_waiting : (q : ℕ) → update (s.available) fd false q ≡ s.available q
    not_waiting q = elim (Bool-cases (s.available q)) [
      | inl waits ↦ ground (arith, v.idle q waits)
      | inr other ↦ ground arith
    ]

    no_text : (q : ℕ) → update (s.user_data) fd none q ≡ s.user_data q
    no_text q = ground arith

-- The same for a client that hangs up, with its descriptor closed and out of the set in place of
-- the echo; that the code clears `available` under a test of `user_data` makes no difference.
pub disconnect_lem :
    (l : Library) (s : Server) (fd : ℕ)
    → IsValid l s
    → (s' : Server) × (disconnect s fd ≡ some (s', notice s fd ++ close fd ∷ []))
      × IsValid l s'
      × Frees s fd s'
      × (s'.readset fd ≡ false)
unfolding disconnect Leaves
disconnect_lem l s fd v = elim (Option-cases (s.user_data fd)) [
  | inl bare ↦
      let (s', e, v', free) = forget-leave l s fd v in
      let left = ap (λ x. leave_chat x fd) (sym (forget-same l s fd v bare)) ∙ e in
      (
        record s' { readset = update (s'.readset) fd false },
        rw (bare, left) refl,
        closing-IsValid l s' fd v',
        closing-Frees s s' fd free,
        ground arith,
      )
  | inr (t, e) ↦
      let (s', left, v', free) = forget-leave l s fd v in
      (
        record s' { readset = update (s'.readset) fd false },
        rw (e, left) refl,
        closing-IsValid l s' fd v',
        closing-Frees s s' fd free,
        ground arith,
      )
]
