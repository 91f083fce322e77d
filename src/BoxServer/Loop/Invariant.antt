-- ===== src/BoxServer/Loop/Invariant.antt =====
-- What holds between the steps of csiebox_server_run: a connection has at most one task, and while it
-- has one the loop does not look at it.
use ntu_system_programming.Common.{
  ℕ, ◌+◌, ◌≤◌, ◌≡◌, ◌≢◌, ◌⊎◌, refl, sym, ◌∙◌, ap, arith, Bool, true, false, Option, none, some,
  List, ◌∷◌, ◌++◌, Bool-cases, inl, inr, ◌==◌,
}
use mathlib.Core.Path.{subst}
use ntu_system_programming.BoxServer.{Text, World, Server, Result}
use ntu_system_programming.BoxServer.Requests.{handle_request, mark}
use ntu_system_programming.BoxServer.Loop.{
  Loop, flag, accept_client, choose, refuse, end_request, clear,
}
use ntu_system_programming.BoxServer.Loop.Tasks.{
  times, times-middle, Fits, flag-mark, Fits-fewer, Fits-pick, Fits-task, Fits-clear, Fits-idle,
  Fits-flag, times_self, times_other,
}
use ntu_system_programming.BoxServer.Loop.Touched.{
  is_login, handle_request-Touches, answer_busy-flag,
}

abbrev pub Inv : Loop → Type 0
Inv b =
    (q : ℕ) → Fits (flag b.server q) (times q b.waiting) (times q b.clearing) (times q b.readset)

not_set :
    {f g : Option Bool} {logs_in : Bool}
    → (g ≡ f) ⊎ ((g ≡ none) ⊎ ((g ≡ some false) × (logs_in ≡ true)))
    → f ≢ some true
    → g ≢ some true
not_set own ne e = ground arith

after_handling :
    {f g : Option Bool} {logs_in : Bool}
    → (g ≡ f) ⊎ ((g ≡ none) ⊎ ((g ≡ some false) × (logs_in ≡ true)))
    → logs_in ≡ false
    → f ≡ some true
    → Fits g 0 1 0
after_handling (inl kept) calm f = rw (kept, f) (unfold Fits in (refl, refl))
after_handling (inr (inl gone)) calm f = rw gone (unfold Fits in (refl, omega arith, refl))
after_handling (inr (inr (fresh, logged))) calm f = absurd (ground arith)

cleared_flag : (s : Server) (fd : ℕ) → flag (mark s fd false) fd ≢ some true
cleared_flag s fd = ground arith

-- Two states look the same to a connection, but for a place in the set that may be gone.
abbrev pub Alike : Loop → Loop → ℕ → Type 0
Alike b b' q =
    (flag b'.server q ≡ flag b.server q)
    × (times q b'.waiting ≡ times q b.waiting)
    × (times q b'.clearing ≡ times q b.clearing)
    × (times q b'.readset ≤ times q b.readset)

abbrev pub FitsAt : Loop → ℕ → Type 0
FitsAt b q = Fits (flag b.server q) (times q b.waiting) (times q b.clearing) (times q b.readset)

pub Alike-FitsAt : (b b' : Loop) (q : ℕ) → Alike b b' q → FitsAt b q → FitsAt b' q
Alike-FitsAt b b' q (f, w, c, r) fits = rw (f, w, c) (Fits-fewer _ _ _ _ _ r fits)

-- A step on the connection `fd`: its own entry, and every other.
by_connection :
    (b b' : Loop) (fd : ℕ) → ((q : ℕ) → fd ≢ q → Alike b b' q) → FitsAt b' fd → Inv b → Inv b'
by_connection b b' fd others own inv q = elim (Bool-cases (fd == q)) [
  | inl same ↦ let e : fd ≡ q = ground arith in subst (FitsAt b') e own
  | inr differs ↦ Alike-FitsAt b b' q (others q (ground arith)) (inv q)
]

module _ (b : Loop) (inv : Inv b) (fd : ℕ) where
  -- The next descriptor of the loop has a client whose flag is not set, and no task.
  pub picked :
      (rest : List ℕ)
      → b.readset ≡ fd ∷ rest
      → (flag b.server fd ≡ some false)
        × (times fd b.waiting ≡ 0)
        × (times fd b.clearing ≡ 0)
        × (times fd rest ≡ 0)
  picked rest e = Fits-pick _ _ _ _ (
      subst (λ r. Fits (flag b.server fd) (times fd b.waiting) (times fd b.clearing) r)
        (ap (times fd) e ∙ times_self fd rest) (inv fd))

  rest_le :
      (rest : List ℕ) (q : ℕ) → fd ≢ q → b.readset ≡ fd ∷ rest → times q rest ≤ times q b.readset
  rest_le rest q ne e = rw (e, times_other fd q rest ne) (omega arith)

  pub chosen-Inv : (rest : List ℕ) → b.readset ≡ fd ∷ rest → Inv (choose b fd rest)
  chosen-Inv rest e =
      let (f, w, c, r) = picked rest e in
      by_connection b (choose b fd rest) fd
        (λ q ne. (
          (flag-mark b.server fd q true).0 ne,
          times_other fd q b.waiting ne,
          refl,
          rest_le rest q ne e,
        ))
        (rw
          (
            (flag-mark b.server fd fd true).1 (λ gone. ground (arith, f, gone)),
            times_self fd b.waiting,
            w,
            c,
            r,
          )
          (unfold Fits in (refl, refl)))
        inv

  pub refused-Inv :
      (w : World) (rest : List ℕ) (stream : Text)
      → b.readset ≡ fd ∷ rest
      → Inv (refuse w b fd rest stream)
  refused-Inv w rest stream e =
      let (f, wt, c, r) = picked rest e in
      let (others, own) = answer_busy-flag w (mark b.server fd true) fd stream in
      by_connection b (refuse w b fd rest stream) fd
        (λ q ne.
          (others q ne ∙ (flag-mark b.server fd q true).0 ne, refl, refl, rest_le rest q ne e))
        (rw (wt, c, r) (Fits-idle _ own)) inv

  -- A request handled on a connection without a task, in the loop.
  pub accepted-Inv :
      (w : World) (stream : Text) (r : Result)
      → times fd b.waiting + times fd b.clearing ≡ 0
      → handle_request w b.server fd stream ≡ some r
      → Inv (accept_client b r)
  accepted-Inv w stream r fresh run =
      let t = handle_request-Touches w b.server fd stream r run in
      let wt : times fd b.waiting ≡ 0 = omega arith in
      let c : times fd b.clearing ≡ 0 = omega arith in
      let unset = Fits-flag _ _ _ _ fresh (inv fd) in
      by_connection b (accept_client b r) fd
        (λ q ne. (t.others q ne, refl, refl, unfold times in omega arith))
        (rw (wt, c) (unfold times in Fits-idle _ (not_set t.own unset))) inv

  task_taken :
      (ys zs l : List ℕ) (q : ℕ) → l ≡ ys ++ (fd ∷ zs) → times q l ≡ times q (fd ∷ (ys ++ zs))
  task_taken ys zs l q e = ap (times q) e ∙ times-middle q fd ys zs

  pub handled-Inv :
      (w : World) (ys zs : List ℕ) (stream : Text) (r : Result)
      → b.waiting ≡ ys ++ (fd ∷ zs)
      → is_login w stream ≡ false
      → handle_request w b.server fd stream ≡ some r
      → Inv (end_request b fd (ys ++ zs) r)
  handled-Inv w ys zs stream r e calm run =
      let t = handle_request-Touches w b.server fd stream r run in
      let fits =
        subst (λ n. Fits (flag b.server fd) n (times fd b.clearing) (times fd b.readset))
          (task_taken ys zs b.waiting fd e ∙ times_self fd (ys ++ zs)) (inv fd) in
      let (f, wt, c, rd) = Fits-task _ _ _ _ fits in
      by_connection b (end_request b fd (ys ++ zs) r) fd
        (λ q ne. (
          t.others q ne,
          sym (task_taken ys zs b.waiting q e ∙ times_other fd q (ys ++ zs) ne),
          times_other fd q b.clearing ne,
          omega arith,
        ))
        (rw (wt, times_self fd b.clearing, c, rd) (after_handling t.own calm f)) inv

  pub cleared-Inv : (ys zs : List ℕ) → b.clearing ≡ ys ++ (fd ∷ zs) → Inv (clear b fd (ys ++ zs))
  cleared-Inv ys zs e =
      let fits =
        subst (λ n. Fits (flag b.server fd) (times fd b.waiting) n (times fd b.readset))
          (task_taken ys zs b.clearing fd e ∙ times_self fd (ys ++ zs)) (inv fd) in
      let (f, wt, c, rd) = Fits-clear _ _ _ _ fits in
      by_connection b (clear b fd (ys ++ zs)) fd
        (λ q ne. (
          (flag-mark b.server fd q false).0 ne,
          refl,
          sym (task_taken ys zs b.clearing q e ∙ times_other fd q (ys ++ zs) ne),
          omega arith,
        ))
        (rw (wt, c, rd) (Fits-idle _ (cleared_flag b.server fd))) inv
