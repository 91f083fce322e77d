-- ===== src/ThreadPool/Invariant.antt =====
-- Every reachable state of the pool of thread.c: a worker is handed one task at a time, and calls
-- each task that was accepted for it once, in order.
use ntu_system_programming.Common.{
  ℕ, ◌+◌, ◌≡◌, refl, sym, ◌∙◌, Bool, true, false, Option, none, some, List, [], ◌∷◌, ◌++◌, arith,
  ap, if◌then◌else◌, ◌==◌, ◌⊎◌, inl, inr, get_elem?, set, get_elem?-set, Bool-cases, Option-cases,
  ==_iff,
}
use ntu_system_programming.ThreadPool.{
  Place, starting, resting, waiting, granted, running, TaskThread, Caller, outside, scanning,
  claimed, loaded, returned, ThreadPool, work, dispatch, dispatch_at,
}
use ntu_system_programming.ThreadPool.Steps.{note, Step, worker, dispatcher, call, return}

-- What the caller of `run_task` has done to a worker and not finished.
pub data Claim : Type 0 where
  free : Claim
  marked : Claim
  handed : ℕ → Claim

abbrev pub claim_of : Caller → ℕ → Claim
claim_of outside i = free
claim_of (scanning j a) i = free
claim_of (claimed j a) i = if j == i then marked else free
claim_of (loaded j a) i = if j == i then handed a else free
claim_of (returned b) i = free

-- The lock, the flag and the argument of a worker at each place.
abbrev FitsAt : Place → Claim → Bool → Bool → Option ℕ → Type 0
FitsAt starting c locked busy arg = (c ≡ free) × (locked ≡ false) × (busy ≡ true)
FitsAt resting c locked busy arg = (c ≡ free) × (locked ≡ true) × (busy ≡ true)
FitsAt waiting free locked busy arg =
    ((busy ≡ false) × (locked ≡ true))
    ⊎ ((busy ≡ true) × (locked ≡ false) × ((a : ℕ) × (arg ≡ some a)))
FitsAt waiting marked locked busy arg = (busy ≡ true) × (locked ≡ true)
FitsAt waiting (handed a) locked busy arg = (busy ≡ true) × (locked ≡ true) × (arg ≡ some a)
FitsAt granted c locked busy arg =
    (c ≡ free) × (locked ≡ true) × (busy ≡ true) × ((a : ℕ) × (arg ≡ some a))
FitsAt (running a) c locked busy arg = (c ≡ free) × (locked ≡ true) × (busy ≡ true)

abbrev pub Fits : Claim → TaskThread → Type 0
Fits c t = FitsAt (t.place) c (t.locked) (t.busy) (t.arg)

abbrev to_list : Option ℕ → List ℕ
to_list none = []
to_list (some a) = a ∷ []

-- The task that a worker was given and has not called yet.
abbrev pending_at : Place → Bool → Option ℕ → List ℕ
pending_at waiting false arg = to_list arg
pending_at granted locked arg = to_list arg
pending_at _ _ _ = []

abbrev pub pending : TaskThread → List ℕ
pending t = pending_at (t.place) (t.locked) (t.arg)

-- The tasks of worker `i` in a log.
unfoldable pub tasks_of : ℕ → List (ℕ × ℕ) → List ℕ
tasks_of i [] = []
tasks_of i ((j, a) ∷ log) = if j == i then a ∷ tasks_of i log else tasks_of i log

-- The state of worker `i`, and its account: what it was given is what it called, and then at most
-- the one task that waits.
pub record Sound (p : ThreadPool) (i : ℕ) (t : TaskThread) : Type 0 where
  pub fits : Fits (claim_of (p.caller) i) t
  pub account : tasks_of i (p.accepted) ≡ pending t ++ tasks_of i (p.executed)

abbrev pub Inv : ThreadPool → Type 0
Inv p = (i : ℕ) (t : TaskThread) → get_elem? (p.threads) i ≡ some t → Sound p i t

-- A worker's own access keeps its state in order, and moves its task from waiting to called.
work-Fits :
    (c : Claim) (t t' : TaskThread) (e : Option ℕ) (done : List ℕ)
    → work t ≡ some (t', e)
    → Fits c t
    → Fits c t' × (pending t ++ done ≡ pending t' ++ (to_list e ++ done))
unfolding work
work-Fits c t t' e done run fits = ground arith

tasks_of-note :
    (i j : ℕ) (e : Option ℕ) (log : List (ℕ × ℕ))
    → tasks_of j (note i e log) ≡ (if i == j then to_list e ++ tasks_of j log else tasks_of j log)
unfolding tasks_of
tasks_of-note i j none log = ground arith
tasks_of-note i j (some a) log = ground arith

tasks_of_self : (i a : ℕ) (log : List (ℕ × ℕ)) → tasks_of i ((i, a) ∷ log) ≡ a ∷ tasks_of i log
unfolding tasks_of
tasks_of_self i a log = rw ((==_iff i i).1 refl)

tasks_of_other :
    (i j a : ℕ) (log : List (ℕ × ℕ)) → (i == j) ≡ false → tasks_of j ((i, a) ∷ log) ≡ tasks_of j log
unfolding tasks_of
tasks_of_other i j a log other = rw other

worker-Sound :
    (p : ThreadPool) (i : ℕ) (t t' : TaskThread) (e : Option ℕ)
    → Inv p
    → get_elem? (p.threads) i ≡ some t
    → work t ≡ some (t', e)
    → Inv (record p { threads = set (p.threads) i t'; executed = note i e (p.executed) })
worker-Sound p i t t' e inv at run j u found = elim (Bool-cases (i == j)) [
  | inl same ↦
      let same' : i ≡ j = ground arith in
      let new : u ≡ t' = ground (arith, get_elem?-set (p.threads) i j t' t at) in
      let old = inv i t at in
      let (fits, moved) =
        work-Fits (claim_of (p.caller) i) t t' e (tasks_of i (p.executed)) run old.fits in
      rw (new, ← same')
        (record {
          fits = fits;
          account =
              old.account
              ∙ moved
              ∙ ap (λ l. pending t' ++ l)
                  (sym (tasks_of-note i i e (p.executed) ∙ rw ((==_iff i i).1 refl)));
        })
  | inr other ↦
      let old = inv j u (ground (arith, get_elem?-set (p.threads) i j t' t at)) in
      record {
        fits = old.fits;
        account =
            old.account
            ∙ ap (λ l. pending u ++ l) (sym (tasks_of-note i j e (p.executed) ∙ rw other));
      }
]

-- The invariant while the caller stands at `c`.
abbrev InvAt : Caller → ThreadPool → Type 0
InvAt c p =
    (i : ℕ) (t : TaskThread)
    → get_elem? (p.threads) i ≡ some t
    → Fits (claim_of c i) t × (tasks_of i (p.accepted) ≡ pending t ++ tasks_of i (p.executed))

-- The caller writes worker `i` and goes on to `c'`.
caller_writes :
    (p : ThreadPool) (c c' : Caller) (i : ℕ) (t t' : TaskThread) (log : List (ℕ × ℕ))
    → InvAt c p
    → get_elem? (p.threads) i ≡ some t
    → Fits (claim_of c' i) t'
    → tasks_of i log ≡ pending t' ++ tasks_of i (p.executed)
    → ((j : ℕ)
        → (i == j) ≡ false
        → (claim_of c' j ≡ claim_of c j) × (tasks_of j log ≡ tasks_of j (p.accepted)))
    → Inv (record p { threads = set (p.threads) i t'; caller = c'; accepted = log })
caller_writes p c c' i t t' log inv at fits account apart j u found = elim (Bool-cases (i == j)) [
  | inl same ↦
      let same' : i ≡ j = ground arith in
      let new : u ≡ t' = ground (arith, get_elem?-set (p.threads) i j t' t at) in
      rw (new, ← same') (record { fits = fits; account = account })
  | inr other ↦
      let old = inv j u (ground (arith, get_elem?-set (p.threads) i j t' t at)) in
      let (claim, log') = apart j other in record { fits = rw claim old.0; account = log' ∙ old.1 }
]

-- The facts about one worker that the caller's accesses use.
claim-Fits :
    (t : TaskThread) → t.busy ≡ false → Fits free t → Fits marked (record t { busy = true })
claim-Fits t idle fits = ground arith

load-Fits : (t : TaskThread) (a : ℕ) → Fits marked t → Fits (handed a) (record t { arg = some a })
load-Fits t a fits = ground arith

launch-Fits :
    (t : TaskThread) (a : ℕ)
    → Fits (handed a) t
    → Fits free (record t { locked = false })
      × (pending t ≡ [])
      × (pending (record t { locked = false }) ≡ a ∷ [])
launch-Fits t a fits = ground arith

claim_pending :
    (t : TaskThread) → t.busy ≡ false → Fits free t → pending (record t { busy = true }) ≡ pending t
claim_pending t idle fits = ground arith

load_pending :
    (t : TaskThread) (a : ℕ) → Fits marked t → pending (record t { arg = some a }) ≡ pending t
load_pending t a fits = ground arith

claim_self : (i : ℕ) (c : Claim) → (if i == i then c else free) ≡ c
claim_self i c = rw ((==_iff i i).1 refl)

-- The caller's accesses.
dispatch_at-Inv : (c : Caller) (p q : ThreadPool) → InvAt c p → dispatch_at c p ≡ some q → Inv q
unfolding dispatch_at
dispatch_at-Inv outside p q inv run = cc
dispatch_at-Inv (returned b) p q inv run = cc
dispatch_at-Inv (scanning i a) p q inv run = elim (Option-cases (get_elem? (p.threads) i)) [
  | inl past ↦
      let e : record p { caller = returned false } ≡ q = ground arith in
      rw (← e) (λ j u at. record { fits = (inv j u at).0; account = (inv j u at).1 })
  | inr (t, at) ↦ elim (Bool-cases (t.busy)) [
    | inl used ↦
        let e : record p { caller = scanning (i + 1) a } ≡ q = ground arith in
        rw (← e) (λ j u at. record { fits = (inv j u at).0; account = (inv j u at).1 })
    | inr idle ↦
        let t' : TaskThread = record t { busy = true } in
        let e : record p { threads = set (p.threads) i t'; caller = claimed i a } ≡ q =
          ground arith in
        let (fits, account) = inv i t at in
        rw (← e) (
          caller_writes p (scanning i a) (claimed i a) i t t' (p.accepted) inv at
            (rw (claim_self i marked) (claim-Fits t idle fits))
            (account ∙ ap (λ l. l ++ tasks_of i (p.executed)) (sym (claim_pending t idle fits)))
            (λ j other. (rw other, refl)))
  ]
]
dispatch_at-Inv (claimed i a) p q inv run = elim (Option-cases (get_elem? (p.threads) i)) [
  | inl past ↦ absurd (ground arith)
  | inr (t, at) ↦
      let t' : TaskThread = record t { arg = some a } in
      let e : record p { threads = set (p.threads) i t'; caller = loaded i a } ≡ q = ground arith in
      let (fits, account) = inv i t at in
      let fits' : Fits marked t = rw (claim_self i marked) at fits in
      rw (← e) (
        caller_writes p (claimed i a) (loaded i a) i t t' (p.accepted) inv at
          (rw (claim_self i (handed a)) (load-Fits t a fits'))
          (account ∙ ap (λ l. l ++ tasks_of i (p.executed)) (sym (load_pending t a fits')))
          (λ j other. (rw other, refl)))
]
dispatch_at-Inv (loaded i a) p q inv run = elim (Option-cases (get_elem? (p.threads) i)) [
  | inl past ↦ absurd (ground arith)
  | inr (t, at) ↦
      let t' : TaskThread = record t { locked = false } in
      let e : record p {
        threads = set (p.threads) i t';
        caller = returned true;
        accepted = (i, a) ∷ p.accepted;
      }
          ≡ q =
        ground arith in
      let (fits, account) = inv i t at in
      let fits' : Fits (handed a) t = rw (claim_self i (handed a)) at fits in
      let (freed, nothing, one) = launch-Fits t a fits' in
      rw (← e) (
        caller_writes p (loaded i a) (returned true) i t t' ((i, a) ∷ p.accepted) inv at freed
          (tasks_of_self i a (p.accepted)
            ∙ ap (λ l. a ∷ l) (account ∙ ap (λ l. l ++ tasks_of i (p.executed)) nothing)
            ∙ ap (λ l. l ++ tasks_of i (p.executed)) (sym one))
          (λ j other. (rw other, tasks_of_other i j a (p.accepted) other)))
]

-- No step of a worker or of the caller breaks the state or the account of any worker.
pub Step-Inv : {p q : ThreadPool} → Step p q → Inv p → Inv q
unfolding dispatch
Step-Inv {p} {q} (worker i t t' e at run same) inv = rw same (worker-Sound p i t t' e inv at run)
Step-Inv {p} {q} (dispatcher run) inv =
    dispatch_at-Inv (p.caller) p q (λ i t at. ((inv i t at).fits, (inv i t at).account)) run
Step-Inv {p} {q} (call a out same) inv =
    rw same
      (λ i t at. record { fits = rw out at (inv i t at).fits; account = (inv i t at).account })
Step-Inv {p} {q} (return out same) inv =
    rw same
      (λ i t at. record { fits = rw out at (inv i t at).fits; account = (inv i t at).account })
