-- ===== src/ThreadPool/Progress.antt =====
-- A call of `run_task` in thread.c always goes on to its end, whatever the workers do meanwhile.
use ntu_system_programming.Common.{
  ℕ, zero, suc, ◌+◌, ◌-◌, ◌≤◌, ◌<◌, ◌≡◌, ◌≢◌, refl, sym, ◌∙◌, true, false, none, some, List, [],
  ◌∷◌, arith, inl, inr, length, get_elem?, set, length-set, length-replicate, Bool-cases,
  Option-cases,
}
use ntu_system_programming.ThreadPool.{
  Caller, outside, scanning, claimed, loaded, returned, ThreadPool, init_task_thread,
  init_thread_pool, dispatch, dispatch_at,
}
use ntu_system_programming.ThreadPool.Steps.{worker, dispatcher, call, return, Reach, here, next}

-- How many accesses of its own a call of `run_task` has left.
unfoldable pub left_at : Caller → ℕ → ℕ
left_at outside n = 0
left_at (scanning i a) n = n - i + 3
left_at (claimed i a) n = 2
left_at (loaded i a) n = 1
left_at (returned b) n = 0

-- The worker that the caller has claimed is in the array.
abbrev InRange : Caller → ℕ → Type 0
InRange (claimed i a) n = i < n
InRange (loaded i a) n = i < n
InRange _ n = Unit

-- The number of workers never changes, and a claimed worker exists.
record Sized (num : ℕ) (p : ThreadPool) : Type 0 where
  size : length (p.threads) ≡ num
  range : InRange (p.caller) num

get_elem?-lt {ℓ} :
    {A : Type ℓ} (xs : List A) (i : ℕ) (x : A) → get_elem? xs i ≡ some x → i < length xs
get_elem?-lt [] i x e = cc
get_elem?-lt (y ∷ xs) zero x e = omega arith
get_elem?-lt (y ∷ xs) (suc i) x e = omega (arith, get_elem?-lt xs i x e)

get_elem?-none {ℓ} : {A : Type ℓ} (xs : List A) (i : ℕ) → i < length xs → get_elem? xs i ≢ none
get_elem?-none [] i h e = absurd (omega arith)
get_elem?-none (y ∷ xs) zero h e = cc
get_elem?-none (y ∷ xs) (suc i) h e = get_elem?-none xs i (omega arith) e

-- One access of the caller: it is possible, brings the call closer to its end, and keeps the size.
progress_at :
    (num : ℕ) (c : Caller) (p : ThreadPool)
    → length (p.threads) ≡ num
    → InRange c num
    → 0 < left_at c num
    → (q : ThreadPool) × (dispatch_at c p ≡ some q)
      × (left_at (q.caller) num < left_at c num)
      × Sized num q
unfolding dispatch_at left_at
progress_at num outside p size range lt = absurd (omega arith)
progress_at num (returned b) p size range lt = absurd (omega arith)
progress_at num (scanning i a) p size range lt = elim (Option-cases (get_elem? (p.threads) i)) [
  | inl past ↦ (
    record p { caller = returned false },
    rw (past, dispatch_at),
    omega arith,
    record { size = size; range = tt },
  )
  | inr (t, at) ↦
      let inside = get_elem?-lt (p.threads) i t at in
      elim (Bool-cases (t.busy)) [
        | inl used ↦ (
          record p { caller = scanning (i + 1) a },
          rw (at, used, dispatch_at),
          omega arith,
          record { size = size; range = tt },
        )
        | inr idle ↦ (
          record p { threads = set (p.threads) i (record t { busy = true }); caller = claimed i a },
          rw (at, idle, dispatch_at),
          omega arith,
          record { size = length-set (p.threads) i _ ∙ size; range = omega arith },
        )
      ]
]
progress_at num (claimed i a) p size range lt = elim (Option-cases (get_elem? (p.threads) i)) [
  | inl past ↦ absurd (get_elem?-none (p.threads) i (omega arith) past)
  | inr (t, at) ↦ (
    record p { threads = set (p.threads) i (record t { arg = some a }); caller = loaded i a },
    rw (at, dispatch_at),
    omega arith,
    record { size = length-set (p.threads) i _ ∙ size; range = range },
  )
]
progress_at num (loaded i a) p size range lt = elim (Option-cases (get_elem? (p.threads) i)) [
  | inl past ↦ absurd (get_elem?-none (p.threads) i (omega arith) past)
  | inr (t, at) ↦ (
    record p {
      threads = set (p.threads) i (record t { locked = false });
      caller = returned true;
      accepted = (i, a) ∷ p.accepted;
    },
    rw (at, dispatch_at),
    omega arith,
    record { size = length-set (p.threads) i _ ∙ size; range = tt },
  )
]

some-eq : {p q : ThreadPool} → some p ≡ some q → p ≡ q
some-eq e = cc

Sized-dispatch : (num : ℕ) (p q : ThreadPool) → Sized num p → dispatch p ≡ some q → Sized num q
unfolding dispatch left_at
Sized-dispatch num p q s run = go (p.caller) refl
  where
    moved : 0 < left_at (p.caller) num → Sized num q
    moved lt =
        let (r, run', less, sized) = progress_at num (p.caller) p (s.size) (s.range) lt in
        rw (some-eq (sym run ∙ run')) sized

    go : (c : Caller) → p.caller ≡ c → Sized num q
    go outside e = absurd (ended (rw (e, dispatch_at) at run))
      where
        ended : none ≡ some q → ⊥
        ended f = cc
    go (returned b) e = absurd (ended (rw (e, dispatch_at) at run))
      where
        ended : none ≡ some q → ⊥
        ended f = cc
    go (scanning i a) e = moved (rw e (omega arith))
    go (claimed i a) e = moved (rw e (omega arith))
    go (loaded i a) e = moved (rw e (omega arith))

Reach-Sized : {num : ℕ} {p : ThreadPool} → Reach num p → Sized num p
unfolding init_thread_pool
Reach-Sized {num} here = record { size = length-replicate num init_task_thread; range = tt }
Reach-Sized {num} (next {p} {q} r (worker i t t' e at run same)) =
    let s = Reach-Sized r in
    rw same (record { size = length-set (p.threads) i t' ∙ s.size; range = s.range })
Reach-Sized {num} (next {p} {q} r (dispatcher run)) = Sized-dispatch num p q (Reach-Sized r) run
Reach-Sized {num} (next {p} {q} r (call a out same)) =
    let s = Reach-Sized r in rw same (record { size = s.size; range = tt })
Reach-Sized {num} (next {p} {q} r (return out same)) =
    let s = Reach-Sized r in rw same (record { size = s.size; range = tt })

-- A call of `run_task` is never stuck: in every reachable state the caller's next access is
-- possible and leaves fewer accesses to make, at most the number of workers and three in all.
pub run_task_progress :
    {num : ℕ} {p : ThreadPool}
    → Reach num p
    → 0 < left_at (p.caller) num
    → (q : ThreadPool) × (dispatch p ≡ some q)
      × (left_at (q.caller) num < left_at (p.caller) num)
      × (left_at (p.caller) num ≤ num + 3)
unfolding dispatch
run_task_progress {num} {p} r lt =
    let s = Reach-Sized r in
    let (q, run, less, sized) = progress_at num (p.caller) p (s.size) (s.range) lt in
    (q, run, less, left_bound (p.caller) num)
  where
    left_bound : (c : Caller) (n : ℕ) → left_at c n ≤ n + 3
    left_bound c n = unfold left_at in ground arith
