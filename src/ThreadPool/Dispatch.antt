-- ===== src/ThreadPool/Dispatch.antt =====
-- What callers of the pool of thread.c rely on: reachable states, `run_task` and `is_finished`.
use ntu_system_programming.Common.{
  ℕ, zero, suc, ◌≤◌, ◌≡◌, ◌≢◌, refl, none, some, [], ◌++◌, arith, length, get_elem?, replicate,
}
use ntu_system_programming.ThreadPool.{
  TaskThread, ThreadPool, init_task_thread, init_thread_pool, work,
}
use ntu_system_programming.ThreadPool.Steps.{Reach, here, next}
use ntu_system_programming.ThreadPool.Invariant.{
  Claim, Inv, Fits, claim_of, pending, tasks_of, Step-Inv,
}

get_elem?-replicate {ℓ} :
    {A : Type ℓ} (n i : ℕ) (a x : A) → get_elem? (replicate n a) i ≡ some x → x ≡ a
get_elem?-replicate zero i a x e = cc
get_elem?-replicate (suc n) zero a x e = cc
get_elem?-replicate (suc n) (suc i) a x e = get_elem?-replicate n i a x e

init-Inv : (num : ℕ) → Inv (init_thread_pool num)
unfolding init_thread_pool
init-Inv num i t at =
    rw (get_elem?-replicate num i init_task_thread t at)
      (record { fits = (refl, refl, refl); account = unfold tasks_of in refl })

Reach-Inv : {num : ℕ} {p : ThreadPool} → Reach num p → Inv p
Reach-Inv {num} here = init-Inv num
Reach-Inv (next r s) = Step-Inv s (Reach-Inv r)

-- In every reachable state each worker has called exactly the tasks accepted for it, in order and
-- each once, but for at most one accepted task that it has not called yet; and a worker with such a
-- task is never kept waiting.
pub accepted_once :
    {num : ℕ} {p : ThreadPool} (i : ℕ) (t : TaskThread)
    → Reach num p
    → get_elem? (p.threads) i ≡ some t
    → (tasks_of i (p.accepted) ≡ pending t ++ tasks_of i (p.executed))
      × (length (pending t) ≤ 1)
      × (pending t ≢ [] → work t ≢ none)
unfolding work
accepted_once {num} {p} i t r at =
    let s = Reach-Inv r i t at in
    (s.account, at_most_one t, not_blocked t (claim_of (p.caller) i) s.fits)
  where
    at_most_one : (t : TaskThread) → length (pending t) ≤ 1
    at_most_one t = ground arith

    not_blocked : (t : TaskThread) (c : Claim) → Fits c t → pending t ≢ [] → work t ≢ none
    not_blocked t c fits some_left = ground arith
