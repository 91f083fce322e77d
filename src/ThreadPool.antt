-- ===== src/ThreadPool.antt =====
-- The thread pool, MP5/src/thread.c: workers that wait on a lock each, and a dispatcher.
-- A task is its argument (`func`, `input`, `output` in one value). The mutex `control_lock` is a
-- flag that one thread may clear for another, as the code uses it; a lock call waits while it is
-- set. `thread_instance` is never read. Each step below is one access to shared state, so the
-- interleavings are those of the threads' single accesses. `dispatch_lock` keeps one caller in
-- `run_task` at a time: the dispatcher is that caller.
pub mod Steps
pub mod Invariant
pub mod Dispatch
pub mod Progress
pub mod Tests
use ntu_system_programming.Common.{
  ℕ, zero, suc, ◌+◌, Bool, true, false, Option, none, some, List, [], ◌∷◌, ltb, ◌==◌, if◌then◌else◌,
  length, get_elem?, set, replicate, map,
}

-- Where a worker stands in `task_thread_func`: before its first lock, before `busy = 0`, before the
-- lock of the loop, with that lock before the call of the task's function, in that function.
pub data Place : Type 0 where
  starting resting waiting granted : Place
  running : ℕ → Place

pub record TaskThread : Type 0 where
  pub locked : Bool
  pub arg : Option ℕ
  pub busy : Bool
  pub place : Place

-- Where the caller of `run_task` stands: outside, before the look at worker `i`, after `busy = 1`
-- of worker `i`, after `t->arg = *arg` in `launch`, or back with the result.
pub data Caller : Type 0 where
  outside : Caller
  scanning : ℕ → ℕ → Caller
  claimed : ℕ → ℕ → Caller
  loaded : ℕ → ℕ → Caller
  returned : Bool → Caller

pub record ThreadPool : Type 0 where
  pub threads : List TaskThread
  pub caller : Caller
  -- The tasks that `run_task` accepted, and those whose function was called, newest first.
  pub accepted : List (ℕ × ℕ)
  pub executed : List (ℕ × ℕ)

-- `init_task_thread`: the lock is made and unlocked, `busy` is set, and the thread started.
unfoldable pub init_task_thread : TaskThread
init_task_thread = record { locked = false; arg = none; busy = true; place = starting }

unfoldable pub init_thread_pool : ℕ → ThreadPool
unfolding init_task_thread
init_thread_pool num = record {
  threads = replicate num init_task_thread;
  caller = outside;
  accepted = [];
  executed = [];
}

-- The next access of a worker, `none` while it waits for its lock; with it the task whose function
-- it calls; `none` also stands for the call through an argument that was never set.
unfoldable pub work : TaskThread → Option (TaskThread × Option ℕ)
work t = elim (t.place) [
  | starting ↦ if t.locked then none else some (record t { locked = true; place = resting }, none)
  | resting ↦ some (record t { busy = false; place = waiting }, none)
  | waiting ↦ if t.locked then none else some (record t { locked = true; place = granted }, none)
  | granted ↦ elim (t.arg) [ none ↦ none | some a ↦ some (record t { place = running a }, some a) ]
  | running a ↦ some (record t { place = resting }, none)
]

-- The next access of the caller of `run_task`, from where it stands.
unfoldable pub dispatch_at : Caller → ThreadPool → Option ThreadPool
dispatch_at outside p = none
dispatch_at (returned b) p = none
dispatch_at (scanning i a) p = elim (get_elem? (p.threads) i) [
  | none ↦ some (record p { caller = returned false })
  | some t ↦
      if t.busy
      then some (record p { caller = scanning (i + 1) a })
      else some (record p {
        threads = set (p.threads) i (record t { busy = true });
        caller = claimed i a;
      })
]
dispatch_at (claimed i a) p = elim (get_elem? (p.threads) i) [
  | none ↦ none
  | some t ↦
      some
        (record p { threads = set (p.threads) i (record t { arg = some a }); caller = loaded i a })
]
dispatch_at (loaded i a) p = elim (get_elem? (p.threads) i) [
  | none ↦ none
  | some t ↦ some (record p {
    threads = set (p.threads) i (record t { locked = false });
    caller = returned true;
    accepted = (i, a) ∷ p.accepted;
  })
]

unfoldable pub dispatch : ThreadPool → Option ThreadPool
unfolding dispatch_at
dispatch p = dispatch_at (p.caller) p

-- `is_finished`: no worker is busy.
unfoldable pub none_busy : List TaskThread → Bool
none_busy [] = true
none_busy (t ∷ ts) = if t.busy then false else none_busy ts

unfoldable pub is_finished : ThreadPool → Bool
unfolding none_busy
is_finished p = none_busy (p.threads)
