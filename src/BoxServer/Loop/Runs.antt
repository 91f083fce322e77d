-- ===== src/BoxServer/Loop/Runs.antt =====
-- The runs of csiebox_server_run from its start.
use ntu_system_programming.Common.{
  ℕ, zero, suc, ◌+◌, ◌≤◌, ◌≡◌, refl, sym, ap, arith, Bool, true, false, Option, none, some, List,
  [], ◌∷◌, if◌then◌else◌, inl, inr, Option-cases, length, ltb,
}
use mathlib.Core.Path.{subst}
use ntu_system_programming.BoxServer.{Text, World, Server, ClientInfo}
use ntu_system_programming.BoxServer.Loop.{
  Loop, top, serving, flag, tally, scan, still_set, no_clients, LoopStep, looks, again, accepted,
  selected, chosen, refused, served, handled, cleared, look,
}
use ntu_system_programming.BoxServer.Loop.Touched.{is_login}
use ntu_system_programming.BoxServer.Loop.Tasks.{
  times, Fits, scan_once, scan_free, times-still_set, Fits-scan,
}
use ntu_system_programming.BoxServer.Loop.Invariant.{
  Inv, Alike-FitsAt, picked, chosen-Inv, refused-Inv, accepted-Inv, handled-Inv, cleared-Inv,
}

-- The loop accepts no connection whose descriptor still has a task, and no client logs in again.
unfoldable pub Calm : {w : World} {b b' : Loop} → LoopStep w b b' → Type 0
Calm {w} {b} (accepted fd stream r at run e) = times fd b.waiting + times fd b.clearing ≡ 0
Calm {w} (handled fd ys zs stream r at run e) = is_login w stream ≡ false
Calm (looks at e) = Unit
Calm (again at e) = Unit
Calm (selected isset at e) = Unit
Calm (chosen fd rest at e e') = Unit
Calm (refused fd rest stream at e e') = Unit
Calm (served at e e') = Unit
Calm (cleared fd ys zs e e') = Unit

-- The states that calm steps lead to.
pub data Reach (w : World) (path : Text) : Loop → Type 0 where
  here : Reach w path (no_clients path)
  next : {b b' : Loop} → Reach w path b → (st : LoopStep w b b') → Calm st → Reach w path b'

fewer-Inv :
    (b b' : Loop)
    → b'.server ≡ b.server
    → b'.waiting ≡ b.waiting
    → b'.clearing ≡ b.clearing
    → ((q : ℕ) → times q b'.readset ≤ times q b.readset)
    → Inv b
    → Inv b'
fewer-Inv b b' s w c r inv q =
    Alike-FitsAt b b' q (ap (λ x. flag x q) s, ap (times q) w, ap (times q) c, r q) (inv q)

look-Inv : (b : Loop) → Inv b → Inv (look b)
look-Inv b inv q =
    Fits-scan _ _ _ (times q b.readset) _ (scan_once b.server 1022 2 q)
      (scan_free b.server 1022 2 q) (inv q)

pub LoopStep-Inv : {w : World} {b b' : Loop} → (st : LoopStep w b b') → Calm st → Inv b → Inv b'
unfolding Calm
LoopStep-Inv {w} {b} {b'} (looks at e) calm inv = subst Inv (sym e) (look-Inv b inv)
LoopStep-Inv {w} {b} {b'} (again at e) calm inv = subst Inv (sym e) (
    fewer-Inv b (record b { place = top; readset = [] }) refl refl refl
      (λ q. unfold times in omega arith) inv)
LoopStep-Inv {w} {b} {b'} (accepted fd stream r at run e) calm inv =
    subst Inv (sym e) (accepted-Inv b inv fd w stream r calm run)
LoopStep-Inv {w} {b} {b'} (selected isset at e) calm inv = subst Inv (sym e) (
    fewer-Inv b (record b { place = serving; readset = still_set isset b.readset }) refl refl refl
      (λ q. times-still_set isset q b.readset) inv)
LoopStep-Inv {w} {b} {b'} (chosen fd rest at e e') calm inv =
    subst Inv (sym e') (chosen-Inv b inv fd rest e)
LoopStep-Inv {w} {b} {b'} (refused fd rest stream at e e') calm inv =
    subst Inv (sym e') (refused-Inv b inv fd w rest stream e)
LoopStep-Inv {w} {b} {b'} (served at e e') calm inv =
    subst Inv (sym e')
      (fewer-Inv b (record b { place = top }) refl refl refl (λ q. omega arith) inv)
LoopStep-Inv {w} {b} {b'} (handled fd ys zs stream r e run e') calm inv =
    subst Inv (sym e') (handled-Inv b inv fd w ys zs stream r e calm run)
LoopStep-Inv {w} {b} {b'} (cleared fd ys zs e e') calm inv =
    subst Inv (sym e') (cleared-Inv b inv fd ys zs e)

Reach-Inv : {w : World} {path : Text} {b : Loop} → Reach w path b → Inv b
Reach-Inv {w} {path} here = λ q. unfold no_clients times Fits in (refl, omega arith, refl)
Reach-Inv (next r st calm) = LoopStep-Inv st calm (Reach-Inv r)

one_task_of :
    (f : Option Bool) (w c r : ℕ) → Fits f w c r → (w + c + r ≤ 1) × (w ≡ 1 → f ≡ some true)
unfolding Fits
one_task_of none w c r fits = (omega arith, λ e. absurd (omega arith))
one_task_of (some true) w c r fits = (omega arith, λ e. refl)
one_task_of (some false) w c r fits = (omega arith, λ e. absurd (omega arith))

-- After any calm steps from the start a connection has at most one task, and none while the loop has
-- still to look at it; a task whose request is not yet handled has a client, with its flag set.
pub one_task :
    {w : World} {path : Text} {b : Loop} (fd : ℕ)
    → Reach w path b
    → (times fd b.waiting + times fd b.clearing + times fd b.readset ≤ 1)
      × (times fd b.waiting ≡ 1 → flag b.server fd ≡ some true)
one_task fd r = one_task_of _ _ _ _ (Reach-Inv r fd)

client_of :
    (s : Server) (fd : ℕ)
    → flag s fd ≡ some false
    → (info : ClientInfo) × (s.client fd ≡ some info) × (info.in_thread ≡ false)
client_of s fd e = elim (Option-cases (s.client fd)) [
  | inl gone ↦ absurd (ground arith)
  | inr (info, there) ↦ (info, there, ground arith)
]

-- After any calm steps from the start, where the loop turns to a ready descriptor there is a client
-- under it, so `choose_thread` writes to an entry that is there, and no task of that connection is
-- left.
pub next_client :
    {w : World} {path : Text} {b : Loop} (fd : ℕ) (rest : List ℕ)
    → Reach w path b
    → b.readset ≡ fd ∷ rest
    → ((info : ClientInfo) × (b.server.client fd ≡ some info) × (info.in_thread ≡ false))
      × (times fd b.waiting ≡ 0)
      × (times fd b.clearing ≡ 0)
next_client {w} {path} {b} fd rest r e =
    let (f, wt, c, left) = picked b (Reach-Inv r) fd rest e in (client_of b.server fd f, wt, c)

-- The tasks of the descriptors from `fd` on.
unfoldable from : ℕ → List ℕ → ℕ
from fd [] = 0
from fd (x ∷ xs) = let rest = from fd xs in if ltb x fd then rest else suc rest

from-suc : (fd : ℕ) (l : List ℕ) → from fd l ≡ times fd l + from (suc fd) l
unfolding from times
from-suc fd [] = refl
from-suc fd (x ∷ xs) = ground (arith, from-suc fd xs)

from_length : (fd : ℕ) (l : List ℕ) → from fd l ≤ length l
unfolding from
from_length fd [] = omega arith
from_length fd (x ∷ xs) = ground (arith, from_length fd xs)

tally_count :
    (f : Option Bool) (fd w c r : ℕ) (found : List ℕ × ℕ)
    → Fits f w c r
    → (tally f fd found).1 ≤ w + c + found.1
unfolding tally Fits
tally_count none fd w c r found fits = omega arith
tally_count (some true) fd w c r found fits = omega arith
tally_count (some false) fd w c r found fits = omega arith

scan_count :
    (b : Loop) (left fd : ℕ)
    → Inv b
    → (scan b.server left fd).1 ≤ from fd b.waiting + from fd b.clearing
unfolding scan
scan_count b zero fd inv = omega arith
scan_count b (suc left) fd inv =
    let now = tally_count _ fd _ _ _ (scan b.server left (suc fd)) (inv fd) in
    let behind = scan_count b left (suc fd) inv in
    let w = from-suc fd b.waiting in let c = from-suc fd b.clearing in omega arith

-- After any calm steps from the start, the number of threads that the loop notes for the signal
-- handler is never above the number of tasks that are not yet finished.
pub active_thread_num_bound :
    {w : World} {path : Text} {b : Loop}
    → Reach w path b
    → (look b).active_thread_num ≤ length b.waiting + length b.clearing
active_thread_num_bound {w} {path} {b} r =
    let seen = scan_count b 1022 2 (Reach-Inv r) in
    let wt = from_length 2 b.waiting in let c = from_length 2 b.clearing in omega arith
