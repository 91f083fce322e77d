-- ===== src/BoxServer/Loop/Tasks.antt =====
-- How often a descriptor stands in a list, and how the flag of a connection goes with its tasks.
use ntu_system_programming.Common.{
  ℕ, zero, suc, ◌+◌, ◌≤◌, ◌<◌, ◌≡◌, ◌≢◌, ◌⊎◌, refl, sym, ◌∙◌, ap, arith, Bool, true, false, Option,
  none, some, List, [], ◌∷◌, ◌++◌, if◌then◌else◌, Bool-cases, inl, inr, ◌==◌,
}
use ntu_system_programming.BoxServer.{Server}
use ntu_system_programming.BoxServer.Requests.{mark}
use ntu_system_programming.BoxServer.Loop.{flag, tally, scan, still_set}

unfoldable pub times : ℕ → List ℕ → ℕ
times q [] = 0
times q (x ∷ xs) = let rest = times q xs in if x == q then suc rest else rest

pub times-middle :
    (q fd : ℕ) (ys zs : List ℕ) → times q (ys ++ (fd ∷ zs)) ≡ times q (fd ∷ (ys ++ zs))
unfolding times
times-middle q fd [] zs = refl
times-middle q fd (y ∷ ys) zs = ground (arith, times-middle q fd ys zs)

-- How the flag of a connection goes with its tasks: waiting, with the flag still to clear, and its
-- places in the set the loop looks at.
unfoldable pub Fits : Option Bool → ℕ → ℕ → ℕ → Type 0
Fits none w c r = (w ≡ 0) × (c ≤ 1) × (r ≡ 0)
Fits (some true) w c r = (w + c ≡ 1) × (r ≡ 0)
Fits (some false) w c r = (w ≡ 0) × (c ≡ 0) × (r ≤ 1)

pub times-tally :
    (f : Option Bool) (fd q : ℕ) (r : List ℕ × ℕ)
    → (fd ≢ q → times q (tally f fd r).0 ≡ times q (r.0))
      × (times q (tally f fd r).0 ≤ suc (times q (r.0)))
      × (f ≢ some false → times q (tally f fd r).0 ≡ times q (r.0))
unfolding tally times
times-tally none fd q r = (λ ne. refl, omega arith, λ ne. refl)
times-tally (some true) fd q r = (λ ne. refl, omega arith, λ ne. refl)
times-tally (some false) fd q r = (λ ne. ground arith, ground arith, λ ne. absurd (ne refl))

pub scan_below : (s : Server) (left fd q : ℕ) → q < fd → times q (scan s left fd).0 ≡ 0
unfolding scan
scan_below s zero fd q lt = unfold times in refl
scan_below s (suc left) fd q lt =
    (times-tally (flag s fd) fd q (scan s left (suc fd))).0 (omega arith)
    ∙ scan_below s left (suc fd) q (omega arith)

-- The scan takes a descriptor at most once, and none whose flag is set or that has no client.
pub scan_once : (s : Server) (left fd q : ℕ) → times q (scan s left fd).0 ≤ 1
unfolding scan
scan_once s zero fd q = unfold times in omega arith
scan_once s (suc left) fd q =
    let (other, more, not_free) = times-tally (flag s fd) fd q (scan s left (suc fd)) in
    elim (Bool-cases (fd == q)) [
      | inl same ↦ let none_behind = scan_below s left (suc fd) q (ground arith) in omega arith
      | inr differs ↦
          let as_before = other (ground arith) in
          let behind = scan_once s left (suc fd) q in omega arith
    ]

pub scan_free :
    (s : Server) (left fd q : ℕ) → flag s q ≢ some false → times q (scan s left fd).0 ≡ 0
unfolding scan
scan_free s zero fd q ne = unfold times in refl
scan_free s (suc left) fd q ne =
    let (other, more, not_free) = times-tally (flag s fd) fd q (scan s left (suc fd)) in
    let behind = scan_free s left (suc fd) q ne in
    elim (Bool-cases (fd == q)) [
      | inl same ↦
          let e : fd ≡ q = ground arith in not_free (λ f. ne (ap (flag s) (sym e) ∙ f)) ∙ behind
      | inr differs ↦ other (ground arith) ∙ behind
    ]

pub times-still_set :
    (isset : ℕ → Bool) (q : ℕ) (fds : List ℕ) → times q (still_set isset fds) ≤ times q fds
unfolding times still_set
times-still_set isset q [] = omega arith
times-still_set isset q (fd ∷ fds) = ground (arith, times-still_set isset q fds)

pub flag-mark :
    (s : Server) (fd q : ℕ) (v : Bool)
    → (fd ≢ q → flag (mark s fd v) q ≡ flag s q)
      × ((flag s fd ≢ none) → flag (mark s fd v) fd ≡ some v)
      × ((flag s fd ≡ none) → flag (mark s fd v) fd ≡ none)
flag-mark s fd q v = (λ ne. ground arith, λ there. ground arith, λ gone. ground arith)

pub Fits-scan :
    (f : Option Bool) (w c r r' : ℕ)
    → r' ≤ 1
    → (f ≢ some false → r' ≡ 0)
    → Fits f w c r
    → Fits f w c r'
unfolding Fits
Fits-scan none w c r r' le zero_r fits = (fits.0, fits.1, zero_r (λ e. cc))
Fits-scan (some true) w c r r' le zero_r fits = (fits.0, zero_r (λ e. cc))
Fits-scan (some false) w c r r' le zero_r fits = (fits.0, fits.1, le)

pub Fits-fewer : (f : Option Bool) (w c r r' : ℕ) → r' ≤ r → Fits f w c r → Fits f w c r'
unfolding Fits
Fits-fewer none w c r r' le fits = (fits.0, fits.1, omega arith)
Fits-fewer (some true) w c r r' le fits = (fits.0, omega arith)
Fits-fewer (some false) w c r r' le fits = (fits.0, fits.1, omega arith)

pub Fits-pick :
    (f : Option Bool) (w c r : ℕ)
    → Fits f w c (suc r)
    → (f ≡ some false) × (w ≡ 0) × (c ≡ 0) × (r ≡ 0)
unfolding Fits
Fits-pick none w c r fits = absurd (omega arith)
Fits-pick (some true) w c r fits = absurd (omega arith)
Fits-pick (some false) w c r fits = (refl, fits.0, fits.1, omega arith)

pub Fits-task :
    (f : Option Bool) (w c r : ℕ)
    → Fits f (suc w) c r
    → (f ≡ some true) × (w ≡ 0) × (c ≡ 0) × (r ≡ 0)
unfolding Fits
Fits-task none w c r fits = absurd (omega arith)
Fits-task (some true) w c r fits = (refl, omega arith, omega arith, fits.1)
Fits-task (some false) w c r fits = absurd (omega arith)

pub Fits-clear :
    (f : Option Bool) (w c r : ℕ)
    → Fits f w (suc c) r
    → ((f ≡ some true) ⊎ (f ≡ none)) × (w ≡ 0) × (c ≡ 0) × (r ≡ 0)
unfolding Fits
Fits-clear none w c r fits = (inr refl, fits.0, omega arith, fits.2)
Fits-clear (some true) w c r fits = (inl refl, omega arith, omega arith, fits.1)
Fits-clear (some false) w c r fits = absurd (omega arith)

-- No task, and nothing to look at: any flag but a set one fits.
pub Fits-idle : (f : Option Bool) → f ≢ some true → Fits f 0 0 0
unfolding Fits
Fits-idle none ne = (refl, omega arith, refl)
Fits-idle (some true) ne = absurd (ne refl)
Fits-idle (some false) ne = (refl, refl, omega arith)

pub Fits-flag : (f : Option Bool) (w c r : ℕ) → w + c ≡ 0 → Fits f w c r → f ≢ some true
unfolding Fits
Fits-flag none w c r e fits e' = cc
Fits-flag (some true) w c r e fits e' = omega arith
Fits-flag (some false) w c r e fits e' = cc

pub times_self : (fd : ℕ) (l : List ℕ) → times fd (fd ∷ l) ≡ suc (times fd l)
unfolding times
times_self fd l = ground arith

pub times_other : (fd q : ℕ) (l : List ℕ) → fd ≢ q → times q (fd ∷ l) ≡ times q l
unfolding times
times_other fd q l ne = ground arith
