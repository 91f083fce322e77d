-- ===== src/BoxClient/Paths.antt =====
-- The path of a file relative to the root of the client: what `convert_to_relative_path` makes.
use ntu_system_programming.Common.{
  ℕ, zero, suc, ◌+◌, ◌-◌, ◌≤◌, ◌<◌, ◌≡◌, ◌≢◌, ◌↔◌, refl, sym, ap, ◌∙◌, true, some, List, [], ◌∷◌,
  ◌++◌, leb, ltb, ◌==◌, if◌then◌else◌, length, get_or, set, take, arith, length-append, length-set,
  get_or-set, length-take, Bool-cases, inl, inr,
}
use ntu_system_programming.BoxServer.{Text}
use ntu_system_programming.BoxServer.Files.{up_to_nul}
use ntu_system_programming.BoxClient.{is_prefix, shift_loop, absolute, convert_to_relative_path}

length-shift_loop :
    (n i rootlen : ℕ) (ret : List ℕ) → length (shift_loop n i rootlen ret) ≡ length ret
unfolding shift_loop
length-shift_loop zero i rootlen ret = refl
length-shift_loop (suc n) i rootlen ret =
    length-shift_loop n (suc i) rootlen _
    ∙ length-set ret i (if ltb i rootlen then get_or ret (i + rootlen) 0 else 0)

-- The places before the loop are left alone.
get_or-shift_before :
    (n i rootlen : ℕ) (ret : List ℕ) (j : ℕ)
    → i + n ≤ length ret
    → j < i
    → get_or (shift_loop n i rootlen ret) j 0 ≡ get_or ret j 0
unfolding shift_loop
get_or-shift_before zero i rootlen ret j room below = refl
get_or-shift_before (suc n) i rootlen ret j room below =
    let v = if ltb i rootlen then get_or ret (i + rootlen) 0 else 0 in
    get_or-shift_before n (suc i) rootlen (set ret i v) j (omega (arith, length-set ret i v))
      (omega arith)
    ∙ get_or-set ret i j v 0 (omega arith)
    ∙ ground arith

-- The array after the loop.
get_or-shift_loop :
    (n i rootlen : ℕ) (ret : List ℕ) (j : ℕ)
    → i + n ≤ length ret
    → i ≤ j
    → j < i + n
    → get_or (shift_loop n i rootlen ret) j 0
      ≡ (if ltb j rootlen then get_or ret (j + rootlen) 0 else 0)
unfolding shift_loop
get_or-shift_loop zero i rootlen ret j room from below = absurd (omega arith)
get_or-shift_loop (suc n) i rootlen ret j room from below =
    let v = if ltb i rootlen then get_or ret (i + rootlen) 0 else 0 in
    elim (Bool-cases (i == j)) [
      | inl here ↦
          let e : i ≡ j = ground arith in
          get_or-shift_before n (suc i) rootlen (set ret i v) j (omega (arith, length-set ret i v))
            (omega (arith, e))
          ∙ get_or-set ret i j v 0 (omega arith)
          ∙ rw (here, e) refl
      | inr there ↦
          get_or-shift_loop n (suc i) rootlen (set ret i v) j (omega (arith, length-set ret i v))
            (ground arith) (omega arith)
          ∙ ground (arith, get_or-set ret i (j + rootlen) v 0)
    ]

-- A string that an array holds, with the NUL behind it.
up_to_nul_lem :
    (t a : Text)
    → length t < length a
    → ((k : ℕ) → k < length t → (get_or a k 0 ≡ get_or t k 0) × (get_or t k 0 ≢ 0))
    → get_or a (length t) 0 ≡ 0
    → up_to_nul a ≡ t
unfolding up_to_nul
up_to_nul_lem t [] small same end = absurd (omega arith)
up_to_nul_lem [] (b ∷ a) small same end = ground arith
up_to_nul_lem (c ∷ t) (b ∷ a) small same end =
    let (e, ne) = same 0 (omega arith) in
    let rest = up_to_nul_lem t a (omega arith) (λ k lt. same (suc k) (omega arith)) end in
    ground (arith, e, ne, rest)

get_or-append :
    (xs ys : List ℕ) (k : ℕ)
    → get_or (xs ++ ys) k 0
      ≡ (if ltb k (length xs) then get_or xs k 0 else get_or ys (k - length xs) 0)
get_or-append [] ys k = ground arith
get_or-append (x ∷ xs) ys zero = ground arith
get_or-append (x ∷ xs) ys (suc k) = ground (arith, get_or-append xs ys k)

is_prefix-append : (root rel : Text) → is_prefix root (root ++ rel) ≡ true
unfolding is_prefix
is_prefix-append [] rel = refl
is_prefix-append (a ∷ root) rel = ground (arith, is_prefix-append root rel)

get_or-take :
    (n k : ℕ) (xs : List ℕ) → get_or (take n xs) k 0 ≡ (if ltb k n then get_or xs k 0 else 0)
get_or-take zero k xs = ground arith
get_or-take (suc n) k [] = ground arith
get_or-take (suc n) zero (x ∷ xs) = ground arith
get_or-take (suc n) (suc k) (x ∷ xs) = ground (arith, get_or-take n k xs)

get_or-end : (xs : Text) (k : ℕ) → length xs ≤ k → get_or xs k 0 ≡ 0
get_or-end [] k le = refl
get_or-end (x ∷ xs) zero le = absurd (omega arith)
get_or-end (x ∷ xs) (suc k) le = get_or-end xs k (omega arith)

take_all : (n : ℕ) (xs : Text) → length xs ≤ n → take n xs ≡ xs
take_all zero [] le = refl
take_all zero (x ∷ xs) le = absurd (omega arith)
take_all (suc n) [] le = refl
take_all (suc n) (x ∷ xs) le = ap (λ l. x ∷ l) (take_all n xs (omega arith))

-- The byte `k` behind the root.
get_or-behind :
    (root rel junk : Text) (k : ℕ)
    → k ≤ length rel
    → get_or ((root ++ rel) ++ 0 ∷ junk) (k + length root) 0 ≡ get_or rel k 0
get_or-behind root rel junk k le = ground (
  arith,
  get_or-append (root ++ rel) (0 ∷ junk) (k + length root),
  get_or-append root rel (k + length root),
  length-append root rel,
  get_or-end rel k,
)

abbrev array : Text → Text → Text → List ℕ
array root rel junk = (root ++ rel) ++ 0 ∷ junk

module _ (root rel junk : Text) (some_root : 0 < length root) where
  after_loop :
      (k : ℕ)
      → k < length (root ++ rel)
      → k ≤ length rel
      → get_or (shift_loop (length (root ++ rel)) 0 (length root) (array root rel junk)) k 0
        ≡ (if ltb k (length root) then get_or rel k 0 else 0)
  after_loop k inside le =
      get_or-shift_loop (length (root ++ rel)) 0 (length root) (array root rel junk) k
        (omega (arith, length-append (root ++ rel) (0 ∷ junk))) (omega arith)
        (omega (arith, inside))
      ∙ ap (λ b. if ltb k (length root) then b else 0) (get_or-behind root rel junk k le)

  shift_loop-take :
      ((k : ℕ) → k < length rel → get_or rel k 0 ≢ 0)
      → up_to_nul (shift_loop (length (root ++ rel)) 0 (length root) (array root rel junk))
        ≡ take (length root) rel
  shift_loop-take no_nul =
      let whole = length-append root rel in
      let cut = length-take (length root) rel in
      up_to_nul_lem (take (length root) rel)
        (shift_loop (length (root ++ rel)) 0 (length root) (array root rel junk))
        (omega (
          arith,
          length-shift_loop (length (root ++ rel)) 0 (length root) (array root rel junk),
          length-append (root ++ rel) (0 ∷ junk),
          whole,
          cut,
        ))
        (λ k lt.
          let inside : k < length rel = omega (arith, cut, lt) in
          let same = after_loop k (omega (arith, whole, inside)) (omega (arith, inside)) in
          let place : ltb k (length root) ≡ true = ground (arith, cut) in
          let taken : get_or (take (length root) rel) k 0 ≡ get_or rel k 0 =
            get_or-take (length root) k rel ∙ ap (λ b. if b then get_or rel k 0 else 0) place in
          (
            same ∙ ap (λ b. if b then get_or rel k 0 else 0) place ∙ sym taken,
            λ z. no_nul k inside (sym taken ∙ z),
          ))
        (let end = length (take (length root) rel) in
          after_loop end (omega (arith, whole, cut)) (omega (arith, cut))
          ∙ ground (arith, cut, get_or-end rel end))

-- For a file behind the root of the client, which is not empty and of at most half of PATH_MAX bytes, and
-- a rest of the path without a NUL, the result is this rest cut to as many bytes as the root has; so it
-- is the whole rest exactly if the root is as long.
pub convert_to_relative_path_lem :
    (root cwd path rel junk : Text)
    → absolute cwd path ≡ some (root ++ rel)
    → 0 < length root
    → length root ≤ 2048
    → ((k : ℕ) → k < length rel → get_or rel k 0 ≢ 0)
    → (convert_to_relative_path root cwd path junk ≡ some (some (take (length root) rel)))
      × ((take (length root) rel ≡ rel) ↔ (length rel ≤ length root))
unfolding convert_to_relative_path
convert_to_relative_path_lem root cwd path rel junk at some_root small no_nul =
    let short : leb (length root) 2048 ≡ true = ground arith in
    (
      rw (at, is_prefix-append root rel, short, shift_loop-take root rel junk some_root no_nul)
          refl,
      (λ e. omega (arith, length-take (length root) rel, ap length e), take_all (length root) rel),
    )
