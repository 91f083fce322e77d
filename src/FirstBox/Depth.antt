-- ===== src/FirstBox/Depth.antt =====
-- `longest_path` of MP2/src/csiebox_client.c: the first of the deepest entries of the directory.
use ntu_system_programming.Common.{
  ℕ, ◌+◌, ◌≤◌, ◌<◌, ◌≡◌, ◌≢◌, ◌⊎◌, refl, sym, ◌∙◌, ap, arith, List, [], ◌∷◌, ◌++◌, ltb, ◌==◌,
  Bool-cases, inl, inr, drop,
}
use ntu_system_programming.FirstBox.{
  Flag, regular, directory, symbolic, other, FtwEntry, Client, fresh, on_file, on_flag, note_path,
  process, traverse,
}
use ntu_system_programming.FirstBox.Links.{on_flag-base, base_kept}
use ntu_system_programming.FirstBox.Traverse.{process_root, process_below, first_base, rooted}

-- Every entry is of a level below `n`.
unfoldable pub AllBelow : ℕ → List FtwEntry → Type 0
AllBelow n [] = Unit
AllBelow n (e ∷ es) = (e.level < n) × AllBelow n es

AllBelow-le : (n m : ℕ) (es : List FtwEntry) → n ≤ m → AllBelow n es → AllBelow m es
unfolding AllBelow
AllBelow-le n m [] le all = tt
AllBelow-le n m (e ∷ es) le all = (omega (arith, all.0), AllBelow-le n m es le (all.1))

below_cons :
    (n : ℕ) (e : FtwEntry) (es : List FtwEntry) → e.level < n → AllBelow n es → AllBelow n (e ∷ es)
unfolding AllBelow
below_cons n e es lt all = (lt, all)

-- The first of the deepest entries of `es` is deeper than `level`, and is what the client keeps.
pub record Deepest (level base : ℕ) (es : List FtwEntry) (c : Client) : Type 0 where
  pub entry : FtwEntry
  pub before : List FtwEntry
  pub behind : List FtwEntry
  pub split : es ≡ before ++ (entry ∷ behind)
  pub deeper : level < entry.level
  pub first : AllBelow (entry.level) before
  pub last : AllBelow (entry.level + 1) behind
  pub is_level : c.level ≡ entry.level
  pub is_longest : c.longest_path ≡ drop base entry.file

-- Or no entry is deeper, and the client keeps what it had.
pub record Kept (c : Client) (es : List FtwEntry) (c' : Client) : Type 0 where
  pub shallow : AllBelow (c.level + 1) es
  pub same_level : c'.level ≡ c.level
  pub same_longest : c'.longest_path ≡ c.longest_path

on_flag_depth :
    (f : Flag) (c : Client) (e : FtwEntry)
    → ((on_flag f c e).level ≡ c.level) × ((on_flag f c e).longest_path ≡ c.longest_path)
unfolding on_flag on_file
on_flag_depth regular c e = (ground arith, ground arith)
on_flag_depth directory c e = (refl, refl)
on_flag_depth symbolic c e = (refl, refl)
on_flag_depth other c e = (refl, refl)

note_path_deeper :
    (c : Client) (e : FtwEntry)
    → c.level < e.level
    → ((note_path c e).level ≡ e.level)
      × ((note_path c e).longest_path ≡ drop (note_path c e).base e.file)
unfolding note_path
note_path_deeper c e lt = (ground arith, ground arith)

note_path_shallow :
    (c : Client) (e : FtwEntry)
    → e.level ≤ c.level
    → ((note_path c e).level ≡ c.level) × ((note_path c e).longest_path ≡ c.longest_path)
unfolding note_path
note_path_shallow c e le = (ground arith, ground arith)

deeper_step :
    (c : Client) (e : FtwEntry)
    → c.level < e.level
    → ((process c e).level ≡ e.level)
      × ((process c e).longest_path ≡ drop (note_path c e).base e.file)
      × ((process c e).base ≡ (note_path c e).base)
deeper_step c e lt =
    let (l, p) = on_flag_depth e.flag (note_path c e) e in
    let (l', p') = note_path_deeper c e lt in
    rw (process_below c e (omega arith)) (l ∙ l', p ∙ p', on_flag-base e.flag (note_path c e) e)

shallow_step :
    (c : Client) (e : FtwEntry)
    → c.base ≢ 0
    → e.level ≤ c.level
    → ((process c e).level ≡ c.level)
      × ((process c e).longest_path ≡ c.longest_path)
      × ((process c e).base ≡ c.base)
shallow_step c e set_base le = elim (Bool-cases (e.level == 0)) [
  | inl root ↦ rw (process_root c e (ground arith)) (refl, refl, refl)
  | inr below ↦
      let (l, p) = on_flag_depth e.flag (note_path c e) e in
      let (l', p') = note_path_shallow c e le in
      rw (process_below c e (ground arith))
        (l ∙ l', p ∙ p', on_flag-base e.flag (note_path c e) e ∙ base_kept c e set_base)
]

traverse_depth :
    (c : Client) (es : List FtwEntry) (b : ℕ)
    → c.base ≡ b
    → b ≢ 0
    → Kept c es (traverse c es) ⊎ Deepest c.level b es (traverse c es)
unfolding traverse
traverse_depth c [] b is nz =
    inl (record { shallow = unfold AllBelow in tt; same_level = refl; same_longest = refl })
traverse_depth c (e ∷ es) b is nz = elim (Bool-cases (ltb c.level e.level)) [
  | inl deeper ↦
      let lt : c.level < e.level = ground arith in
      let (l, p, bs) = deeper_step c e lt in
      let same = base_kept c e (λ z. nz (sym is ∙ z)) in
      let bs' : (process c e).base ≡ b = bs ∙ same ∙ is in
      elim (traverse_depth (process c e) es b bs' nz) [
        | inl kept ↦ inr (record {
          entry = e;
          before = [];
          behind = es;
          split = refl;
          deeper = ground arith;
          first = unfold AllBelow in tt;
          last = AllBelow-le _ _ es (omega arith) kept.shallow;
          is_level = kept.same_level ∙ l;
          is_longest = kept.same_longest ∙ p ∙ ap (λ n. drop n e.file) (same ∙ is);
        })
        | inr deep ↦ inr (record {
          entry = deep.entry;
          before = e ∷ deep.before;
          behind = deep.behind;
          split = ap (λ l. e ∷ l) deep.split;
          deeper = omega (arith, deep.deeper);
          first = below_cons _ e deep.before (omega (arith, deep.deeper)) deep.first;
          last = deep.last;
          is_level = deep.is_level;
          is_longest = deep.is_longest;
        })
      ]
  | inr ge ↦
      let le : e.level ≤ c.level = ground arith in
      let (l, p, bs) = shallow_step c e (λ z. nz (sym is ∙ z)) le in
      elim (traverse_depth (process c e) es b (bs ∙ is) nz) [
        | inl kept ↦ inl (record {
          shallow = below_cons _ e es (omega arith) (AllBelow-le _ _ es (omega arith) kept.shallow);
          same_level = kept.same_level ∙ l;
          same_longest = kept.same_longest ∙ p;
        })
        | inr deep ↦ inr (record {
          entry = deep.entry;
          before = e ∷ deep.before;
          behind = deep.behind;
          split = ap (λ l. e ∷ l) deep.split;
          deeper = omega (arith, deep.deeper);
          first = below_cons _ e deep.before (omega (arith, deep.deeper)) deep.first;
          last = deep.last;
          is_level = deep.is_level;
          is_longest = deep.is_longest;
        })
      ]
]

-- After the walk over a directory with anything in it, `longest_path` is the path below the root of
-- the first of the deepest entries, and `level` its level. Entries of every kind count, symbolic links
-- too.
pub longest_path_lem :
    (root first : FtwEntry) (es : List FtwEntry)
    → root.level ≡ 0
    → first.level ≡ 1
    → first.base ≢ 0
    → Deepest 0 first.base (first ∷ es) (traverse fresh (root ∷ first ∷ es))
unfolding traverse
longest_path_lem root first es at_root below based =
    let c = rooted root in
    let (l, p, b) = deeper_step c first (omega arith) in
    let base = first_base c first refl below in
    rw (process_root fresh root at_root)
      (elim (traverse_depth (process c first) es first.base (b ∙ base) based) [
        | inl kept ↦ record {
          entry = first;
          before = [];
          behind = es;
          split = refl;
          deeper = omega arith;
          first = unfold AllBelow in tt;
          last = AllBelow-le _ _ es (omega arith) kept.shallow;
          is_level = kept.same_level ∙ l;
          is_longest = kept.same_longest ∙ p ∙ ap (λ n. drop n first.file) base;
        }
        | inr deep ↦ record {
          entry = deep.entry;
          before = first ∷ deep.before;
          behind = deep.behind;
          split = ap (λ xs. first ∷ xs) deep.split;
          deeper = omega (arith, deep.deeper);
          first = below_cons _ first deep.before (omega (arith, deep.deeper)) deep.first;
          last = deep.last;
          is_level = deep.is_level;
          is_longest = deep.is_longest;
        }
      ])
