-- ===== src/FirstBox/Links.antt =====
-- The requests of the walk of MP2/src/csiebox_client.c, against a list of them that is read from the
-- entries alone: a regular file with several links is looked up among the entries before it.
use ntu_system_programming.Common.{
  ℕ, ◌≡◌, ◌≢◌, refl, sym, ◌∙◌, ap, arith, Bool, true, false, Option, none, some, List, [], ◌∷◌,
  ◌++◌, ltb, ◌==◌, ◌&&◌, not, if◌then◌else◌, Bool-cases, Option-cases, inl, inr, drop,
}
use mathlib.Core.List.{append_assoc, append-nil}
use ntu_system_programming.Common.Strings.{Text}
use ntu_system_programming.FirstBox.{
  Flag, regular, directory, symbolic, other, FtwEntry, Request, syn_file, syn_dir, hard_link,
  Client, find_ino, on_file, on_flag, note_path, process, traverse, symlink_request,
}

abbrev pub is_regular : Flag → Bool
is_regular regular = true
is_regular directory = false
is_regular symbolic = false
is_regular other = false

-- A regular file with several links.
unfoldable pub has_links : Flag → FtwEntry → Bool
has_links f e = is_regular f && ltb 1 e.nlink

-- The name of the first of the entries that is a file with several links, below the root, of the inode.
unfoldable pub first_name : ℕ → List FtwEntry → Option Text
first_name ino [] = none
first_name ino (e ∷ es) =
    let rest = first_name ino es in
    if not (e.level == 0) && (has_links e.flag e && (e.ino == ino)) then some (e.file) else rest

-- A file with several links is sent under its first name, and every further name is a link to it.
unfoldable pub linked_request : ℕ → Option Text → Text → Request
linked_request base none file = syn_file file
linked_request base (some name) file = hard_link (drop base file) (drop base name)

unfoldable pub flag_requests : Flag → ℕ → Option Text → FtwEntry → List Request
flag_requests regular base name e =
    (if ltb 1 e.nlink then linked_request base name (e.file) else syn_file (e.file)) ∷ []
flag_requests directory base name e = syn_dir (e.file) ∷ []
flag_requests symbolic base name e = symlink_request base (e.file) (e.link) ∷ []
flag_requests other base name e = []

unfoldable pub entry_requests : ℕ → List FtwEntry → FtwEntry → List Request
entry_requests base before e =
    if e.level == 0 then [] else flag_requests e.flag base (first_name e.ino before) e

-- What is asked for entries that come behind the entries `before`.
unfoldable pub requests_of : ℕ → List FtwEntry → List FtwEntry → List Request
requests_of base before [] = []
requests_of base before (e ∷ es) =
    entry_requests base before e ++ requests_of base (before ++ (e ∷ [])) es

abbrev or_else : Option Text → Option Text → Option Text
or_else none b = b
or_else (some a) b = some a

find_ino-append :
    (ino : ℕ) (l : List (Text × ℕ)) (name : Text) (n : ℕ)
    → find_ino ino (l ++ ((name, n) ∷ []))
      ≡ or_else (find_ino ino l) (if n == ino then some name else none)
unfolding find_ino
find_ino-append ino [] name n = refl
find_ino-append ino ((other_name, m) ∷ l) name n = ground (arith, find_ino-append ino l name n)

first_name-append :
    (ino : ℕ) (es : List FtwEntry) (e : FtwEntry)
    → first_name ino (es ++ (e ∷ []))
      ≡ or_else (first_name ino es) (
          if not (e.level == 0) && (has_links e.flag e && (e.ino == ino))
          then some (e.file)
          else none)
unfolding first_name
first_name-append ino [] e = refl
first_name-append ino (x ∷ es) e =
    elim (Bool-cases (not (x.level == 0) && (has_links x.flag x && (x.ino == ino)))) [
      | inl hit ↦ rw hit refl
      | inr miss ↦ rw miss (first_name-append ino es e)
    ]

-- The base does not change once it is set.
pub base_kept : (c : Client) (e : FtwEntry) → c.base ≢ 0 → (note_path c e).base ≡ c.base
unfolding note_path
base_kept c e set_base = ground arith

pub on_flag-base : (f : Flag) (c : Client) (e : FtwEntry) → (on_flag f c e).base ≡ c.base
unfolding on_flag on_file
on_flag-base regular c e = ground arith
on_flag-base directory c e = refl
on_flag-base symbolic c e = refl
on_flag-base other c e = refl

pub process-base : (c : Client) (e : FtwEntry) → (process c e).base ≡ (note_path c e).base
unfolding process
process-base c e = elim (Bool-cases (e.level == 0)) [
  | inl root ↦ rw root (unfold note_path in ground arith)
  | inr below ↦ rw below (on_flag-base e.flag (note_path c e) e)
]

on_file-requests :
    (c : Client) (e : FtwEntry)
    → (on_file c e).requests
      ≡ c.requests ++ flag_requests regular c.base (find_ino e.ino c.hl_list) e
unfolding on_file flag_requests
on_file-requests c e = elim (Bool-cases (ltb 1 e.nlink)) [
  | inl several ↦ elim (Option-cases (find_ino e.ino c.hl_list)) [
    | inl new ↦ rw (several, new) (unfold linked_request in refl)
    | inr (name, seen) ↦ rw (several, seen) (unfold linked_request in refl)
  ]
  | inr single ↦ rw single refl
]

on_flag-requests :
    (f : Flag) (c : Client) (e : FtwEntry)
    → (on_flag f c e).requests ≡ c.requests ++ flag_requests f c.base (find_ino e.ino c.hl_list) e
unfolding on_flag flag_requests
on_flag-requests regular c e = on_file-requests c e
on_flag-requests directory c e = refl
on_flag-requests symbolic c e = refl
on_flag-requests other c e = sym (append-nil c.requests)

keep_once :
    (ino n : ℕ) (l : List (Text × ℕ)) (name : Text)
    → find_ino n l ≢ none
    → or_else (find_ino ino l) (if n == ino then some name else none) ≡ find_ino ino l
keep_once ino n l name seen = elim (Bool-cases (n == ino)) [
  | inl same ↦
      let i : n ≡ ino = ground (arith, same) in
      elim (Option-cases (find_ino ino l)) [
        | inl gone ↦ absurd (seen (ap (λ k. find_ino k l) i ∙ gone))
        | inr (m, there) ↦ rw there refl
      ]
  | inr differs ↦ elim (Option-cases (find_ino ino l)) [
    | inl gone ↦ rw (differs, gone) refl
    | inr (m, there) ↦ rw there refl
  ]
]

on_file-hl_list :
    (c : Client) (e : FtwEntry) (ino : ℕ)
    → find_ino ino (on_file c e).hl_list
      ≡ or_else
          (find_ino ino c.hl_list)
          (if has_links regular e && (e.ino == ino) then some (e.file) else none)
unfolding on_file has_links
on_file-hl_list c e ino = elim (Bool-cases (ltb 1 e.nlink)) [
  | inl several ↦ elim (Option-cases (find_ino e.ino c.hl_list)) [
    | inl new ↦ rw (several, new) (find_ino-append ino c.hl_list e.file e.ino)
    | inr (name, seen) ↦
        let held : find_ino e.ino c.hl_list ≢ none = λ gone. ground (arith, seen, gone) in
        rw (several, seen) (sym (keep_once ino e.ino c.hl_list e.file held))
  ]
  | inr single ↦ elim (Option-cases (find_ino ino c.hl_list)) [
    | inl gone ↦ rw (single, gone) refl
    | inr (m, there) ↦ rw (single, there) refl
  ]
]

nothing_more : (found : Option Text) → found ≡ or_else found none
nothing_more none = refl
nothing_more (some name) = refl

on_flag-hl_list :
    (f : Flag) (c : Client) (e : FtwEntry) (ino : ℕ)
    → find_ino ino (on_flag f c e).hl_list
      ≡ or_else
          (find_ino ino c.hl_list)
          (if has_links f e && (e.ino == ino) then some (e.file) else none)
unfolding on_flag
on_flag-hl_list regular c e ino = on_file-hl_list c e ino
on_flag-hl_list directory c e ino = unfold has_links in nothing_more (find_ino ino c.hl_list)
on_flag-hl_list symbolic c e ino = unfold has_links in nothing_more (find_ino ino c.hl_list)
on_flag-hl_list other c e ino = unfold has_links in nothing_more (find_ino ino c.hl_list)

-- `hl_list` has the first names of the entries so far.
abbrev Knows : Client → List FtwEntry → Type 0
Knows c before = (ino : ℕ) → find_ino ino c.hl_list ≡ first_name ino before

pub process-Knows :
    (c : Client) (before : List FtwEntry) (e : FtwEntry)
    → Knows c before
    → Knows (process c e) (before ++ (e ∷ []))
unfolding process
process-Knows c before e knows ino =
    let after = first_name-append ino before e in
    elim (Bool-cases (e.level == 0)) [
      | inl root ↦ rw (after, root, knows ino) (nothing_more (first_name ino before))
      | inr below ↦
          rw (after, below, ← knows ino)
            (on_flag-hl_list e.flag (note_path c e) e ino ∙ (unfold note_path in refl))
    ]

pub process-requests :
    (c : Client) (before : List FtwEntry) (e : FtwEntry)
    → Knows c before
    → (process c e).requests ≡ c.requests ++ entry_requests (note_path c e).base before e
unfolding process entry_requests
process-requests c before e knows = elim (Bool-cases (e.level == 0)) [
  | inl root ↦ rw root (sym (append-nil c.requests))
  | inr below ↦
      rw (below, ← knows e.ino)
        (on_flag-requests e.flag (note_path c e) e ∙ (unfold note_path in refl))
]

-- The requests of the walk from a client on that has the first names of the entries before it.
pub traverse-asked :
    (c : Client) (base : ℕ) (before es : List FtwEntry)
    → c.base ≡ base
    → base ≢ 0
    → Knows c before
    → (traverse c es).requests ≡ c.requests ++ requests_of base before es
unfolding traverse requests_of
traverse-asked c base before [] at set_base knows = sym (append-nil c.requests)
traverse-asked c base before (e ∷ es) at set_base knows =
    let same : (note_path c e).base ≡ base = base_kept c e (λ z. set_base (sym at ∙ z)) ∙ at in
    traverse-asked (process c e) base (before ++ (e ∷ [])) es (process-base c e ∙ same) set_base
      (process-Knows c before e knows)
    ∙ ap (λ rs. rs ++ requests_of base (before ++ (e ∷ [])) es)
        (process-requests c before e knows ∙ ap (λ b. c.requests ++ entry_requests b before e) same)
    ∙ append_assoc c.requests (entry_requests base before e)
        (requests_of base (before ++ (e ∷ [])) es)
