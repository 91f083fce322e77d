-- ===== src/FirstBox/Traverse.antt =====
-- The whole walk of MP2/src/csiebox_client.c over a directory: what it asks for.
use ntu_system_programming.Common.{
  ℕ, ◌<◌, ◌≡◌, ◌≢◌, refl, sym, ◌∙◌, ap, arith, true, false, Option, none, some, List, [], ◌∷◌, ◌++◌,
  ltb, ◌==◌, ◌&&◌, not, Bool-cases, inl, inr, set, drop,
}
use mathlib.Core.List.{append_assoc, append-nil}
use ntu_system_programming.Common.Strings.{Text}
use ntu_system_programming.FirstBox.{
  Flag, regular, directory, symbolic, other, FtwEntry, Request, syn_file, hard_link, Client, fresh,
  find_ino, on_flag, note_path, process, traverse,
}
use ntu_system_programming.FirstBox.Links.{
  has_links, first_name, linked_request, flag_requests, entry_requests, requests_of, process-base,
  process-Knows, process-requests, traverse-asked,
}

pub process_root :
    (c : Client) (e : FtwEntry)
    → e.level ≡ 0
    → process c e ≡ record c {
      inotify_table = set c.inotify_table 0 (some (record { wd = e.wd; path = e.file }));
    }
unfolding process
process_root c e root = let r : (e.level == 0) ≡ true = ground arith in rw r refl

pub process_below :
    (c : Client) (e : FtwEntry) → e.level ≢ 0 → process c e ≡ on_flag e.flag (note_path c e) e
unfolding process
process_below c e below = let r : (e.level == 0) ≡ false = ground arith in rw r refl

-- The first entry below the root sets the base.
pub first_base :
    (c : Client) (e : FtwEntry) → c.base ≡ 0 → e.level ≡ 1 → (note_path c e).base ≡ e.base
unfolding note_path
first_base c e unset below = ground arith

abbrev pub rooted : FtwEntry → Client
rooted root = record fresh {
  inotify_table = set fresh.inotify_table 0 (some (record { wd = root.wd; path = root.file }));
}

-- A regular file with several links, below the root.
abbrev pub Linked : FtwEntry → Type 0
Linked e = (e.flag ≡ regular) × (1 < e.nlink) × (e.level ≢ 0)

linked-request :
    (f : Flag) (base : ℕ) (name : Option Text) (e : FtwEntry)
    → f ≡ regular
    → 1 < e.nlink
    → flag_requests f base name e ≡ linked_request base name (e.file) ∷ []
unfolding flag_requests
linked-request regular base name e is several =
    let more : ltb 1 e.nlink ≡ true = ground arith in rw more refl
linked-request directory base name e is several = absurd (ground arith)
linked-request symbolic base name e is several = absurd (ground arith)
linked-request other base name e is several = absurd (ground arith)

Linked-requests :
    (base : ℕ) (before : List FtwEntry) (e : FtwEntry)
    → Linked e
    → entry_requests base before e ≡ linked_request base (first_name e.ino before) (e.file) ∷ []
unfolding entry_requests
Linked-requests base before e (is, several, below) =
    let r : (e.level == 0) ≡ false = ground arith in
    rw r (linked-request e.flag base (first_name e.ino before) e is several)

requests_of-append :
    (base : ℕ) (before xs ys : List FtwEntry)
    → requests_of base before (xs ++ ys)
      ≡ requests_of base before xs ++ requests_of base (before ++ xs) ys
unfolding requests_of
requests_of-append base before [] ys = rw (append-nil before) refl
requests_of-append base before (x ∷ xs) ys =
    rw
      (
        requests_of-append base (before ++ (x ∷ [])) xs ys,
        append_assoc before (x ∷ []) xs,
        append_assoc (entry_requests base before x) (requests_of base (before ++ (x ∷ [])) xs)
            (requests_of base (before ++ (x ∷ xs)) ys),
      )
      refl

-- The request at a file with several links, among those of all entries.
requests_of-Linked :
    (base : ℕ) (before xs : List FtwEntry) (e : FtwEntry) (ys : List FtwEntry)
    → Linked e
    → requests_of base before (xs ++ (e ∷ ys))
      ≡ requests_of base before xs
        ++ (linked_request base (first_name e.ino (before ++ xs)) (e.file)
            ∷ requests_of base ((before ++ xs) ++ (e ∷ [])) ys)
requests_of-Linked base before xs e ys l =
    requests_of-append base before xs (e ∷ ys)
    ∙ (unfold requests_of in
        ap
          (λ rs.
            requests_of base before xs ++ (rs ++ requests_of base ((before ++ xs) ++ (e ∷ [])) ys))
          (Linked-requests base (before ++ xs) e l))

-- A file with several links has the first name of its inode where no other came before it.
first_name-at :
    (ino : ℕ) (xs : List FtwEntry) (e : FtwEntry) (ys : List FtwEntry)
    → Linked e
    → e.ino ≡ ino
    → first_name ino xs ≡ none
    → first_name ino ((xs ++ (e ∷ [])) ++ ys) ≡ some (e.file)
unfolding first_name
first_name-at ino [] e ys (is, several, below) at unseen =
    let hit : (not (e.level == 0) && (has_links e.flag e && (e.ino == ino))) ≡ true =
      unfold has_links in rw is (ground (arith, several, below, at)) in
    rw hit refl
first_name-at ino (x ∷ xs) e ys l at unseen =
    elim (Bool-cases (not (x.level == 0) && (has_links x.flag x && (x.ino == ino)))) [
      | inl hit ↦ absurd (ground (arith, unseen, hit))
      | inr miss ↦ rw miss (first_name-at ino xs e ys l at (ground (arith, unseen, miss)))
    ]

walk_from :
    (c : Client) (base : ℕ) (first : FtwEntry) (es : List FtwEntry)
    → c.hl_list ≡ []
    → c.requests ≡ []
    → (note_path c first).base ≡ base
    → base ≢ 0
    → (traverse c (first ∷ es)).requests ≡ requests_of base [] (first ∷ es)
unfolding traverse requests_of
walk_from c base first es blank none_asked at set_base =
    let knows : (ino : ℕ) → find_ino ino c.hl_list ≡ first_name ino [] =
      λ ino. rw blank (unfold first_name in unfold find_ino in refl) in
    traverse-asked (process c first) base (first ∷ []) es (process-base c first ∙ at) set_base
      (process-Knows c [] first knows)
    ∙ ap (λ rs. rs ++ requests_of base (first ∷ []) es)
        (process-requests c [] first knows
          ∙ ap (λ rs. rs ++ entry_requests (note_path c first).base [] first) none_asked
          ∙ ap (λ b. entry_requests b [] first) at)

module _ (root first : FtwEntry) (es : List FtwEntry) (at_root : root.level ≡ 0)
    (below : first.level ≡ 1) (based : first.base ≢ 0) where
  pub traverse_requests :
      (traverse fresh (root ∷ first ∷ es)).requests ≡ requests_of first.base [] (first ∷ es)
  unfolding traverse
  traverse_requests =
      ap (λ c. (traverse c (first ∷ es)).requests) (process_root fresh root at_root)
      ∙ walk_from (rooted root) first.base first es refl refl
          (first_base (rooted root) first refl below) based

  -- Of two regular files with several links and of one inode that the same walk comes to below the
  -- root, where no such file of the inode came before the first: the first is sent, and behind it a
  -- hard link is asked for from the name of the second to the name of the first, both without the base of the first entry.
  pub second_name_follows :
      (xs ys zs : List FtwEntry) (a b : FtwEntry)
      → first ∷ es ≡ xs ++ (a ∷ (ys ++ (b ∷ zs)))
      → Linked a
      → Linked b
      → a.ino ≡ b.ino
      → first_name a.ino xs ≡ none
      → (before between after : List Request) × ((traverse fresh (root ∷ first ∷ es)).requests
          ≡ before
            ++ (syn_file (a.file)
                ∷ (between
                    ++ (hard_link (drop first.base b.file) (drop first.base a.file) ∷ after))))
  second_name_follows xs ys zs a b split is_a is_b same unseen =
      let named : first_name b.ino ((xs ++ (a ∷ [])) ++ ys) ≡ some (a.file) =
        first_name-at b.ino xs a ys is_a same (ap (λ n. first_name n xs) (sym same) ∙ unseen) in
      (
        requests_of first.base [] xs,
        requests_of first.base (xs ++ (a ∷ [])) ys,
        requests_of first.base (((xs ++ (a ∷ [])) ++ ys) ++ (b ∷ [])) zs,
        traverse_requests
            ∙ ap (requests_of first.base []) split
            ∙ requests_of-Linked first.base [] xs a (ys ++ (b ∷ zs)) is_a
            ∙ ap
                (λ name.
                  requests_of first.base [] xs
                  ++ (linked_request first.base name (a.file)
                      ∷ requests_of first.base (xs ++ (a ∷ [])) (ys ++ (b ∷ zs))))
                unseen
            ∙ (unfold linked_request in
                ap (λ rs. requests_of first.base [] xs ++ (syn_file (a.file) ∷ rs))
                  (requests_of-Linked first.base (xs ++ (a ∷ [])) ys b zs is_b
                    ∙ ap
                        (λ name.
                          requests_of first.base (xs ++ (a ∷ [])) ys
                          ++ (linked_request first.base name (b.file)
                              ∷ requests_of first.base (((xs ++ (a ∷ [])) ++ ys) ++ (b ∷ [])) zs))
                        named)),
      )
