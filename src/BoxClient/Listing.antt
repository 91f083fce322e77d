-- ===== src/BoxClient/Listing.antt =====
-- What the first synchronisation of MP5/src/csiebox_client.c does with a tree whose directories have
-- codes of their own.
use ntu_system_programming.Common.{
  ◌≡◌, refl, sym, ◌∙◌, Bool, true, false, ◌||◌, ◌&&◌, not, Option, none, some, List, [], ◌∷◌, ◌++◌,
  arith, if◌then◌else◌, ◌>>=◌, Bool-cases, Option-cases, inl, inr,
}
use ntu_system_programming.Common.Int.{ℤ, same_int, same_int_iff}
use ntu_system_programming.HashTable.{Hash}
use ntu_system_programming.HashTable.Lookup.{IsValid, view}
use ntu_system_programming.HashTable.Insert.{put_absent, put_present}
use ntu_system_programming.BoxServer.{Text}
use ntu_system_programming.BoxClient.Walk.{
  Entries, Op, Walker, put_watch, plain, folder, end, unopened, more, watch, sync, is_dots, below,
  with_ops, enter, walk, sync_all,
}
use ntu_system_programming.BoxClient.Trees.{
  has_code, AreDistinct, can_open, IsUsable, listing, Walked,
}

open_later : (d e i l : Bool) → (if d || not e then l else i && l) ≡ true → l ≡ true
open_later d e i l opened = ground arith

open_inside :
    (d e i l : Bool) → d ≡ false → e ≡ true → (if d || not e then l else i && l) ≡ true → i ≡ true
open_inside d e i l named enters opened = ground arith

abbrev IsNew : Walker → Entries → Type 0
IsNew h es = (q : ℤ) → has_code q es ≡ true → view h.dir_hash q ≡ none

put_watch_lem :
    (t : Walker) (path : Text)
    → IsValid t.inotify_hash
    → (h : Hash Text) × (put_watch t path ≡ some h) × IsValid h
unfolding put_watch
put_watch_lem t path valid =
    let wd = t.inotify_add_watch path in
    let entry = path ++ t.behind path in
    elim (Option-cases (view t.inotify_hash wd)) [
      | inl free ↦
          let ((fresh, h), e, puts) = put_absent valid wd entry free in (h, rw e refl, puts.valid')
      | inr (old, there) ↦
          (t.inotify_hash, rw (put_present valid wd true entry old there) refl, valid)
    ]

enter_lem :
    (h : Walker) (cwd : Text) (code : ℤ) (sub : Entries)
    (inside : Walker → Option (Walker × List Op)) (ops : List Op)
    → IsUsable h
    → view h.dir_hash code ≡ none
    → IsNew h sub
    → has_code code sub ≡ false
    → ((h' : Walker) → IsUsable h' → IsNew h' sub → Walked h' (inside h') (λ q. has_code q sub) ops)
    → Walked h (enter h cwd code inside) (λ q. same_int code q || has_code q sub) (watch cwd ∷ ops)
unfolding enter
enter_lem h cwd code sub inside ops valid free new apart visit =
    let ((fresh, h1), e, puts) = put_absent (valid.0) code cwd free in
    let (watches, put, kept) = put_watch_lem h cwd (valid.1) in
    let next =
      visit (record h { dir_hash = h1; inotify_hash = watches }) (puts.valid', kept)
        (λ q inq. puts.reads q ∙ ground (arith, same_int_iff code q, apart, new q)) in
    record {
      table = next.table;
      returns = rw (e, puts.stored, put, next.returns) refl;
      valid = next.valid;
      reads = λ q other. ground (arith, puts.reads q, next.reads q);
    }

-- Two visits, one after the other, put behind one operation.
seq_lem :
    (h : Walker) (before : List Op) (r : Option (Walker × List Op)) (new new' : ℤ → Bool)
    (inside ops : List Op) (later : Walker → Option (Walker × List Op))
    (first : Walked h r new inside)
    → Walked (first.table) (later (first.table)) new' ops
    → Walked h
        (with_ops before (r >>= (λ (h', ops'). with_ops ops' (later h'))))
        (λ q. new q || new' q)
        (before ++ (inside ++ ops))
seq_lem h before r new new' inside ops later first next = record {
  table = next.table;
  returns = rw (first.returns, next.returns) refl;
  valid = next.valid;
  reads = λ q other. ground (arith, first.reads q, next.reads q);
}

weaken :
    (h : Walker) (r : Option (Walker × List Op)) (new new' : ℤ → Bool) (ops : List Op)
    → Walked h r new ops
    → ((q : ℤ) → new' q ≡ false → new q ≡ false)
    → Walked h r new' ops
weaken h r new new' ops w fewer = record {
  table = w.table;
  returns = w.returns;
  valid = w.valid;
  reads = λ q other. w.reads q (fewer q other);
}

put_before :
    (h : Walker) (op : Op) (r : Option (Walker × List Op)) (new : ℤ → Bool) (ops : List Op)
    → Walked h r new ops
    → Walked h (with_ops (op ∷ []) r) new (op ∷ ops)
put_before h op r new ops w = record {
  table = w.table;
  returns = rw (w.returns) refl;
  valid = w.valid;
  reads = w.reads;
}

or_assoc : (a b c : Bool) → (a || (b || c)) ≡ ((a || b) || c)
or_assoc true b c = refl
or_assoc false b c = refl

or_second : (a b c : Bool) → b ≡ true → (a || (b || c)) ≡ true
or_second a true c e = ground arith
or_second a false c e = ground arith

or_third : (a b c : Bool) → c ≡ true → (a || (b || c)) ≡ true
or_third a b true e = ground arith
or_third a b false e = ground arith

or_last : (a b c : Bool) → (a || (b || c)) ≡ false → c ≡ false
or_last a b c e = ground arith

-- A folder that is entered, and the entries after it.
visit_lem :
    (h : Walker) (cwd : Text) (name : Text) (code : ℤ) (sub es : Entries) (ops ops' : List Op)
    → IsUsable h
    → view h.dir_hash code ≡ none
    → IsNew h sub
    → IsNew h es
    → has_code code sub ≡ false
    → has_code code es ≡ false
    → ((q : ℤ) → has_code q sub ≡ true → has_code q es ≡ false)
    → ((h' : Walker)
        → IsUsable h'
        → IsNew h' sub
        → Walked h' (walk h' (below cwd name) sub) (λ q. has_code q sub) ops)
    → ((h' : Walker)
        → IsUsable h'
        → IsNew h' es
        → Walked h' (walk h' cwd es) (λ q. has_code q es) ops')
    → Walked h
        (with_ops (sync (below cwd name) ∷ []) (
          enter h (below cwd name) code (λ h'. walk h' (below cwd name) sub)
          >>= (λ (h', first). with_ops first (walk h' cwd es))))
        (λ q. (same_int code q || has_code q sub) || has_code q es)
        (sync (below cwd name) ∷ (watch (below cwd name) ∷ (ops ++ ops')))
visit_lem h cwd name code sub es ops ops' valid free new new' own own' both visit later =
    let first =
      enter_lem h (below cwd name) code sub (λ h'. walk h' (below cwd name) sub) ops valid free new
        own visit in
    seq_lem h (sync (below cwd name) ∷ [])
      (enter h (below cwd name) code (λ h'. walk h' (below cwd name) sub)) _ _ _ ops'
      (λ h'. walk h' cwd es) first
      (later first.table first.valid
        (λ q inq. first.reads q (ground (arith, same_int_iff code q, both q, own')) ∙ new' q inq))

walk_lem :
    (cwd : Text) (es : Entries) (h : Walker)
    → IsUsable h
    → IsNew h es
    → AreDistinct es
    → can_open es ≡ true
    → Walked h (walk h cwd es) (λ q. has_code q es) (listing cwd es)
unfolding walk has_code AreDistinct listing can_open
walk_lem cwd unopened h valid new apart opened = absurd (ground arith)
walk_lem cwd end h valid new apart opened = record {
  table = h;
  returns = refl;
  valid = valid;
  reads = λ q other. refl;
}
walk_lem cwd (more (plain name) es) h valid new apart opened =
    let rest = walk_lem cwd es h valid new apart opened in
    elim (Bool-cases (is_dots name)) [
      | inl dots ↦ rw dots (weaken h _ _ _ _ rest (λ q other. other))
      | inr named ↦
          rw named
            (put_before h (sync (below cwd name)) _ _ _ (weaken h _ _ _ _ rest (λ q other. other)))
    ]
walk_lem cwd (more (folder name enters code sub) es) h valid new (own, own', both, apart, apart')
      opened =
    let opened' = open_later (is_dots name) enters (can_open sub) (can_open es) opened in
    elim (Bool-cases (is_dots name)) [
      | inl dots ↦
          let rest = walk_lem cwd es h valid (λ q inq. new q (rw dots inq)) apart' opened' in
          rw dots (weaken h _ _ _ _ rest (λ q other. other))
      | inr named ↦
          let new_of : (q : ℤ)
              → (same_int code q || (has_code q sub || has_code q es)) ≡ true
              → view h.dir_hash q ≡ none =
            λ q inq. new q (rw named inq) in
          let later : IsNew h es =
            λ q inq. new_of q (or_third (same_int code q) (has_code q sub) (has_code q es) inq) in
          elim (Bool-cases enters) [
            | inl goes ↦
                let inside =
                  open_inside (is_dots name) enters (can_open sub) (can_open es) named goes
                    opened in
                let all =
                  visit_lem h cwd name code sub es (listing (below cwd name) sub) (listing cwd es)
                    valid (new_of code (rw ((same_int_iff code code).1 refl) refl))
                    (λ q inq.
                      new_of q (or_second (same_int code q) (has_code q sub) (has_code q es) inq))
                    later own own' both
                    (λ h' valid' new'. walk_lem (below cwd name) sub h' valid' new' apart inside)
                    (λ h' valid' new'. walk_lem cwd es h' valid' new' apart' opened') in
                rw (named, goes)
                  (weaken h _ _ _ _ all (λ q other.
                    sym (or_assoc (same_int code q) (has_code q sub) (has_code q es)) ∙ other))
            | inr stays ↦
                let rest = walk_lem cwd es h valid later apart' opened' in
                rw (named, stays)
                  (weaken h _ _ _ _ (put_before h (sync (below cwd name)) _ _ _ rest)
                    (λ q other. or_last (same_int code q) (has_code q sub) (has_code q es) other))
          ]
    ]

-- The first synchronisation, of a table without codes yet and a tree of directories of which no two
-- have the same code, and none that of the root, and all that are entered can be opened: it goes
-- through every directory that can be entered, watches it, and then synchronises every entry in it, in the order of the listing.
pub sync_all_lem :
    (h : Walker) (cwd : Text) (code : ℤ) (es : Entries)
    → IsUsable h
    → ((q : ℤ) → view h.dir_hash q ≡ none)
    → AreDistinct es
    → has_code code es ≡ false
    → can_open es ≡ true
    → Walked h
        (sync_all h cwd code es)
        (λ q. same_int code q || has_code q es)
        (watch cwd ∷ listing cwd es)
unfolding sync_all
sync_all_lem h cwd code es valid empty apart own opened =
    enter_lem h cwd code es (λ h'. walk h' cwd es) (listing cwd es) valid (empty code)
      (λ q inq. empty q) own (λ h' valid' new. walk_lem cwd es h' valid' new apart opened)

-- A directory whose code is in the table already is passed over with all that is in it.
pub enter_again :
    (h : Walker) (cwd other : Text) (code : ℤ) (inside : Walker → Option (Walker × List Op))
    → IsUsable h
    → view h.dir_hash code ≡ some other
    → enter h cwd code inside ≡ some (h, [])
unfolding enter
enter_again h cwd other code inside valid there =
    rw (put_present (valid.0) code true cwd other there) refl
