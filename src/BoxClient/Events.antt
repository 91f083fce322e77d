-- ===== src/BoxClient/Events.antt =====
-- What the loop over the events of inotify does: on descriptors that the table knows, and on one that
-- it does not know.
use ntu_system_programming.Common.{
  ℕ, zero, suc, ◌≤◌, ◌<◌, ◌≡◌, ◌≢◌, refl, ap, ◌∙◌, Bool, true, false, ◌&&◌, Option, none, some,
  List, [], ◌∷◌, ◌++◌, arith, ltb, ◌==◌, length, get_or, take, if◌then◌else◌, Bool-cases,
  Option-cases, inl, inr,
}
use ntu_system_programming.Common.Int.{ℤ, same_int_iff}
use ntu_system_programming.HashTable.{Hash}
use ntu_system_programming.HashTable.Lookup.{IsValid, view, get-view}
use ntu_system_programming.HashTable.Insert.{put_absent, put_present}
use ntu_system_programming.BoxServer.{Text}
use ntu_system_programming.BoxClient.{absolute}
use ntu_system_programming.BoxClient.Paths.{convert_to_relative_path_lem}
use ntu_system_programming.BoxClient.Walk.{Op, sync, sync_meta, watch, remove, with_ops}
use ntu_system_programming.BoxClient.Watch.{
  Event, Client, add_inotify, rm_file, on_event, after, event_loop, handle_inotify,
}

-- What an event asks for, of a file with the path `path`, `rel` behind the root.
unfoldable pub ops_of : Client → Event → Text → Text → List Op
ops_of c e path rel =
    if e.create
    then sync path ∷ (if e.isdir then watch path ∷ [] else [])
    else if e.attrib
    then sync_meta path ∷ []
    else if e.delete
    then remove (take (length (c.root)) rel) ∷ []
    else sync path ∷ []

-- An event of a directory in the table: the path that the table gives and the name are below the root
-- and fit the buffer, and it is not the removal of a directory.
pub record IsKnown (c : Client) (h : Hash Text) (e : Event) : Type 0 where
  pub wd_path : Text
  pub rel : Text
  pub known : view h e.wd ≡ some wd_path
  pub under : wd_path ++ 47 ∷ e.name ≡ c.root ++ rel
  pub short : length (c.root ++ rel) < 4096
  pub no_nul : (k : ℕ) → k < length rel → get_or rel k 0 ≢ 0
  pub kept : (e.delete && e.isdir) ≡ false

pub data AreKnown (c : Client) (h : Hash Text) : List Event → Type 0 where
  none_left : AreKnown c h []
  and_then : {e : Event} {es : List Event} → IsKnown c h e → AreKnown c h es → AreKnown c h (e ∷ es)

unfoldable pub all_ops : {c : Client} {h : Hash Text} {es : List Event} → AreKnown c h es → List Op
unfolding ops_of
all_ops none_left = []
all_ops {c} (and_then {e} k ks) = ops_of c e (c.root ++ k.rel) k.rel ++ all_ops ks

-- The table after some operations: nothing that it knew is lost.
pub record Keeps (h : Hash Text) (r : Option (Hash Text × List Op)) (ops : List Op) : Type 0 where
  pub table : Hash Text
  pub returns : r ≡ some (table, ops)
  pub valid : IsValid table
  pub keeps : (q : ℤ) (v : Text) → view h q ≡ some v → view table q ≡ some v

stays : (h : Hash Text) (ops : List Op) → IsValid h → Keeps h (some (h, ops)) ops
stays h ops valid = record { table = h; returns = refl; valid = valid; keeps = λ q v e. e }

add_inotify-Keeps :
    (c : Client) (h : Hash Text) (path : Text)
    → IsValid h
    → Keeps h (add_inotify c h path) (watch path ∷ [])
unfolding add_inotify
add_inotify-Keeps c h path valid =
    let wd = c.inotify_add_watch path in
    let entry = path ++ c.behind path in
    elim (Option-cases (view h wd)) [
      | inl free ↦
          let ((fresh, h'), e, puts) = put_absent valid wd entry free in
          record {
            table = h';
            returns = rw e refl;
            valid = puts.valid';
            keeps = λ q v there. puts.reads q ∙ ground (arith, same_int_iff wd q);
          }
      | inr (old, there) ↦
          let e = put_present valid wd true entry old there in
          record { table = h; returns = rw e refl; valid = valid; keeps = λ q v f. f }
    ]

-- The root of a client: an absolute path of at most half of PATH_MAX.
pub record IsRoot (root : Text) : Type 0 where
  pub from_slash : get_or root 0 0 ≡ 47
  pub small : length root ≤ 2048

module _ (c : Client) (is_root : IsRoot (c.root)) where
  root_some : 0 < length (c.root)
  root_some =
      elim (c.root) as (λ r. IsRoot r → 0 < length r) [
        | [] ↦ λ r. absurd (let e = r.from_slash in omega arith)
        | a ∷ t ↦ λ r. omega arith
      ]
        is_root

  absolute_below :
      (root rel cwd : Text)
      → get_or root 0 0 ≡ 47
      → length (root ++ rel) < 4096
      → absolute cwd (root ++ rel) ≡ some (root ++ rel)
  unfolding absolute
  absolute_below [] rel cwd e lt = absurd (omega arith)
  absolute_below (a ∷ root) rel cwd e lt =
      let slash : (a == 47) ≡ true = ground arith in
      let fits : ltb (suc (length (root ++ rel))) 4096 ≡ true = ground arith in
      rw (slash, fits) refl

  rm_file_plain :
      (h : Hash Text) (rel : Text)
      → length (c.root ++ rel) < 4096
      → ((k : ℕ) → k < length rel → get_or rel k 0 ≢ 0)
      → rm_file c h (c.root ++ rel) false ≡ some (h, remove (take (length (c.root)) rel) ∷ [])
  unfolding rm_file
  rm_file_plain h rel short no_nul =
      let (e, whole) =
        convert_to_relative_path_lem (c.root) (c.cwd) (c.root ++ rel) rel (c.junk)
          (absolute_below (c.root) rel (c.cwd) is_root.from_slash short) root_some is_root.small
          no_nul in
      rw e refl

  created_Keeps :
      (h : Hash Text) (path : Text) (isdir : Bool)
      → IsValid h
      → Keeps h
          (with_ops (sync path ∷ []) (if isdir then add_inotify c h path else some (h, [])))
          (sync path ∷ (if isdir then watch path ∷ [] else []))
  created_Keeps h path true valid =
      let w = add_inotify-Keeps c h path valid in
      record { table = w.table; returns = rw (w.returns) refl; valid = w.valid; keeps = w.keeps }
  created_Keeps h path false valid = stays h _ valid

  on_event_path :
      (h : Hash Text) (wd_path rel : Text) (e : Event)
      → IsValid h
      → wd_path ++ 47 ∷ e.name ≡ c.root ++ rel
      → length (c.root ++ rel) < 4096
      → ((k : ℕ) → k < length rel → get_or rel k 0 ≢ 0)
      → (e.delete && e.isdir) ≡ false
      → Keeps h (on_event c h wd_path e) (ops_of c e (c.root ++ rel) rel)
  unfolding on_event ops_of
  on_event_path h wd_path rel e valid under short no_nul kept =
      let path = c.root ++ rel in
      let fits : ltb (length path) 4096 ≡ true = ground arith in
      elim (Bool-cases (e.create)) [
        | inl new ↦ rw (under, fits, new) (created_Keeps h path (e.isdir) valid)
        | inr old ↦ elim (Bool-cases (e.attrib)) [
          | inl changed ↦ rw (under, fits, old, changed) (stays h _ valid)
          | inr same ↦ elim (Bool-cases (e.delete)) [
            | inl gone ↦
                let file : e.isdir ≡ false = ground (arith, kept, gone) in
                rw (under, fits, old, same, gone, file, rm_file_plain h rel short no_nul)
                  (stays h _ valid)
            | inr here ↦ rw (under, fits, old, same, here) (stays h _ valid)
          ]
        ]
      ]

  loop_step :
      (fuel : ℕ) (h h1 : Hash Text) (e : Event) (es : List Event) (wd_path : Text) (ops : List Op)
      → IsValid h
      → view h e.wd ≡ some wd_path
      → on_event c h wd_path e ≡ some (h1, ops)
      → event_loop (suc fuel) c h (e ∷ es) ≡ after ops (event_loop fuel c h1 es)
  unfolding event_loop
  loop_step fuel h h1 e es wd_path ops valid there done =
      rw (event_loop, get-view e.wd valid, there, done) refl

  loop_known :
      (fuel : ℕ) (first h : Hash Text) (es : List Event)
      → IsValid h
      → ((q : ℤ) (v : Text) → view first q ≡ some v → view h q ≡ some v)
      → (ks : AreKnown c first es) → length es ≤ fuel
      → (h' : Hash Text) × (event_loop fuel c h es ≡ some (some (h', all_ops ks)))
        × IsValid h'
        × ((q : ℤ) (v : Text) → view first q ≡ some v → view h' q ≡ some v)
  unfolding event_loop all_ops
  loop_known zero first h [] valid keeps none_left enough = (h, refl, valid, keeps)
  loop_known zero first h (e ∷ es) valid keeps (and_then k ks) enough = absurd (omega arith)
  loop_known (suc fuel) first h [] valid keeps none_left enough = (h, refl, valid, keeps)
  loop_known (suc fuel) first h (e ∷ es) valid keeps (and_then k ks) enough =
      let step = on_event_path h (k.wd_path) (k.rel) e valid k.under k.short k.no_nul k.kept in
      let (h', goes, valid', keeps') =
        loop_known fuel first step.table es step.valid
          (λ q v there. step.keeps q v (keeps q v there)) ks (omega arith) in
      (
        h',
        loop_step fuel h (step.table) e es (k.wd_path) _ valid (keeps e.wd k.wd_path k.known)
              step.returns
            ∙ ap (after _) goes,
        valid',
        keeps',
      )

  -- For a root that is an absolute path of at most half of PATH_MAX, and a read of events that all come
  -- from directories in a valid table, with paths below the root that fit the buffer, and none the
  -- removal of a directory, with the flag not set: the handler comes to its end within as many rounds as
  -- there are events and does what each event asks for, in their order. Every descriptor that the table
  -- knew before keeps its path.
  pub handle_inotify_lem :
      (fuel : ℕ) (h : Hash Text) (es : List Event)
      → IsValid h
      → (ks : AreKnown c h es) → length es ≤ fuel
      → (h' : Hash Text) × (handle_inotify fuel c false h (some es)
          ≡ some (some (false, h', all_ops ks)))
        × IsValid h'
        × ((q : ℤ) (v : Text) → view h q ≡ some v → view h' q ≡ some v)
  unfolding handle_inotify
  handle_inotify_lem fuel h es valid ks enough =
      let (h', goes, valid', keeps) = loop_known fuel h h es valid (λ q v e. e) ks enough in
      (h', rw goes refl, valid', keeps)

event_loop_stuck :
    (fuel : ℕ) (c : Client) (h : Hash Text) (e : Event) (es : List Event)
    → IsValid h
    → view h e.wd ≡ none
    → event_loop fuel c h (e ∷ es) ≡ none
unfolding event_loop
event_loop_stuck zero c h e es valid unknown = refl
event_loop_stuck (suc fuel) c h e es valid unknown =
    let again = event_loop_stuck fuel c h e es valid unknown in
    rw (event_loop, get-view e.wd valid, unknown, again) refl

-- A read that begins with an event whose descriptor a valid table does not know, with the flag not set:
-- the handler does not come back, for any number of rounds.
pub handle_inotify_stuck :
    (fuel : ℕ) (c : Client) (h : Hash Text) (e : Event) (es : List Event)
    → IsValid h
    → view h e.wd ≡ none
    → handle_inotify fuel c false h (some (e ∷ es)) ≡ none
unfolding handle_inotify
handle_inotify_stuck fuel c h e es valid unknown =
    rw (event_loop_stuck fuel c h e es valid unknown) refl
