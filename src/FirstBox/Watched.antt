-- ===== src/FirstBox/Watched.antt =====
-- The events of inotify in MP2/src/csiebox_client.c: what each asks for, while no directory goes.
use ntu_system_programming.Common.{
  ℕ, ◌-◌, ◌≡◌, refl, sym, ◌∙◌, ap, arith, true, false, Option, none, some, List, [], ◌∷◌, ◌++◌,
  ◌==◌, ◌>>=◌, Bool-cases, inl, inr, drop, get_or, length, length-append,
}
use mathlib.Core.List.{append_assoc, append-nil}
use ntu_system_programming.Common.Strings.{Text}
use ntu_system_programming.FirstBox.{
  Client, Watch, Request, syn_file, syn_dir, rm, ask, add_inotify_watch,
}
use ntu_system_programming.FirstBox.Events.{
  Event, path_in, watch_of, change, find_wd, delete, handle_event, on_events,
}
use ntu_system_programming.FirstBox.Watches.{
  add-slots, get_or-slots, find_wd-slots, wanted, Orderly, Holds, path_in_watched, watch_of-Holds,
  Does,
}

module _ (paths : List Text) (c : Client) (h : Holds paths c) (e : Event)
    (o : Orderly paths e) where
  abbrev watch : Watch
  watch = record { wd = e.wd; path = o.path }

  abbrev full : Text
  full = o.path ++ (47 ∷ e.name)

  on_path : path_in (watch_of c e.wd) e.name ≡ some full
  on_path =
      rw (watch_of-Holds paths c e.wd o.path h o.some_wd o.known)
        (path_in_watched watch e.name o.short)

  new_dir-Holds :
      e.is_dir ≡ true
      → Holds (paths ++ (full ∷ [])) (ask (add_inotify_watch c full e.new_wd) (syn_dir full))
  new_dir-Holds dir = record {
    table = rw h.table (add-slots 1 paths 400 e.new_wd full (o.fresh_wd dir) (o.room dir));
    small = rw (length-append paths (full ∷ [])) (omega (arith, o.room dir));
  }

  change-Does :
      e.is_delete ≡ false → (c' : Client) × (change c e ≡ some c') × Does c.base paths c e c'
  unfolding change wanted
  change-Does stays = elim (Bool-cases (length e.name == 0)) [
    | inl empty ↦ (
      c,
      rw empty refl,
      record {
        paths' = paths;
        asked = [];
        is_wanted = rw (o.known, stays, empty) refl;
        adds = sym (append-nil c.requests);
        holds = h;
        same_base = refl;
      },
    )
    | inr named ↦ elim (Bool-cases (e.is_dir)) [
      | inl dir ↦ (
        ask (add_inotify_watch c full e.new_wd) (syn_dir full),
        rw (named, on_path, dir) refl,
        record {
          paths' = paths ++ (full ∷ []);
          asked = syn_dir full ∷ [];
          is_wanted = rw (o.known, stays, named, dir) refl;
          adds = refl;
          holds = new_dir-Holds dir;
          same_base = refl;
        },
      )
      | inr file ↦ (
        ask c (syn_file full),
        rw (named, on_path, file) refl,
        record {
          paths' = paths;
          asked = syn_file full ∷ [];
          is_wanted = rw (o.known, stays, named, file) refl;
          adds = refl;
          holds = record { table = h.table; small = h.small };
          same_base = refl;
        },
      )
    ]
  ]

  found : find_wd e.wd c.inotify_table ≡ some (e.wd - 1)
  found =
      rw h.table (
        find_wd-slots 1 paths 400 (e.wd - 1) e.wd o.path (omega (arith, o.some_wd)) h.small o.known)

  at_place : get_or c.inotify_table (e.wd - 1) none ≡ some watch
  at_place =
      rw h.table
        (get_or-slots 1 paths 400 (e.wd - 1) e.wd o.path (omega (arith, o.some_wd)) h.small o.known)

  delete-Does :
      e.is_delete ≡ true → (c' : Client) × (delete c e ≡ some c') × Does c.base paths c e c'
  unfolding delete wanted
  delete-Does gone = (
    ask c (rm (drop c.base full)),
    rw (found, at_place, path_in_watched watch e.name o.short, o.stays gone) refl,
    record {
      paths' = paths;
      asked = rm (drop c.base full) ∷ [];
      is_wanted = rw (o.known, gone) refl;
      adds = refl;
      holds = record { table = h.table; small = h.small };
      same_base = refl;
    },
  )

  pub handle_event-Does : (c' : Client) × (handle_event c e ≡ some c') × Does c.base paths c e c'
  unfolding handle_event
  handle_event-Does = elim (Bool-cases (e.is_delete)) [
    | inl gone ↦ let (c', run, does) = delete-Does gone in (c', rw gone run, does)
    | inr stays ↦ let (c', run, does) = change-Does stays in (c', rw stays run, does)
  ]

-- The paths that an event leaves, and the events that are orderly one after the other.
unfoldable pub paths_after : ℕ → List Text → Event → List Text
paths_after base paths e = elim (wanted base paths e) [ none ↦ paths | some (paths', rs) ↦ paths' ]

paths_after_lem :
    (base : ℕ) (paths paths' : List Text) (e : Event) (rs : List Request)
    → wanted base paths e ≡ some (paths', rs)
    → paths_after base paths e ≡ paths'
unfolding paths_after
paths_after_lem base paths paths' e rs w = rw (paths_after, w) refl

unfoldable pub AllOrderly : ℕ → List Text → List Event → Type 0
AllOrderly base paths [] = Unit
AllOrderly base paths (e ∷ es) = Orderly paths e × AllOrderly base (paths_after base paths e) es

unfoldable pub wanted_all : ℕ → List Text → List Event → Option (List Text × List Request)
wanted_all base paths [] = some (paths, [])
wanted_all base paths (e ∷ es) = wanted base paths e >>= (λ (paths', rs).
    wanted_all base paths' es >>= (λ (paths'', rs'). some (paths'', rs ++ rs')))

-- Orderly events are all handled, and ask for exactly what the list of the watched paths says.
pub on_events_lem :
    (paths : List Text) (c : Client) (base : ℕ) (es : List Event)
    → Holds paths c
    → c.base ≡ base
    → AllOrderly base paths es
    → (c' : Client) × (paths' : List Text) × (rs : List Request) × (on_events c es ≡ some c')
      × (wanted_all base paths es ≡ some (paths', rs))
      × (c'.requests ≡ c.requests ++ rs)
      × Holds paths' c'
unfolding on_events wanted_all AllOrderly
on_events_lem paths c base [] h b all = (c, paths, [], refl, refl, sym (append-nil c.requests), h)
on_events_lem paths c base (e ∷ es) h b (o, all) =
    let (c1, run1, d) = handle_event-Does paths c h e o in
    let first : wanted base paths e ≡ some (d.paths', d.asked) = rw b at (d.is_wanted) in
    let next : paths_after base paths e ≡ d.paths' =
      paths_after_lem base paths d.paths' e d.asked first in
    let (c2, paths2, rs2, run2, w2, r2, h2) =
      on_events_lem d.paths' c1 base es d.holds (d.same_base ∙ b) (rw next at all) in
    (
      c2,
      paths2,
      d.asked ++ rs2,
      rw run1 run2,
      rw (first, w2) refl,
      r2 ∙ ap (λ l. l ++ rs2) d.adds ∙ append_assoc c.requests d.asked rs2,
      h2,
    )
