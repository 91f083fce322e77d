-- ===== src/FirstServer/Syncing.antt =====
-- `syn` of MP2/src/csiebox_client.c for a regular file, against the handlers of
-- MP2/src/csiebox_server.c: the meta data, and the content where the server asks for it.
use ntu_system_programming.Common.{
  ℕ, ◌≡◌, refl, arith, Bool, true, false, Option, none, some, List, [], ◌∷◌, ◌++◌, ◌==◌,
  if◌then◌else◌, ◌>>=◌, ◌&&◌, length, ◌∙◌, ◌⊎◌, inl, inr, ap, Bool-cases,
}
use ntu_system_programming.BoxServer.{Text, Header, same_text}
use ntu_system_programming.FirstServer.{
  Layout, Disk, Session, ServerAction, send, create, MetaBody, FileBody, FileStat, found, missing,
  user_homedir, join, s_isdir, s_isreg, take_over, known_file, meta_actions, res_answer, truncate,
  write,
}
use ntu_system_programming.FirstServer.Served.{
  ClientRequest, has_meta, has_file, has_empty, serve_request,
}

-- The header that the client reads: the first that was sent.
unfoldable pub first_answer : List ServerAction → Option Header
first_answer [] = none
first_answer (send h ∷ out) = some h
first_answer (_ ∷ out) = first_answer out

-- The answer asks for the content.
unfoldable pub asks_more : Option Header → Bool
asks_more none = false
asks_more (some h) = h.magic == 145 && (h.op == 1 && h.status == 2)

abbrev pub content_request : FileBody → Text → Text → ClientRequest
content_request f name content = if length content == 0 then has_empty else has_file f name content

-- The disk is `d` while the server has the meta data, and `d'` while it has the content.
unfoldable pub syn :
    Layout
    → Disk
    → Disk
    → ℕ
    → Session
    → MetaBody
    → FileBody
    → Text
    → Text
    → Option (Session × List ServerAction)
syn l d d' conn_fd s m f name content =
    serve_request l d conn_fd s (has_meta m name) >>= (λ (s', out).
      let more =
        (serve_request l d' conn_fd s' (content_request f name content)
          >>= (λ (s'', out'). some (s'', out ++ out'))) in
      if asks_more (first_answer out) then more else some (s', out))

-- A regular file with content, of a client that has logged in, where errno held no earlier ENOENT and
-- the path is opened and written once the content is there.
module _ (l : Layout) (d d' : Disk) (conn_fd : ℕ) (s : Session) (m : MetaBody) (f : FileBody)
    (name content home path : Text) (at : user_homedir s ≡ some home)
    (below : join home name ≡ some path) (regular : s_isreg m.stat ≡ true) (clean : d.stale ≡ false)
    (some_content : (length content == 0) ≡ false) (opened : d'.writes path ≡ true) where
  abbrev pub stored : List ServerAction
  stored = truncate path ∷ write path content ∷ res_answer 2 0 ∷ take_over path f.stat []

  not_dir : s_isdir m.stat ≡ false
  not_dir = ground arith

  served_meta :
      (out : List ServerAction)
      → meta_actions d path m ≡ some out
      → serve_request l d conn_fd s (has_meta m name) ≡ some (s, out)
  unfolding serve_request
  served_meta out e = rw (at, below, e) refl

  served_content : serve_request l d' conn_fd s (content_request f name content) ≡ some (s, stored)
  unfolding serve_request
  served_content = rw (some_content, at, below, opened) refl

  -- What becomes of the file: it is made and gets the content, the mode and the times; or it has the
  -- digest of the client's and takes the mode and the times over; or it gets the content with these.
  pub data Synced (out : List ServerAction) : Type 0 where
    made : d.lstat path ≡ missing → out ≡ create path ∷ res_answer 1 2 ∷ stored → Synced out
    kept :
        same_text (d.md5_file path) m.hash ≡ true
        → out ≡ take_over path m.stat (res_answer 1 0 ∷ [])
        → Synced out
    renewed :
        same_text (d.md5_file path) m.hash ≡ false → out ≡ res_answer 1 2 ∷ stored → Synced out

  meta_missing :
      d.lstat path ≡ missing → meta_actions d path m ≡ some (create path ∷ res_answer 1 2 ∷ [])
  unfolding meta_actions
  meta_missing gone = ground (arith, gone, not_dir, regular)

  meta_found :
      (st : FileStat)
      → d.lstat path ≡ found st
      → meta_actions d path m ≡ some (known_file d path m st)
  unfolding meta_actions
  meta_found st there = ground (arith, there, clean)

  more_after :
      (out : List ServerAction)
      → meta_actions d path m ≡ some out
      → asks_more (first_answer out) ≡ true
      → syn l d d' conn_fd s m f name content ≡ some (s, out ++ stored)
  unfolding syn
  more_after out e more = rw (served_meta out e, more, served_content) refl

  done_after :
      (out : List ServerAction)
      → meta_actions d path m ≡ some out
      → asks_more (first_answer out) ≡ false
      → syn l d d' conn_fd s m f name content ≡ some (s, out)
  unfolding syn
  done_after out e more = rw (served_meta out e, more) refl

  absent_file :
      d.lstat path ≡ missing
      → (out : List ServerAction) × (syn l d d' conn_fd s m f name content ≡ some (s, out))
        × Synced out
  absent_file gone = (
    create path ∷ res_answer 1 2 ∷ stored,
    more_after (create path ∷ res_answer 1 2 ∷ []) (meta_missing gone)
        (unfold first_answer in unfold asks_more in refl),
    made gone refl,
  )

  known_same :
      (st : FileStat)
      → s_isdir st ≡ false
      → same_text (d.md5_file path) m.hash ≡ true
      → known_file d path m st ≡ take_over path m.stat (res_answer 1 0 ∷ [])
  unfolding known_file
  known_same st file same = rw (file, same) refl

  known_other :
      (st : FileStat)
      → s_isdir st ≡ false
      → same_text (d.md5_file path) m.hash ≡ false
      → known_file d path m st ≡ res_answer 1 2 ∷ []
  unfolding known_file
  known_other st file differs = rw (file, differs) refl

  present_file :
      (st : FileStat)
      → d.lstat path ≡ found st
      → s_isdir st ≡ false
      → (out : List ServerAction) × (syn l d d' conn_fd s m f name content ≡ some (s, out))
        × Synced out
  present_file st there file = elim (Bool-cases (same_text (d.md5_file path) m.hash)) [
    | inl same ↦ (
      take_over path m.stat (res_answer 1 0 ∷ []),
      done_after _ (meta_found st there ∙ ap some (known_same st file same))
          (unfold first_answer in unfold asks_more in refl),
      kept same refl,
    )
    | inr differs ↦ (
      res_answer 1 2 ∷ stored,
      more_after _ (meta_found st there ∙ ap some (known_other st file differs))
          (unfold first_answer in unfold asks_more in refl),
      renewed differs refl,
    )
  ]

  -- For a regular file with content, of a client that has logged in, with a path that fits and that the
  -- server opens and writes once it has the content, where the server finds nothing under it or a file
  -- that is no directory and errno held no earlier ENOENT: syn comes to its end with the file made, kept
  -- or renewed. A made or renewed file was asked for, emptied and given the content, which was answered
  -- with OK, and then the mode and the times that came with the content; a kept file has the digest that
  -- the client sent and was given the mode and the times that came with it.
  pub syn_lem :
      (d.lstat path ≡ missing)
        ⊎ ((st : FileStat) × (d.lstat path ≡ found st) × (s_isdir st ≡ false))
      → (out : List ServerAction) × (syn l d d' conn_fd s m f name content ≡ some (s, out))
        × Synced out
  syn_lem (inl gone) = absent_file gone
  syn_lem (inr (st, there, file)) = present_file st there file
