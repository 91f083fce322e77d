-- ===== src/FirstServer/Framing.antt =====
-- The loop of MP2/src/csiebox_server.c takes the requests of a client whole, each in turn.
use ntu_system_programming.Common.{
  ℕ, ◌-◌, ◌<◌, ◌≡◌, ◌≢◌, refl, arith, true, false, Option, some, List, ◌++◌, leb, ltb, ◌==◌, ◌>>=◌,
  length, length-append, take-append, drop-append, inl, inr, Option-cases,
}
use mathlib.Core.List.{append-nil}
use ntu_system_programming.BoxServer.{Text, Header, complete_message}
use ntu_system_programming.BoxServer.Transfer.{recv_message-append}
use ntu_system_programming.FirstServer.{
  Layout, Disk, Session, ServerAction, MetaBody, FileBody, LinkBody, recv_text, syn_file, syn_meta,
  syn_hardlink, delete, pad, rm_actions, meta_actions, soft_link_actions, Outcome, user_homedir,
  join,
}
use ntu_system_programming.FirstServer.Served.{
  has_meta, has_file, has_link, has_symlink, has_removed, serve_request, Framed, Plain,
}

pub recv_text-Plain :
    (n : ℕ) (name rest : Text) → Plain n name → recv_text n (name ++ rest) ≡ some (name, rest)
unfolding recv_text
recv_text-Plain n name rest p =
    let short : ltb n 4096 ≡ true = ground (arith, p.short) in
    rw (recv_message-append n name rest p.len p.some_byte, short, p.no_nul) refl

pub body_taken :
    (l : Layout) (op size : ℕ) (header body rest : Text)
    → Framed l op size header body
    → complete_message size (l.server.decode_header header) (body ++ rest) ≡ some (true, body, rest)
unfolding complete_message
body_taken l op size header body rest f =
    let fits : leb (length body) size ≡ true = ground (arith, f.room) in
    let more = length-append body rest in
    let there : leb (length body) (length (body ++ rest)) ≡ true = ground arith in
    rw (f.datalen, fits, there, take-append body rest, drop-append body rest) refl

-- The outcome of a request with these bytes left behind it.
abbrev pub with_rest : Text → Option (Session × List ServerAction) → Option Outcome
with_rest rest r = r >>= (λ (s, out). some (s, rest, out))

abbrev pub keeps : Session → Option (Text × List ServerAction) → Option Outcome
keeps s r = r >>= (λ (stream, out). some (s, stream, out))

pub syn_meta_taken :
    (l : Layout) (d : Disk) (conn_fd : ℕ) (s : Session) (m : MetaBody) (name rest : Text)
    → Plain m.pathlen name
    → keeps s (syn_meta d s m (name ++ rest))
      ≡ with_rest rest (serve_request l d conn_fd s (has_meta m name))
unfolding syn_meta serve_request
syn_meta_taken l d conn_fd s m name rest p = elim (Option-cases (user_homedir s)) [
  | inl nobody ↦ rw nobody refl
  | inr (home, at) ↦ elim (Option-cases (join home name)) [
    | inl long ↦ rw (at, recv_text-Plain m.pathlen name rest p, long) refl
    | inr (path, fits) ↦ elim (Option-cases (meta_actions d path m)) [
      | inl e ↦ rw (at, recv_text-Plain m.pathlen name rest p, fits, e) refl
      | inr (out, e) ↦ rw (at, recv_text-Plain m.pathlen name rest p, fits, e) refl
    ]
  ]
]

pub delete_taken :
    (l : Layout) (d : Disk) (conn_fd : ℕ) (s : Session) (n : ℕ) (name rest : Text)
    → Plain n name
    → keeps s (delete s n (name ++ rest))
      ≡ with_rest rest (serve_request l d conn_fd s (has_removed name))
unfolding delete serve_request
delete_taken l d conn_fd s n name rest p = elim (Option-cases (user_homedir s)) [
  | inl nobody ↦ rw nobody refl
  | inr (home, at) ↦ elim (Option-cases (join home name)) [
    | inl long ↦ rw (at, recv_text-Plain n name rest p, long) refl
    | inr (path, fits) ↦ elim (Option-cases (rm_actions path)) [
      | inl e ↦ rw (at, recv_text-Plain n name rest p, fits, e) refl
      | inr (out, e) ↦ rw (at, recv_text-Plain n name rest p, fits, e) refl
    ]
  ]
]

pad_whole : (n : ℕ) (bytes : Text) → length bytes ≡ n → pad n bytes ≡ bytes
pad_whole n bytes e = let z : n - length bytes ≡ 0 = omega arith in rw z (append-nil bytes)

pub syn_file_taken :
    (l : Layout) (d : Disk) (conn_fd : ℕ) (s : Session) (f : FileBody) (name content rest : Text)
    → Plain f.pathlen name
    → length content ≡ f.stat.st_size
    → 0 < length content
    → keeps s (syn_file d s f (name ++ (content ++ rest)))
      ≡ with_rest rest (serve_request l d conn_fd s (has_file f name content))
unfolding syn_file serve_request
syn_file_taken l d conn_fd s f name content rest p size some_byte =
    let real : (f.stat.st_size == 0) ≡ false = ground arith in
    let got = recv_message-append (f.stat.st_size) content rest size (omega arith) in
    elim (Option-cases (user_homedir s)) [
      | inl nobody ↦ rw (real, nobody) refl
      | inr (home, at) ↦ elim (Option-cases (join home name)) [
        | inl long ↦ rw (real, at, recv_text-Plain f.pathlen name (content ++ rest) p, long) refl
        | inr (path, fits) ↦
            rw
              (
                real,
                at,
                recv_text-Plain f.pathlen name (content ++ rest) p,
                fits,
                got,
                pad_whole (f.stat.st_size) content size,
              )
              refl
      ]
    ]

pub hard_link_taken :
    (l : Layout) (d : Disk) (conn_fd : ℕ) (s : Session) (h : Header) (b : LinkBody)
    (src tar rest : Text)
    → h.status ≡ 2
    → Plain b.srclen src
    → Plain b.targetlen tar
    → keeps s (syn_hardlink l d s h b (src ++ (tar ++ rest)))
      ≡ with_rest rest (serve_request l d conn_fd s (has_link src tar))
unfolding syn_hardlink serve_request
hard_link_taken l d conn_fd s h b src tar rest more p q =
    let is : (h.status == 2) ≡ true = ground arith in
    let first = recv_text-Plain b.srclen src (tar ++ rest) p in
    let second = recv_text-Plain b.targetlen tar rest q in
    elim (Option-cases (user_homedir s)) [
      | inl nobody ↦ rw nobody refl
      | inr (home, at) ↦ elim (Option-cases (join home src)) [
        | inl long ↦ rw (at, first, second, is, long) refl
        | inr (source, fits) ↦ elim (Option-cases (join home tar)) [
          | inl long ↦ rw (at, first, second, is, fits, long) refl
          | inr (target, fits') ↦ rw (at, first, second, is, fits, fits') refl
        ]
      ]
    ]

pub soft_link_taken :
    (l : Layout) (d : Disk) (conn_fd : ℕ) (s : Session) (h : Header) (b : LinkBody)
    (src tar int rest : Text)
    → h.status ≢ 2
    → Plain b.srclen src
    → Plain b.targetlen tar
    → length int ≡ l.int_size
    → 0 < l.int_size
    → keeps s (syn_hardlink l d s h b (src ++ (tar ++ (int ++ rest))))
      ≡ with_rest rest (serve_request l d conn_fd s (has_symlink src tar (l.decode_int int)))
unfolding syn_hardlink serve_request
soft_link_taken l d conn_fd s h b src tar int rest ne p q size some_byte =
    let is : (h.status == 2) ≡ false = ground arith in
    let first = recv_text-Plain b.srclen src (tar ++ (int ++ rest)) p in
    let second = recv_text-Plain b.targetlen tar (int ++ rest) q in
    let third = recv_message-append (l.int_size) int rest size some_byte in
    elim (Option-cases (user_homedir s)) [
      | inl nobody ↦ rw nobody refl
      | inr (home, at) ↦ elim (Option-cases (soft_link_actions home src tar (l.decode_int int))) [
        | inl e ↦ rw (at, first, second, is, third, e) refl
        | inr (out, e) ↦ rw (at, first, second, is, third, e) refl
      ]
    ]
