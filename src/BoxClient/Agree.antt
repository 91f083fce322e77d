-- ===== src/BoxClient/Agree.antt =====
-- When client and server understand each other, and how the server reads a message of the client.
use ntu_system_programming.Common.{
  ℕ, suc, ◌+◌, ◌^◌, ◌≤◌, ◌<◌, ◌≡◌, ◌≢◌, refl, true, some, [], ◌∷◌, ◌++◌, leb, ltb, length, get_or,
  take, drop, take-append, drop-append, arith, length-append,
}
use mathlib.Core.Path.{subst}
use ntu_system_programming.BoxServer.{
  Text, Header, Meta, World, Server, recv_message, complete_message,
}
use ntu_system_programming.BoxServer.Files.{up_to_nul, recv_path}
use ntu_system_programming.BoxServer.Requests.{switch, handle_request}
use ntu_system_programming.BoxServer.Transfer.{recv_message-append}
use ntu_system_programming.BoxClient.{Wire}

-- The numbers of a header fit their fields.
pub record FitsHeader (h : Header) : Type 0 where
  pub magic : h.magic < 256
  pub op : h.op < 256
  pub status : h.status < 256
  pub client_id : h.client_id < 2 ^ 16
  pub datalen : h.datalen < 2 ^ 32

pub record FitsMeta (m : Meta) : Type 0 where
  pub pathlen : m.pathlen < 2 ^ 32
  pub st_mode : m.stat.st_mode < 2 ^ 32
  pub st_atime : m.stat.st_atime < 2 ^ 64
  pub st_mtime : m.stat.st_mtime < 2 ^ 64
  pub hash : length m.hash ≡ 16

-- The two sides were compiled for one layout: the structs have their sizes, and are read as written.
pub record Agree (w : World) (x : Wire) : Type 0 where
  pub header_some : 0 < w.header_size
  pub header_len : (h : Header) → length (x.encode_header h) ≡ w.header_size
  pub header : (h : Header) → FitsHeader h → w.decode_header (x.encode_header h) ≡ h
  pub meta_size : w.meta_size ≡ x.meta_len
  pub meta_small : x.meta_len < 2 ^ 32
  pub meta_len : (m : Meta) → length (x.encode_meta m) ≡ x.meta_len
  pub meta : (m : Meta) → FitsMeta m → w.decode_meta (x.encode_meta m) ≡ m
  pub file_size : w.file_size ≡ w.header_size + x.file_len
  pub file_len : (n : ℕ) → length (x.encode_file n) ≡ x.file_len
  pub file :
      (h : Header) (n : ℕ) → n < 2 ^ 64 → w.decode_file (x.encode_header h ++ x.encode_file n) ≡ n

module _ {w : World} {x : Wire} (agree : Agree w x) where
  -- A header that arrives starts its request.
  pub handle_request-header :
      (s : Server) (fd : ℕ) (h : Header) (rest : Text)
      → FitsHeader h
      → handle_request w s fd (x.encode_header h ++ rest) ≡ switch w s fd h rest
  unfolding handle_request
  handle_request-header s fd h rest fits =
      rw
        (
          recv_message-append (w.header_size) (x.encode_header h) rest (agree.header_len h)
              (agree.header_some),
          agree.header h fits,
        )
        refl

  pub complete_message-append :
      (size : ℕ) (h : Header) (body rest : Text)
      → length body ≡ h.datalen
      → h.datalen ≤ size
      → complete_message size h (body ++ rest) ≡ some (true, body, rest)
  unfolding complete_message
  complete_message-append size h body rest e small =
      let fits : leb h.datalen size ≡ true = ground arith in
      let there : leb h.datalen (length (body ++ rest)) ≡ true =
        ground (arith, length-append body rest, e) in
      let front : take h.datalen (body ++ rest) ≡ body =
        subst (λ k. take k (body ++ rest) ≡ body) e (take-append body rest) in
      let back : drop h.datalen (body ++ rest) ≡ rest =
        subst (λ k. drop k (body ++ rest) ≡ rest) e (drop-append body rest) in
      rw (fits, there, front, back) refl

-- A string without a NUL is all of itself.
pub up_to_nul_all : (t : Text) → ((k : ℕ) → k < length t → get_or t k 0 ≢ 0) → up_to_nul t ≡ t
unfolding up_to_nul
up_to_nul_all [] free = refl
up_to_nul_all (b ∷ t) free =
    ground (arith, free 0 (omega arith), up_to_nul_all t (λ k lt. free (suc k) (omega arith)))

pub recv_path-append :
    (home rel rest : Text)
    → length rel < 4096
    → length (home ++ rel) < 4096
    → ((k : ℕ) → k < length rel → get_or rel k 0 ≢ 0)
    → recv_path home (length rel) (rel ++ rest) ≡ some (home ++ rel, rest)
unfolding recv_path recv_message up_to_nul
recv_path-append home [] rest small whole free =
    let room : ltb (length (home ++ [])) 4096 ≡ true = ground arith in rw room refl
recv_path-append home (b ∷ rel) rest small whole free =
    let fits : ltb (length (b ∷ rel)) 4096 ≡ true = ground arith in
    let room : ltb (length (home ++ (b ∷ rel))) 4096 ≡ true = ground arith in
    rw
      (
        recv_message-append (length (b ∷ rel)) (b ∷ rel) rest refl (omega arith),
        fits,
        up_to_nul_all (b ∷ rel) free,
        room,
      )
      refl
